-- ===== src/Xds/Cluster.antt =====
-- pkg/amesh/provisioner/cluster_translator.go and endpoint_translator.go: clusters and their load
-- assignments become upstreams with nodes.
pub mod Nodes
use amesh.Prelude.{
  ℕ, ℤ, pos, int32, String, Bool, true, false, not, List, [], ◌∷◌, ◌++◌, Option, none, some, length,
  eqb, if◌then◌else◌,
}
use amesh.Apisix.Upstream.{Upstream, Node, Timeout, protocol_scheme_http}
use amesh.Xds.Envoy.{
  PortSpecifier, port_value, named_port, unset_port, SocketAddress, Address, socket_address,
  unknown_address, HostIdentifier, endpoint, unknown_host, LbEndpoint, LocalityLbEndpoints,
  ClusterLoadAssignment, LbPolicy, round_robin, least_request, other_policy, DiscoveryType, eds,
  other_discovery, Cluster,
}

-- A translation gives a value or types.ErrorRequireFurtherEDS, the only error of these functions.
pub data Assigned {ℓ} (A : Type ℓ) : Type ℓ where
  assigned : A → Assigned A
  require_further_eds : Assigned A

-- the port, or `none` where the endpoint is passed over; an unset port stays 0
unfoldable pub port_of : PortSpecifier → Option ℤ
port_of (port_value p) = some (int32 p)
port_of (named_port name) = none
port_of unset_port = some (pos 0)

unfoldable pub socket_node : ℤ → SocketAddress → Option Node
unfolding port_of
socket_node weight addr = if not addr.is_tcp then none else elim (port_of addr.port) [
  | none ↦ none
  | some port ↦ some (record { host = addr.address; port = port; weight = weight; metadata = none })
]

unfoldable pub identified_node : ℤ → HostIdentifier → Option Node
unfolding socket_node
identified_node weight (endpoint (socket_address addr)) = socket_node weight addr
identified_node weight (endpoint unknown_address) = none
identified_node weight unknown_host = none

-- the weight of the endpoint, or else that of its locality
unfoldable pub endpoint_node : ℤ → LbEndpoint → Option Node
unfolding identified_node
endpoint_node weight ep =
    identified_node (elim ep.load_balancing_weight [ none ↦ weight | some w ↦ int32 w ])
      ep.host_identifier

unfoldable pub endpoint_loop : ℤ → List LbEndpoint → List Node
unfolding endpoint_node
endpoint_loop weight [] = []
endpoint_loop weight (ep ∷ eps) = elim (endpoint_node weight ep) [
  | none ↦ endpoint_loop weight eps
  | some node ↦ node ∷ endpoint_loop weight eps
]

abbrev pub locality_weight : LocalityLbEndpoints → ℤ
locality_weight eps = elim eps.load_balancing_weight [ none ↦ pos 100 | some w ↦ int32 w ]

unfoldable pub locality_loop : List LocalityLbEndpoints → List Node
unfolding endpoint_loop
locality_loop [] = []
locality_loop (eps ∷ rest) =
    endpoint_loop (locality_weight eps) eps.lb_endpoints ++ locality_loop rest

-- la.GetEndpoints() of a nil assignment is empty
abbrev pub endpoints_of : Option ClusterLoadAssignment → List LocalityLbEndpoints
endpoints_of none = []
endpoints_of (some la) = la.endpoints

unfoldable pub translate_cluster_load_assignment :
    Option ClusterLoadAssignment → Assigned (List Node)
unfolding locality_loop
translate_cluster_load_assignment la =
    if eqb (length (endpoints_of la)) 0
    then require_further_eds
    else assigned (locality_loop (endpoints_of la))

-- an unsupported policy leaves the type as it is
unfoldable pub lb_type : LbPolicy → String
lb_type round_robin = "roundrobin"
lb_type least_request = "least_conn"
lb_type other_policy = ""

unfoldable pub cluster_timeout : Option ℤ → Option Timeout
cluster_timeout none = none
cluster_timeout (some seconds) = some (record { connect = seconds; send = pos 60; read = pos 60 })

-- the upstream before its nodes are known
unfoldable pub new_upstream : (String → String) → Cluster → Upstream
unfolding lb_type cluster_timeout
new_upstream gen_id c = record {
  create_time = pos 0;
  update_time = pos 0;
  nodes = [];
  retries = pos 0;
  timeout = cluster_timeout c.connect_timeout;
  tls = none;
  keepalive_pool = none;
  type = lb_type c.lb_policy;
  check = none;
  hash_on = "";
  key = "";
  scheme = protocol_scheme_http;
  labels = [];
  pass_host = "";
  upstream_host = "";
  name = c.name;
  desc = "";
  id = gen_id c.name;
}

-- the switch on the type of the cluster
unfoldable pub cluster_nodes : DiscoveryType → Cluster → Upstream → Assigned Upstream
unfolding translate_cluster_load_assignment
cluster_nodes eds c ups = assigned ups
cluster_nodes other_discovery c ups = elim (translate_cluster_load_assignment c.load_assignment) [
  | require_further_eds ↦ require_further_eds
  | assigned nodes ↦ assigned (record ups { nodes = nodes })
]

unfoldable pub translate_cluster_load_assignments : Cluster → Upstream → Assigned Upstream
unfolding cluster_nodes
translate_cluster_load_assignments c ups =
    if c.has_cluster_type then assigned ups else cluster_nodes c.discovery_type c ups

unfoldable pub translate_cluster : (String → String) → Cluster → Assigned Upstream
unfolding new_upstream translate_cluster_load_assignments
translate_cluster gen_id c = translate_cluster_load_assignments c (new_upstream gen_id c)
