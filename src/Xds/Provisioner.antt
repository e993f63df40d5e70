-- ===== src/Xds/Provisioner.antt =====
-- The xDS provisioner of pkg/amesh/provisioner/xds.go and translator.go: its state, and what one
-- response of each type does to it. What the code starts in goroutines is returned: the batch of
-- events for evChan and the requests for sendCh.
use amesh.Prelude.{
  ℕ, String, Bool, false, not, ◌||◌, List, [], ◌∷◌, Option, none, Map, length, eqb, if◌then◌else◌,
}
use amesh.Prelude.Text.{contains, trim_prefix, before}
use amesh.StringSet.{StringSet, add, strings}
use amesh.Apisix.Route.{Route}
use amesh.Apisix.Upstream.{Upstream}
use amesh.Manifest.{Event}
use amesh.Amesh.{AmeshProvisioner}
use amesh.Xds.Envoy.{
  RouteConfiguration, Cluster, eds, other_discovery, TypeUrl, route_url, cluster_url,
  load_assignment_url, listener_url, secret_url, DiscoveryRequest,
}

-- types.Secret
pub record Secret : Type 0 where
  pub name : String
  pub certificate : String
  pub private_key : String
  pub trusted_ca : String

-- The owner of a route is the text address:port, kept as its two parts. `none` for the secrets is
-- the nil map, which a write panics on.
pub record XdsProvisioner : Type 0 where
  pub src : String
  pub amesh : Option AmeshProvisioner
  pub route_ownership : Map (String × ℕ)
  pub static_route_configurations : List RouteConfiguration
  pub routes : List Route
  pub upstreams : Map Upstream
  pub secrets : Option (Map Secret)
  pub eds_required_clusters : StringSet

-- the names returned, the events sent to evChan and the requests sent to sendCh
pub record Translated : Type 0 where
  pub state : XdsProvisioner
  pub resource_names : List String
  pub events : List Event
  pub requests : List DiscoveryRequest

abbrev pub request : TypeUrl → List String → DiscoveryRequest
request url names = record {
  type_url = url;
  resource_names = names;
  response_nonce = "";
  version_info = "";
  error_detail = none;
}

unfoldable pub send_eds : StringSet → List DiscoveryRequest
unfolding strings
send_eds clusters = request load_assignment_url (strings clusters) ∷ []

unfoldable pub send_rds : List String → List DiscoveryRequest
send_rds [] = []
send_rds (name ∷ names) = request route_url (name ∷ names) ∷ []

unfoldable pub send_sds : String → List DiscoveryRequest
send_sds name = request secret_url (name ∷ []) ∷ []

unfoldable pub first_send : List DiscoveryRequest
first_send = request listener_url [] ∷ request cluster_url [] ∷ []

unfoldable pub ignored_cluster_names : String → List String
ignored_cluster_names src =
    "BlackHoleCluster"
    ∷ "PassthroughCluster"
    ∷ "InboundPassthroughCluster"
    ∷ "kubernetes.default.svc.cluster.local"
    ∷ "kube-system.svc.cluster.local"
    ∷ "istio-system.svc.cluster.local"
    ∷ before b':' (trim_prefix src "grpc://")
    ∷ []

abbrev contains_any : String → List String → Bool
contains_any s [] = false
contains_any s (t ∷ ts) = contains s t || contains_any s ts

unfoldable pub ignore_eds : String → String → Bool
unfolding ignored_cluster_names
ignore_eds src cluster_name = contains_any cluster_name (ignored_cluster_names src)

-- if !ignored { set.Add(name) }
unfoldable pub require : String → String → StringSet → StringSet
unfolding ignore_eds
require src name set = if ignore_eds src name then set else add name set

abbrev pub has_nodes : Upstream → Bool
has_nodes ups = not (eqb (length ups.nodes) 0)

-- cluster.GetType() == clusterv3.Cluster_EDS
unfoldable pub is_eds : Cluster → Bool
is_eds c = elim c.discovery_type [ eds ↦ not c.has_cluster_type | other_discovery ↦ false ]
