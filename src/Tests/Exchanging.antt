-- ===== src/Tests/Exchanging.antt =====
-- Tests of the exchange with the control plane: one that ends and one that need not.
use amesh.Prelude.{
  length, ◌+◌, ◌≤◌, false, ◌≡◌, refl, List, [], ◌∷◌, none, some, lookup, insert, ok, arith,
}
use amesh.Prelude.Text.{contains, before, trim_prefix}
use amesh.Amesh.{get_plugins}
use amesh.Xds.Envoy.{
  TypeUrl, route_url, cluster_url, load_assignment_url, listener_url, eds, round_robin, rds, Any,
  ClusterLoadAssignment, DiscoveryResponse, DiscoveryRequest,
}
use amesh.Xds.Externals.{Externals}
use amesh.Xds.Match.{get_cluster_name, get_url, get_parameters_match_vars, get_headers_match_vars}
use amesh.Xds.Patch.{patch_amesh_plugins}
use amesh.Xds.Split.{translate_route_plugins}
use amesh.Xds.VirtualHost.{translate_route_configuration}
use amesh.Xds.Listener.{http_connect_manager_v3, get_routes_from_listener}
use amesh.Xds.Rds.{translate_rds}
use amesh.Xds.Cds.{cluster_one, translate_cds}
use amesh.Xds.Cluster.{translate_cluster}
use amesh.StringSet.{add}
use amesh.Xds.Eds.{translate_eds}
use amesh.Xds.Lds.{translate_lds}
use amesh.Xds.Provisioner.{XdsProvisioner, request, ignore_eds, first_send, send_eds, send_rds}
use amesh.Xds.Translate.{Round, translate, translate_round}
use amesh.Xds.Exchange.{Exchange, opened, taken, Turn, turn, Turns, none_taken, turn_taken}
use amesh.Xds.Exchange.Bound.{HasEndpoints, opened-Turns}
use amesh.Xds.Exchange.Endless.{empty_answer, asking, asking-Turns}
use amesh.Tests.Resources.{plain_upstream}
use amesh.Tests.Upstreams.{with_assignments}
use amesh.Tests.Running.{IsOk, value_of, value_of_lem, new_provisioner}

-- A listener with the routes "80", and the cluster "shop" with its endpoints apart.
abbrev pub mesh : Externals
mesh = record with_assignments {
  unmarshal_listener = λ a. some (record {
    address = some (record { address = "0.0.0.0"; port_value = 80 });
    filter_chains =
        (record {
          name = "envoy.filters.network.http_connection_manager";
          typed_config = record { type_url = http_connect_manager_v3; value = "80" };
        }
          ∷ [])
        ∷ [];
  });
  unmarshal_connection_manager = λ a. ok (rds "80");
  unmarshal_cluster = λ a. some (record {
    name = "shop";
    lb_policy = round_robin;
    connect_timeout = none;
    has_cluster_type = false;
    discovery_type = eds;
    load_assignment = none;
  });
}

abbrev pub with_one : TypeUrl → DiscoveryResponse
with_one url = record {
  type_url = url;
  version_info = "1";
  nonce = "a";
  resources = record { type_url = "any"; value = "one" } ∷ [];
}

-- the round on a response of this type
abbrev Runs : TypeUrl → Exchange → Type 0
Runs url x = IsOk (translate_round mesh (with_one url) x.ver_info x.provisioner)

abbrev round_of : (url : TypeUrl) (x : Exchange) → Runs url x → Round mesh
round_of url x h = value_of (translate_round mesh (with_one url) x.ver_info x.provisioner) h

abbrev start : Exchange
start = opened "" new_provisioner

listeners_run : Runs listener_url start
unfolding opened translate_round translate translate_lds get_routes_from_listener
listeners_run = tt

abbrev routes_request : DiscoveryRequest
routes_request = request route_url ("80" ∷ [])

abbrev endpoints_request : DiscoveryRequest
endpoints_request = request load_assignment_url ("shop" ∷ [])

abbrev first : Exchange
first = taken mesh [] (request cluster_url [] ∷ []) (round_of listener_url start listeners_run)

clusters_run : Runs cluster_url first
unfolding opened taken translate_round translate translate_lds translate_cds
    get_routes_from_listener
clusters_run = tt

abbrev second : Exchange
second = taken mesh [] (routes_request ∷ []) (round_of cluster_url first clusters_run)

routes_run : Runs route_url second
unfolding opened taken translate_round translate translate_lds translate_cds translate_rds
    get_routes_from_listener translate_route_configuration get_cluster_name get_url
    get_parameters_match_vars get_headers_match_vars patch_amesh_plugins get_plugins
    translate_route_plugins
routes_run = tt

abbrev third : Exchange
third = taken mesh [] (endpoints_request ∷ []) (round_of route_url second routes_run)

endpoints_run : Runs load_assignment_url third
unfolding opened taken translate_round translate translate_lds translate_cds translate_rds
    translate_eds get_routes_from_listener translate_route_configuration get_cluster_name get_url
    get_parameters_match_vars get_headers_match_vars patch_amesh_plugins get_plugins
    translate_route_plugins
endpoints_run = tt

abbrev fourth : Exchange
fourth = taken mesh [] [] (round_of load_assignment_url third endpoints_run)

with_one-HasEndpoints : (url : TypeUrl) → HasEndpoints mesh (with_one url)
with_one-HasEndpoints url e = (λ cla h. ground (arith), tt)

-- A response to the first request is taken.
one-Turn :
    (url : TypeUrl) (x : Exchange) (h : Runs url x) (q : DiscoveryRequest)
    (qs : List DiscoveryRequest)
    → x.unanswered ≡ q ∷ qs
    → url ≡ q.type_url
    → Turn mesh (HasEndpoints mesh) x (taken mesh [] qs (round_of url x h))
one-Turn url x h q qs open_ones same =
    turn [] qs q (with_one url) (round_of url x h) open_ones same (with_one-HasEndpoints url)
      (value_of_lem _ h)

first-Turn : Turn mesh (HasEndpoints mesh) start first
unfolding opened first_send
first-Turn = one-Turn listener_url start listeners_run _ _ refl refl

second-Turn : Turn mesh (HasEndpoints mesh) first second
unfolding opened taken translate_round translate translate_lds get_routes_from_listener
    listeners_run send_rds
second-Turn =
    one-Turn cluster_url first clusters_run (request cluster_url []) (routes_request ∷ []) refl refl

third-Turn : Turn mesh (HasEndpoints mesh) second third
unfolding opened taken translate_round translate translate_lds translate_cds
    get_routes_from_listener listeners_run clusters_run send_rds send_eds cluster_one
    translate_cluster add insert
third-Turn = one-Turn route_url second routes_run routes_request (endpoints_request ∷ []) refl refl

fourth-Turn : Turn mesh (HasEndpoints mesh) third fourth
unfolding opened taken translate_round translate translate_lds translate_cds translate_rds
    get_routes_from_listener translate_route_configuration get_cluster_name get_url
    get_parameters_match_vars get_headers_match_vars patch_amesh_plugins get_plugins
    translate_route_plugins listeners_run clusters_run routes_run send_rds send_eds
fourth-Turn = one-Turn load_assignment_url third endpoints_run endpoints_request [] refl refl

opened-Turns_example : 4 + length fourth.unanswered ≤ 4
opened-Turns_example =
    opened-Turns mesh (HasEndpoints mesh) (λ resp h. h) "" new_provisioner
      (turn_taken
        (turn_taken (turn_taken (turn_taken none_taken first-Turn) second-Turn) third-Turn)
        fourth-Turn)

-- The cluster "shop" without a pod.
abbrev dangling : ClusterLoadAssignment
dangling = record { cluster_name = "shop"; endpoints = [] }

abbrev without_pods : Externals
without_pods = record mesh { unmarshal_load_assignment = λ a. some dangling }

abbrev pub with_shop : XdsProvisioner
with_shop = record new_provisioner { upstreams = ("shop", plain_upstream "shop" []) ∷ [] }

abbrev resource : Any
resource = record { type_url = "assignment"; value = "shop" }

asking-Turns_example :
    Turns without_pods
      (λ resp.
        resp
        ≡ empty_answer without_pods resource dangling (plain_upstream "shop" []) "1" "a" refl refl)
      5
      (asking without_pods resource dangling (plain_upstream "shop" []) "1" "a" refl refl with_shop)
      (asking without_pods resource dangling (plain_upstream "shop" []) "1" "a" refl refl with_shop)
unfolding lookup ignore_eds contains before trim_prefix
asking-Turns_example =
    asking-Turns without_pods resource dangling (plain_upstream "shop" []) "1" "a" refl refl 5
      with_shop refl refl
