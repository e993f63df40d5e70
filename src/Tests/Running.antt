-- ===== src/Tests/Running.antt =====
-- Tests of the running agent: responses, the plugins of the controller, and what is stored.
use amesh.Prelude.{
  true, String, ◌≡◌, refl, [], ◌∷◌, none, some, Map, lookup, Result, ok, err, panic,
}
use amesh.Apisix.Compare.Latest.{latest}
use amesh.Amesh.{get_plugins, new_amesh_provisioner}
use amesh.Xds.Envoy.{
  full_path, cluster, XdsRoute, VirtualHost, RouteConfiguration, route_url, DiscoveryResponse,
}
use amesh.Xds.Externals.{Externals}
use amesh.Xds.Provisioner.{XdsProvisioner}
use amesh.Xds.Match.{get_cluster_name, get_url, get_parameters_match_vars, get_headers_match_vars}
use amesh.Xds.Patch.{patch_amesh_plugins}
use amesh.Xds.Split.{translate_route_plugins}
use amesh.Xds.VirtualHost.{translate_route_configuration}
use amesh.Xds.Rds.{translate_rds}
use amesh.Xds.Translate.{Round, translate_round}
use amesh.System.{store_batches, System, respond, here, next}
use amesh.System.Routes.{HasRoutes, Reach-routes}
use amesh.Tests.Resources.{map_storage, map_contract, route_name, upstream_name, by_name, no_data}
use amesh.Tests.Plugins.{parse_any}

-- A result that is not a failure, and its value.
abbrev pub IsOk : {A : Type 0} → Result A → Type 0
IsOk (ok a) = Unit
IsOk (err e) = ⊥
IsOk panic = ⊥

abbrev pub value_of : {A : Type 0} (m : Result A) → IsOk m → A
value_of (ok a) h = a
value_of (err e) h = absurd h
value_of panic h = absurd h

pub value_of_lem : {A : Type 0} (m : Result A) (h : IsOk m) → m ≡ ok (value_of m h)
value_of_lem (ok a) h = refl
value_of_lem (err e) h = absurd h
value_of_lem panic h = absurd h

abbrev pub shop_route : XdsRoute
shop_route = record {
  name = "shop";
  has_match = true;
  matcher = record {
    path = full_path "/shop";
    case_sensitive = none;
    query_parameters = [];
    headers = [];
  };
  action = some (record { specifier = cluster "v1"; timeout = none });
  typed_per_filter_config = [];
}

abbrev pub shop_host : VirtualHost
shop_host = record { name = "shop"; domains = "shop:80" ∷ []; routes = shop_route ∷ [] }

abbrev pub shop_config : RouteConfiguration
shop_config = record { name = "80"; virtual_hosts = shop_host ∷ [] }

-- Decoders that know one message each.
abbrev pub sample : Externals
sample = record {
  gen_id = λ s. s;
  fault_filter = "envoy.filters.http.fault";
  http_connection_manager = "envoy.filters.network.http_connection_manager";
  unmarshal_fault = λ a. none;
  unmarshal_route_configuration = λ a. some shop_config;
  unmarshal_cluster = λ a. none;
  unmarshal_load_assignment = λ a. none;
  unmarshal_listener = λ a. none;
  unmarshal_connection_manager = λ a. err "unknown message";
  unmarshal_secret = λ a. none;
  show_bool_value = λ b. "<nil>";
  marshal = by_name;
  json_copy = λ u. some u;
}

abbrev pub new_provisioner : XdsProvisioner
new_provisioner = record {
  src = "grpc://istiod:15010";
  amesh = some new_amesh_provisioner;
  route_ownership = [];
  static_route_configurations = [];
  routes = [];
  upstreams = [];
  secrets = none;
  eds_required_clusters = [];
}

abbrev pub start : System (Map String)
start = record { provisioner = new_provisioner; ver_info = ""; agent = no_data }

abbrev pub routes_response : DiscoveryResponse
routes_response = record {
  type_url = route_url;
  version_info = "1";
  nonce = "a";
  resources = record { type_url = "route"; value = "shop" } ∷ [];
}

translated : IsOk (translate_round sample routes_response "" new_provisioner)
unfolding translate_round translate_rds translate_route_configuration get_cluster_name get_url
    get_parameters_match_vars get_headers_match_vars patch_amesh_plugins get_plugins
    translate_route_plugins
translated = tt

abbrev first_round : Round sample
first_round = value_of (translate_round sample routes_response "" new_provisioner) translated

abbrev routed : System (Map String)
routed = record {
  provisioner = first_round.state;
  ver_info = first_round.ver_info;
  agent = store_batches sample parse_any map_storage "1" first_round.events no_data;
}

Reach-routes_example :
    HasRoutes sample parse_any map_storage map_contract route_name upstream_name
      (λ r. refl)
      (λ u. refl)
      routed.provisioner.routes
      routed.agent
unfolding latest lookup
Reach-routes_example =
    Reach-routes sample parse_any map_storage map_contract route_name upstream_name (λ r. refl)
      (λ u. refl) {x = start} {y = routed} (λ k. refl)
      (next here (respond "1" routes_response first_round (value_of_lem _ translated)))
