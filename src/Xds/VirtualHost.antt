-- ===== src/Xds/VirtualHost.antt =====
-- translateVirtualHost and TranslateRouteConfiguration of
-- pkg/amesh/provisioner/route_translator.go.
pub mod Hosts
pub mod Shape
use Prim.Native.String.{◌++◌ as ◌+++◌}
use amesh.Prelude.{
  ℕ, ℤ, pos, negsuc, String, Bool, true, false, List, [], ◌∷◌, ◌++◌, Option, none, some, insert,
  Result, ok, err, panic, ◌>>=◌, length, eqb, ltb, ◌==◌, if◌then◌else◌,
}
use amesh.Prelude.Text.{before, remove_all, join}
use amesh.StringSet.{StringSet, add, ordered_strings}
use amesh.Apisix.Var.{Var, to_comparable_string}
use amesh.Apisix.Plugin.{prometheus, plugin_prometheus}
use amesh.Apisix.Upstream.{Timeout}
use amesh.Apisix.Route.{Route}
use amesh.Amesh.{AmeshProvisioner}
use amesh.Xds.Envoy.{XdsRoute, RouteAction, VirtualHost, RouteConfiguration}
use amesh.Xds.Externals.{Externals}
use amesh.Xds.Patch.{patch_amesh_plugins}
use amesh.Xds.Match.{get_cluster_name, get_url, get_parameters_match_vars, get_headers_match_vars}
use amesh.Xds.Fault.{translate_route_filters}
use amesh.Xds.Split.{translate_route_plugins}

abbrev pub default_route_priority : ℕ
default_route_priority = 999

-- the loop over vhost.Domains: a "*" empties the set and ends it; a port is cut off
unfoldable pub host_loop : StringSet → List String → StringSet
host_loop set [] = set
host_loop set (domain ∷ rest) =
    let others = host_loop (add (before b':' domain) set) rest in
    if domain == "*" then [] else others

unfoldable pub hosts_of : VirtualHost → List String
unfolding host_loop
hosts_of vhost = ordered_strings (host_loop [] vhost.domains)

-- if s == "" { s = "anon" }
abbrev pub or_anon : String → String
or_anon s = if s == "" then "anon" else s

unfoldable pub priority_of : String → List String → ℕ
priority_of name hosts =
    if name == "allow_any" then 0 else if eqb (length hosts) 0 then 0 else default_route_priority

-- name#vhost#config, without the domain suffix
unfoldable pub full_name : String → String → String → String
full_name name vhost route_name =
    remove_all (name +++ ("#" +++ (vhost +++ ("#" +++ route_name)))) ".svc.cluster.local"

-- the loop that collects the conditions' texts
unfoldable pub condition_set : StringSet → List Var → StringSet
condition_set set [] = set
condition_set set (v ∷ vars) = condition_set (add (to_comparable_string v) set) vars

unfoldable pub match_conditions : Externals → String → Option Bool → List Var → String
unfolding condition_set
match_conditions ext uri sensitive vars =
    uri
    +++ ("-"
        +++ (ext.show_bool_value sensitive
            +++ ("-" +++ join "-" (ordered_strings (condition_set [] vars)))))

-- timeoutSettings != nil && timeoutSettings.Seconds > 0
abbrev timeout_of_seconds : Option ℤ → Option Timeout
timeout_of_seconds none = none
timeout_of_seconds (some (negsuc n)) = none
timeout_of_seconds (some (pos n)) =
    if ltb 0 n then some (record { connect = pos n; send = pos n; read = pos n }) else none

unfoldable pub route_timeout : Option RouteAction → Option Timeout
route_timeout none = none
route_timeout (some action) = timeout_of_seconds action.timeout

abbrev pub is_insensitive : Option Bool → Bool
is_insensitive (some false) = true
is_insensitive _ = false

module _ (ext : Externals) (amesh : Option AmeshProvisioner) where
  -- the composite literal of the route
  unfoldable pub new_route :
      String → List String → VirtualHost → XdsRoute → String → String → List Var → Route
  unfolding priority_of full_name match_conditions route_timeout
  new_route route_name hosts vhost route cluster uri vars =
      let name = full_name (or_anon route.name) vhost.name route_name in
      record {
        uris = uri ∷ [];
        name = name;
        id =
            ext.gen_id name
            +++ ("_" +++ ext.gen_id (match_conditions ext uri route.matcher.case_sensitive vars));
        desc =
            "GENERATED_BY_AMESH: VIRTUAL_HOST: "
            +++ (vhost.name +++ (", NAME: " +++ (route.name +++ (", CLUSTER: " +++ cluster))));
        priority = pos (priority_of (or_anon route.name) hosts);
        methods = [];
        hosts = hosts;
        remote_addrs = [];
        vars = vars;
        plugins = [];
        service_id = "";
        upstream_id = ext.gen_id cluster;
        status = pos 1;
        timeout = route_timeout route.action;
        enable_websocket = false;
        labels = [];
        create_time = pos 0;
        update_time = pos 0;
      }

  -- r.Plugins[apisix.PluginPrometheus] = …
  unfoldable pub with_prometheus : Route → Route
  with_prometheus r = record r {
    plugins = insert plugin_prometheus (prometheus (record { prefer_name = true })) r.plugins;
  }

  -- the body of the loop behind the test on case sensitivity
  unfoldable pub translate_sensitive : String → List String → VirtualHost → XdsRoute → Result Route
  unfolding new_route with_prometheus
  translate_sensitive route_name hosts vhost route = do
    cluster ← get_cluster_name route
    uri ← get_url route
    query_vars ← get_parameters_match_vars route
    header_vars ← get_headers_match_vars route
    r ←
        patch_amesh_plugins amesh
          (new_route route_name hosts vhost route cluster uri (header_vars ++ query_vars))
    translate_route_plugins ext.gen_id route (
        with_prometheus (
          translate_route_filters ext.fault_filter ext.unmarshal_fault route.typed_per_filter_config
            r))

  -- the loop over the routes: the routes so far and the last error; a failing route is passed over,
  -- and match.CaseSensitive of a route without a match panics
  unfoldable pub route_loop :
      String
      → List String
      → VirtualHost
      → List Route
      → Option String
      → List XdsRoute
      → Result (List Route × Option String)
  unfolding translate_sensitive
  route_loop route_name hosts vhost routes errors [] = ok (routes, errors)
  route_loop route_name hosts vhost routes errors (route ∷ rest) = elim route.has_match [
    | false ↦ panic
    | true ↦ elim (is_insensitive route.matcher.case_sensitive) [
      | true ↦ route_loop route_name hosts vhost routes errors rest
      | false ↦ elim (translate_sensitive route_name hosts vhost route) [
        | ok r ↦ route_loop route_name hosts vhost (routes ++ r ∷ []) errors rest
        | err e ↦ route_loop route_name hosts vhost routes (some e) rest
        | panic ↦ panic
      ]
    ]
  ]

  unfoldable pub translate_virtual_host : String → VirtualHost → Result (List Route × Option String)
  unfolding route_loop
  translate_virtual_host route_name vhost =
      route_loop (or_anon route_name) (hosts_of vhost) vhost [] none vhost.routes

  -- An error of one virtual host is returned without any route. patchRoutesWithOriginalDestination
  -- has an empty body, so the owner of the routes plays no part.
  unfoldable pub vhost_loop : String → List Route → List VirtualHost → Result (List Route)
  unfolding translate_virtual_host
  vhost_loop route_name routes [] = ok routes
  vhost_loop route_name routes (vhost ∷ rest) = do
    (partial, errors) ← translate_virtual_host route_name vhost
    elim errors [ some e ↦ err e | none ↦ vhost_loop route_name (routes ++ partial) rest ]

  unfoldable pub translate_route_configuration : RouteConfiguration → Result (List Route)
  unfolding vhost_loop
  translate_route_configuration r = vhost_loop r.name [] r.virtual_hosts
