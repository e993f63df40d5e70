-- ===== src/Xds/Listener.antt =====
-- GetRoutesFromListener of pkg/amesh/provisioner/route_translator.go: the names of the routes to ask
-- for, and the routes that the listener holds itself.
use amesh.Prelude.{String, List, [], ◌∷◌, ◌++◌, Result, ok, ◌>>=◌, ◌==◌, if◌then◌else◌}
use amesh.Xds.Envoy.{
  Any, NetworkFilter, Listener, RouteConfiguration, RouteSpecifier, rds, route_config,
  scoped_routes, no_routes,
}

abbrev pub http_connect_manager_v3 : String
http_connect_manager_v3 =
    "type.googleapis.com/envoy.extensions.filters.network.http_connection_manager.v3.HttpConnectionManager"

abbrev pub Found : Type 0
Found = List String × List RouteConfiguration

unfoldable pub add_specifier : RouteSpecifier → Found → Found
add_specifier (rds name) (names, configs) = (names ++ name ∷ [], configs)
add_specifier (route_config c) (names, configs) = (names, configs ++ c ∷ [])
add_specifier scoped_routes found = found
add_specifier no_routes found = found

module _ (connection_manager : String) (unmarshal : Any → Result RouteSpecifier) where
  -- the switch on the filter's name; every filter of another kind is passed over
  unfoldable pub filter_routes : NetworkFilter → Found → Result Found
  unfolding add_specifier
  filter_routes f found =
      if f.name == connection_manager
      then (if f.typed_config.type_url == http_connect_manager_v3
          then (unmarshal f.typed_config >>= λ specifier. ok (add_specifier specifier found))
          else ok found)
      else ok found

  unfoldable pub chain_loop : List NetworkFilter → Found → Result Found
  unfolding filter_routes
  chain_loop [] found = ok found
  chain_loop (f ∷ fs) found = filter_routes f found >>= chain_loop fs

  unfoldable pub chains_loop : List (List NetworkFilter) → Found → Result Found
  unfolding chain_loop
  chains_loop [] found = ok found
  chains_loop (fc ∷ fcs) found = chain_loop fc found >>= chains_loop fcs

  unfoldable pub get_routes_from_listener : Listener → Result Found
  unfolding chains_loop
  get_routes_from_listener l = chains_loop l.filter_chains ([], [])
