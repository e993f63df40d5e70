-- ===== src/Xds/Rds.antt =====
-- The branch of translate in pkg/amesh/provisioner/xds.go for route configurations (RDS), with
-- processStaticRouteConfigurations of translator.go.
pub mod Static
use amesh.Prelude.{String, List, [], ◌∷◌, ◌++◌, Option, none, some, Result, ok, err, panic, ◌>>=◌}
use amesh.Apisix.Route.{Route}
use amesh.Manifest.{empty_manifest, generate_incremental_events}
use amesh.Amesh.{AmeshProvisioner}
use amesh.Xds.Envoy.{Any, RouteConfiguration}
use amesh.Xds.Externals.{Externals}
use amesh.Xds.VirtualHost.{translate_route_configuration}
use amesh.Xds.Provisioner.{XdsProvisioner, Translated}

-- the test on the error of processStaticRouteConfigurations
abbrev pub static_part : Result (List Route) → Result (List Route)
static_part (ok partial) = ok partial
static_part (err e) = ok []
static_part panic = panic

module _ (ext : Externals) where
  -- processStaticRouteConfigurations: the routes of the loop's body are not kept
  unfoldable pub process_static_route_configurations :
      Option AmeshProvisioner → List RouteConfiguration → Result (List Route)
  process_static_route_configurations amesh [] = ok []
  process_static_route_configurations amesh (rc ∷ rcs) = do
    _ ← translate_route_configuration ext amesh rc
    process_static_route_configurations amesh rcs

  -- the loop over the resources of an RDS response; a resource that fails is passed over
  unfoldable pub rds_loop :
      Option AmeshProvisioner
      → List String
      → List Route
      → List Any
      → Result (List String × List Route)
  rds_loop amesh names routes [] = ok (names, routes)
  rds_loop amesh names routes (res ∷ rest) = elim (ext.unmarshal_route_configuration res) [
    | none ↦ rds_loop amesh names routes rest
    | some rc ↦ elim (translate_route_configuration ext amesh rc) [
      | ok partial ↦ rds_loop amesh (names ++ rc.name ∷ []) (routes ++ partial) rest
      | err e ↦ rds_loop amesh names routes rest
      | panic ↦ panic
    ]
  ]

  -- the routes of the static configurations, or none if one of them fails
  unfoldable pub static_routes : XdsProvisioner → Result (List Route)
  unfolding process_static_route_configurations
  static_routes p =
      static_part (process_static_route_configurations p.amesh p.static_route_configurations)

  unfoldable pub translate_rds : List Any → XdsProvisioner → Result Translated
  unfolding rds_loop static_routes
  translate_rds resources p = do
    (names, partial) ← rds_loop p.amesh [] [] resources
    static ← static_routes p
    ok (record {
      state = record p { routes = partial ++ static };
      resource_names = names;
      events =
          generate_incremental_events ext.marshal
            (some (record empty_manifest { routes = partial ++ static }))
            (some (record empty_manifest { routes = p.routes }));
      requests = [];
    })
