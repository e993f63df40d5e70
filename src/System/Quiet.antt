-- ===== src/System/Quiet.antt =====
-- Events of upstreams leave the routes of the data storage alone.
use amesh.Prelude.{String, ◌≡◌, refl, ◌∙◌, List, [], ◌∷◌, some, arith}
use amesh.Apisix.Route.{Route}
use amesh.Apisix.Upstream.{Upstream}
use amesh.Apisix.Compare.Latest.{latest}
use amesh.Apisix.Compare.{compare_routes}
use amesh.Manifest.{
  Marshal, empty_manifest, Event, route_key, upstream_key, diff_from, generate_incremental_events,
}
use amesh.Manifest.Generate.{generate_incremental_events_lem}
use amesh.Agent.{Storage, Contract, marshal_object, store_object, dispatch, store_loop}
use amesh.Agent.Keys.{upstream-ne-route}
use amesh.Agent.Loop.{store_loop-append}
use amesh.Agent.Effects.{read-events_route}
use amesh.Xds.Eds.{refresh_events}

module _ {S : Type 0} (storage : Storage S) (contract : Contract S storage) (marshal : Marshal)
    (encode_route : Route → String) (encode_upstream : Upstream → String)
    (route_ok : (r : Route) → marshal.route r ≡ some (encode_route r))
    (upstream_ok : (u : Upstream) → marshal.upstream u ≡ some (encode_upstream u)) where
  open contract use {read, read-store}

  -- Storing the events changes nothing under the key of a route.
  abbrev pub IsQuiet : List Event → Type 0
  IsQuiet es =
      (k : String) (s : S)
      → read (route_key k) (store_loop storage marshal es s) ≡ read (route_key k) s

  pub refresh_events-IsQuiet : (us : List Upstream) → IsQuiet (refresh_events us)
  unfolding refresh_events store_loop dispatch store_object marshal_object
  refresh_events-IsQuiet [] k s = refl
  refresh_events-IsQuiet (u ∷ us) k s =
      refresh_events-IsQuiet us k _
      ∙ ground (
        arith,
        upstream_ok u,
        read-store (upstream_key u.id) (route_key k) (encode_upstream u) s,
        upstream-ne-route u.id k,
      )

  pub upstreams-IsQuiet :
      (new old : List Upstream)
      → IsQuiet (
          generate_incremental_events marshal
            (some (record empty_manifest { upstreams = new }))
            (some (record empty_manifest { upstreams = old })))
  unfolding diff_from compare_routes latest
  upstreams-IsQuiet new old k s =
      let effect =
        read-events_route storage contract marshal encode_route encode_upstream route_ok
          upstream_ok in
      rw (
        generate_incremental_events_lem, store_loop-append, store_loop-append, effect, effect,
        effect,
      )
