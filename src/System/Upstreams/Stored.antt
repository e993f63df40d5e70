-- ===== src/System/Upstreams/Stored.antt =====
-- What storing the events of pkg/amesh/provisioner/xds.go leaves under the keys of upstreams.
use amesh.Prelude.{Option-cases, inl, inr, String, ◌≡◌, ◌≢◌, refl, List, [], ◌∷◌, some, All, arith}
use amesh.Apisix.Route.{Route}
use amesh.Apisix.Upstream.{Upstream}
use amesh.Apisix.Compare.Latest.{latest}
use amesh.Manifest.{
  Marshal, empty_manifest, event_update, upstream_key, events_of, generate_incremental_events,
}
use amesh.Agent.{Storage, Contract, marshal_object, store_object, dispatch, store_loop}
use amesh.Agent.Keys.{upstream_key_eq}
use amesh.Agent.Loop.{store_loop-events_of, value_or}
use amesh.Agent.Patch.{left_by}
use amesh.Agent.Sync.{read-after}
use amesh.Xds.Eds.{refresh_events}

pub latest-served :
    (k : String) (us : List Upstream) (u : Upstream)
    → All (λ u. u.nodes ≢ []) us
    → latest (λ u. u.id) k us ≡ some u
    → u.nodes ≢ []
unfolding latest
latest-served k [] u h e = absurd (cc e)
latest-served k (x ∷ us) u h e = elim (Option-cases (latest (λ u. u.id) k us)) [
  | inr (y, l) ↦ latest-served k us u h.1 (ground arith)
  | inl l ↦ let same : u ≡ x = ground arith in rw same h.0
]

-- The events of an EDS response write every upstream, also one without nodes.
refresh_events-events_of :
    (us : List Upstream) → refresh_events us ≡ events_of (λ u. refresh_events (u ∷ [])) us
unfolding refresh_events events_of
refresh_events-events_of [] = refl
refresh_events-events_of (u ∷ us) = rw (refresh_events-events_of us)

module _ {S : Type 0} (storage : Storage S) (contract : Contract S storage) (marshal : Marshal)
    (encode_route : Route → String) (encode_upstream : Upstream → String)
    (route_ok : (r : Route) → marshal.route r ≡ some (encode_route r))
    (upstream_ok : (u : Upstream) → marshal.upstream u ≡ some (encode_upstream u)) where
  open contract use {read, read-store}

  pub read-refresh_events :
      (us : List Upstream) (k : String) (s : S)
      → read (upstream_key k) (store_loop storage marshal (refresh_events us) s)
        ≡ value_or
            (read (upstream_key k) s)
            (left_by event_update encode_upstream)
            (latest (λ u. u.id) k us)
  unfolding refresh_events store_loop dispatch store_object marshal_object
  read-refresh_events us k s = rw (refresh_events-events_of us) (
      store_loop-events_of storage marshal (λ u. u.id) (λ u. refresh_events (u ∷ [])) k
        (read (upstream_key k)) (left_by event_update encode_upstream) (λ u. Unit {0})
        (λ u t h. ground (
          arith,
          upstream_ok u,
          read-store (upstream_key u.id) (upstream_key k) (encode_upstream u) t,
          upstream_key_eq u.id k,
        ))
        (λ u t h g. ground (
          arith,
          upstream_ok u,
          read-store (upstream_key u.id) (upstream_key k) (encode_upstream u) t,
          upstream_key_eq u.id k,
        ))
        us s (λ u h. tt))

  -- Events of routes leave the upstreams alone.
  pub read-routes_events :
      (old new : List Route) (k : String) (s : S)
      → read (upstream_key k) (
          store_loop storage marshal
            (generate_incremental_events marshal
              (some (record empty_manifest { routes = new }))
              (some (record empty_manifest { routes = old })))
            s)
        ≡ read (upstream_key k) s
  unfolding latest
  read-routes_events old new k s =
      read-after storage contract marshal encode_route encode_upstream route_ok upstream_ok
        (record empty_manifest { routes = old }) (record empty_manifest { routes = new }) k s
        (λ j u e. absurd (cc e)) (λ j u e. absurd (cc e)) (λ u e. absurd (cc e))
