-- ===== src/Agent/Effects.antt =====
-- What a reader of the data storage sees after the events of a manifest, id by id.
use amesh.Prelude.{String, false, ◌≡◌, ◌≢◌, ap, ◌∙◌, List, [], some, ◌==◌, arith, if◌then◌else◌}
use amesh.Apisix.Route.{Route}
use amesh.Apisix.Upstream.{Upstream}
use amesh.Apisix.Compare.Latest.{latest}
use amesh.Manifest.{
  Marshal, Manifest, Event, EventType, event_add, event_update, event_delete, route_key,
  upstream_key, route_event, upstream_event, events_of, events,
}
use amesh.Agent.{Storage, Contract, marshal_object, dispatch, store_loop}
use amesh.Agent.Keys.{route_key_eq, upstream_key_eq, route-ne-upstream, upstream-ne-route}
use amesh.Agent.Loop.{store_loop-append, store_loop-events_of, value_or, store_loop-untouched}
use amesh.Agent.Patch.{left_by}

module _ {S : Type 0} (storage : Storage S) (contract : Contract S storage) (marshal : Marshal)
    (encode_route : Route → String) (encode_upstream : Upstream → String)
    (route_ok : (r : Route) → marshal.route r ≡ some (encode_route r))
    (upstream_ok : (u : Upstream) → marshal.upstream u ≡ some (encode_upstream u)) where
  open contract use {read, read-store, read-delete}

  abbrev pub run : List Event → S → S
  run = store_loop storage marshal

  pub read-route_event :
      (ev_type : EventType) (k : String) (r : Route) (s : S)
      → read (route_key k) (run (route_event ev_type r) s)
        ≡ (if r.id == k then left_by ev_type encode_route r else read (route_key k) s)
  unfolding store_loop dispatch route_event marshal_object
  read-route_event event_delete k r s = rw (read-delete, route_key_eq)
  read-route_event event_add k r s = rw (route_ok, read-store, route_key_eq)
  read-route_event event_update k r s = rw (route_ok, read-store, route_key_eq)

  read-upstream_event :
      (ev_type : EventType) (k : String) (u : Upstream) (s : S)
      → u.nodes ≢ []
      → read (upstream_key k) (run (upstream_event ev_type u) s)
        ≡ (if u.id == k then left_by ev_type encode_upstream u else read (upstream_key k) s)
  unfolding store_loop dispatch upstream_event marshal_object
  read-upstream_event event_delete k u s h = rw (read-delete, upstream_key_eq)
  read-upstream_event event_add k u s h = ground (
    arith,
    upstream_ok u,
    read-store (upstream_key u.id) (upstream_key k) (encode_upstream u) s,
    upstream_key_eq u.id k,
  )
  read-upstream_event event_update k u s h = ground (
    arith,
    upstream_ok u,
    read-store (upstream_key u.id) (upstream_key k) (encode_upstream u) s,
    upstream_key_eq u.id k,
  )

  read-upstream_event_other :
      (ev_type : EventType) (k : String) (u : Upstream) (s : S)
      → (u.id == k) ≡ false
      → read (upstream_key k) (run (upstream_event ev_type u) s) ≡ read (upstream_key k) s
  unfolding store_loop dispatch upstream_event marshal_object
  read-upstream_event_other event_delete k u s h = rw (read-delete, upstream_key_eq, h)
  read-upstream_event_other event_add k u s h = ground (
    arith,
    upstream_ok u,
    read-store (upstream_key u.id) (upstream_key k) (encode_upstream u) s,
    upstream_key_eq u.id k,
  )
  read-upstream_event_other event_update k u s h = ground (
    arith,
    upstream_ok u,
    read-store (upstream_key u.id) (upstream_key k) (encode_upstream u) s,
    upstream_key_eq u.id k,
  )

  -- Events of one kind of resource leave the keys of the other kind alone.
  route_key-upstream_event :
      (ev_type : EventType) (k : String) (u : Upstream) (s : S)
      → read (route_key k) (run (upstream_event ev_type u) s) ≡ read (route_key k) s
  unfolding store_loop dispatch upstream_event marshal_object
  route_key-upstream_event event_delete k u s = rw (read-delete, upstream-ne-route)
  route_key-upstream_event event_add k u s = ground (
    arith,
    upstream_ok u,
    read-store (upstream_key u.id) (route_key k) (encode_upstream u) s,
    upstream-ne-route u.id k,
  )
  route_key-upstream_event event_update k u s = ground (
    arith,
    upstream_ok u,
    read-store (upstream_key u.id) (route_key k) (encode_upstream u) s,
    upstream-ne-route u.id k,
  )

  upstream_key-route_event :
      (ev_type : EventType) (k : String) (r : Route) (s : S)
      → read (upstream_key k) (run (route_event ev_type r) s) ≡ read (upstream_key k) s
  unfolding store_loop dispatch route_event marshal_object
  upstream_key-route_event event_delete k r s = rw (read-delete, route-ne-upstream)
  upstream_key-route_event event_add k r s = rw (route_ok, read-store, route-ne-upstream)
  upstream_key-route_event event_update k r s = rw (route_ok, read-store, route-ne-upstream)

  pub read-events_route :
      (ev_type : EventType) (m : Manifest) (k : String) (s : S)
      → read (route_key k) (run (events m ev_type) s)
        ≡ value_or
            (read (route_key k) s)
            (left_by ev_type encode_route)
            (latest (λ r. r.id) k m.routes)
  unfolding events
  read-events_route ev_type m k s = rw store_loop-append (
      store_loop-untouched storage marshal (upstream_event ev_type) (read (route_key k))
        (λ u t. route_key-upstream_event ev_type k u t) m.upstreams
        (run (events_of (route_event ev_type) m.routes) s)
      ∙ store_loop-events_of storage marshal (λ r. r.id) (route_event ev_type) k
          (read (route_key k)) (left_by ev_type encode_route) (λ r. Unit {0})
          (λ r t h. rw (read-route_event, h)) (λ r t h g. rw (read-route_event, h)) m.routes s
          (λ r h. tt))

  pub read-events_upstream :
      (ev_type : EventType) (m : Manifest) (k : String) (s : S)
      → ((u : Upstream) → latest (λ u. u.id) k m.upstreams ≡ some u → u.nodes ≢ [])
      → read (upstream_key k) (run (events m ev_type) s)
        ≡ value_or
            (read (upstream_key k) s)
            (left_by ev_type encode_upstream)
            (latest (λ u. u.id) k m.upstreams)
  unfolding events
  read-events_upstream ev_type m k s good = rw store_loop-append (
      store_loop-events_of storage marshal (λ u. u.id) (upstream_event ev_type) k
        (read (upstream_key k)) (left_by ev_type encode_upstream) (λ u. u.nodes ≢ [])
        (λ u t h. read-upstream_event_other ev_type k u t h)
        (λ u t h g. rw (read-upstream_event ev_type k u t g, h)) m.upstreams
        (run (events_of (route_event ev_type) m.routes) s) good
      ∙ ap (λ v. value_or v (left_by ev_type encode_upstream) (latest (λ u. u.id) k m.upstreams))
          (store_loop-untouched storage marshal (route_event ev_type) (read (upstream_key k))
            (λ r t. upstream_key-route_event ev_type k r t) m.routes s))
