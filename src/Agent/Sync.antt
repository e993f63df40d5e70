-- ===== src/Agent/Sync.antt =====
-- The data storage mirrors the manifest: generateIncrementalEvents of pkg/amesh/provisioner/xds.go
-- followed by storeEvents of pkg/amesh/agent.go take a storage that holds the old resources to one
-- that holds the new ones.
use amesh.Prelude.{String, ◌≡◌, ◌≢◌, ap, ◌∙◌, List, [], Option, none, some, arith}
use amesh.Apisix.Route.{Route}
use amesh.Apisix.Upstream.{Upstream}
use amesh.Apisix.Compare.{Changes, compare_resources, compare_routes, compare_upstreams}
use amesh.Apisix.Compare.Latest.{latest}
use amesh.Apisix.Compare.Exact.{IsExact, compare_resources-IsExact}
use amesh.Manifest.{
  Marshal, Manifest, event_add, event_update, event_delete, route_key, upstream_key, diff_from,
  generate_incremental_events,
}
use amesh.Manifest.Generate.{generate_incremental_events_lem}
use amesh.Agent.{Storage, Contract, Agent, store_loop, store_events}
use amesh.Agent.Loop.{store_loop-append, data_storage-store_events, value_or}
use amesh.Agent.Patch.{left_by, target, patch, patch-IsExact}
use amesh.Agent.Effects.{read-events_route, read-events_upstream}

-- Every upstream that a reader is to find has nodes.
abbrev pub IsServed : List Upstream → Type 0
IsServed us = (k : String) (u : Upstream) → latest (λ u. u.id) k us ≡ some u → u.nodes ≢ []

module _ {S : Type 0} (storage : Storage S) (contract : Contract S storage) (marshal : Marshal)
    (encode_route : Route → String) (encode_upstream : Upstream → String)
    (route_ok : (r : Route) → marshal.route r ≡ some (encode_route r))
    (upstream_ok : (u : Upstream) → marshal.upstream u ≡ some (encode_upstream u)) where
  open contract use {read}

  -- Under the key of each route id the storage has the encoding of the last route with that id, or
  -- nothing.
  abbrev pub MirrorsRoutes : List Route → S → Type 0
  MirrorsRoutes routes s =
      (k : String)
      → read (route_key k) s
        ≡ value_or none (left_by event_add encode_route) (latest (λ r. r.id) k routes)

  -- The storage holds, under the key of each id, exactly the encoding of the manifest's last
  -- resource with that id.
  pub record Mirrors (m : Manifest) (s : S) : Type 0 where
    pub routes : MirrorsRoutes m.routes s
    pub upstreams :
        (k : String)
        → read (upstream_key k) s
          ≡ value_or none (left_by event_add encode_upstream) (latest (λ u. u.id) k m.upstreams)

  module _ (old new : Manifest) where
    abbrev pub after : S → S
    after s =
        store_loop storage marshal (generate_incremental_events marshal (some new) (some old)) s

    route_changes : Changes Route
    route_changes = compare_resources (λ r. r.id) marshal.route old.routes new.routes

    upstream_changes : Changes Upstream
    upstream_changes = compare_resources (λ u. u.id) marshal.upstream old.upstreams new.upstreams

    routes_IsExact : IsExact (λ r. r.id) marshal.route old.routes new.routes route_changes
    unfolding route_changes
    routes_IsExact = compare_resources-IsExact (λ r. r.id) marshal.route old.routes new.routes

    upstreams_IsExact :
        IsExact (λ u. u.id) marshal.upstream old.upstreams new.upstreams upstream_changes
    unfolding upstream_changes
    upstreams_IsExact =
        compare_resources-IsExact (λ u. u.id) marshal.upstream old.upstreams new.upstreams

    read-after_route :
        (k : String) (s : S)
        → read (route_key k) (after s)
          ≡ patch
              (λ r. r.id)
              marshal.route
              encode_route
              route_ok
              k
              route_changes
              (read (route_key k) s)
    unfolding diff_from compare_routes route_changes
    read-after_route k s =
        let effect =
          read-events_route storage contract marshal encode_route encode_upstream route_ok
            upstream_ok in
        rw (
          generate_incremental_events_lem, store_loop-append, store_loop-append, effect, effect,
          effect,
        )

    read-after_upstream :
        (k : String) (s : S)
        → IsServed old.upstreams
        → IsServed new.upstreams
        → read (upstream_key k) (after s)
          ≡ patch
              (λ u. u.id)
              marshal.upstream
              encode_upstream
              upstream_ok
              k
              upstream_changes
              (read (upstream_key k) s)
    unfolding diff_from compare_upstreams upstream_changes
    read-after_upstream k s old_served new_served =
        let effect =
          read-events_upstream storage contract marshal encode_route encode_upstream route_ok
            upstream_ok in
        rw (generate_incremental_events_lem, store_loop-append, store_loop-append)
          (effect event_update (diff_from marshal old new).updated k _
              (λ u h. new_served k u (exact.updated_new k u h))
            ∙ ap
                (λ v.
                  value_or v (left_by event_update encode_upstream)
                    (latest (λ u. u.id) k upstream_changes.updated))
                (effect event_delete (diff_from marshal old new).deleted k _
                    (λ u h. old_served k u (ground (arith, exact.deleted k)))
                  ∙ ap
                      (λ v.
                        value_or v (left_by event_delete encode_upstream)
                          (latest (λ u. u.id) k upstream_changes.deleted))
                      (effect event_add (diff_from marshal old new).added k s
                        (λ u h. new_served k u (ground (arith, exact.added k))))))
      where
        exact : IsExact (λ u. u.id) marshal.upstream old.upstreams new.upstreams upstream_changes
        exact = upstreams_IsExact

    mirrored_key :
        {A : Type 0} (key : A → String) (encode : A → String) (xs : List A) (k : String)
        (v : Option String)
        → v ≡ value_or none (left_by event_add encode) (latest key k xs)
        → (x : A) → latest key k xs ≡ some x
        → v ≡ some (encode x)
    mirrored_key key encode xs k v h x e = ground arith

    target-mirrored :
        {A : Type 0} (key : A → String) (marshal_one : A → Option String) (encode : A → String)
        (ok : (x : A) → marshal_one x ≡ some (encode x)) (xs ys : List A) (k : String)
        (v : Option String)
        → v ≡ value_or none (left_by event_add encode) (latest key k xs)
        → target key marshal_one encode ok k xs ys v
          ≡ value_or none (left_by event_add encode) (latest key k ys)
    target-mirrored key marshal_one encode ok xs ys k v h = ground arith

    -- What is read under the key of an upstream after the events, if before them the last old
    -- upstream with the id is read there.
    pub read-after :
        (k : String) (s : S)
        → IsServed old.upstreams
        → IsServed new.upstreams
        → ((x : Upstream)
            → latest (λ u. u.id) k old.upstreams ≡ some x
            → read (upstream_key k) s ≡ some (encode_upstream x))
        → read (upstream_key k) (after s)
          ≡ target
              (λ u. u.id)
              marshal.upstream
              encode_upstream
              upstream_ok
              k
              old.upstreams
              new.upstreams
              (read (upstream_key k) s)
    read-after k s old_served new_served synced =
        read-after_upstream k s old_served new_served
        ∙ patch-IsExact (λ u. u.id) marshal.upstream encode_upstream upstream_ok old.upstreams
            new.upstreams upstream_changes k (read (upstream_key k) s) upstreams_IsExact synced

    pub store_events-MirrorsRoutes :
        (timestamp : String) (g : Agent S)
        → MirrorsRoutes old.routes g.data_storage
        → MirrorsRoutes new.routes
            (store_events storage marshal timestamp
              (generate_incremental_events marshal (some new) (some old))
              g).data_storage
    store_events-MirrorsRoutes timestamp g mirrors k = rw data_storage-store_events (
        read-after_route k g.data_storage
        ∙ patch-IsExact (λ r. r.id) marshal.route encode_route route_ok old.routes new.routes
            route_changes k (read (route_key k) g.data_storage) routes_IsExact
            (mirrored_key (λ r. r.id) encode_route old.routes k _ (mirrors k))
        ∙ target-mirrored (λ r. r.id) marshal.route encode_route route_ok old.routes new.routes k _
            (mirrors k))

    -- If the storage mirrors the old manifest, all resources can be encoded and the upstreams of
    -- both manifests have nodes, then after storing the incremental events it mirrors the new one:
    -- no route or upstream is missed, stale or left over.
    pub store_events-Mirrors :
        (timestamp : String) (g : Agent S)
        → IsServed old.upstreams
        → IsServed new.upstreams
        → Mirrors old g.data_storage
        → Mirrors new
            (store_events storage marshal timestamp
              (generate_incremental_events marshal (some new) (some old))
              g).data_storage
    store_events-Mirrors timestamp g old_served new_served mirrors = record {
      routes = store_events-MirrorsRoutes timestamp g mirrors.routes;
      upstreams = λ k. rw data_storage-store_events (
          read-after k g.data_storage old_served new_served
            (mirrored_key (λ u. u.id) encode_upstream old.upstreams k _ (mirrors.upstreams k))
          ∙ target-mirrored (λ u. u.id) marshal.upstream encode_upstream upstream_ok old.upstreams
              new.upstreams k _ (mirrors.upstreams k));
    }
