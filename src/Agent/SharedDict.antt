-- ===== src/Agent/SharedDict.antt =====
-- pkg/apisix/storage: SharedDictStorage over a zone of nginx (shdict.go), and the one without a zone
-- that the sidecar build has (noop.go). The C function ngx_lua_ffi_shdict_store is a parameter: its
-- operation, key, type of value and value, where none is the null pointer.
use amesh.Prelude.{
  ℕ, String, ◌≡◌, refl, List, [], ◌∷◌, Option, none, some, ◌==◌, if◌then◌else◌, inl, inr,
  Option-cases,
}
use amesh.Apisix.Route.{Route}
use amesh.Apisix.Upstream.{Upstream}
use amesh.Manifest.{
  Marshal, Manifest, Event, EventType, event_add, event_update, event_delete,
  generate_incremental_events,
}
use amesh.Agent.{
  Storage, Contract, marshal_object, store_object, dispatch, store_loop, store_events,
}
use amesh.Agent.Loop.{data_storage-store_events}
use amesh.Agent.Sync.{IsServed, Mirrors, store_events-Mirrors}

-- the methods of the sidecar build do nothing
unfoldable pub noop_storage : {S : Type 0} → Storage S
noop_storage = record { store = λ key value s. s; delete = λ key s. s }

module _ {Z : Type 0} (shdict_store : ℕ → String → ℕ → Option String → Z → Z) where
  -- SharedDictStorage: the pointer to the zone, nil as none
  unfoldable pub shared_dict_store : String → String → Option Z → Option Z
  shared_dict_store key value none = none
  shared_dict_store key value (some zone) = some (shdict_store 4 key 4 (some value) zone)

  unfoldable pub shared_dict_delete : String → Option Z → Option Z
  shared_dict_delete key none = none
  shared_dict_delete key (some zone) = some (shdict_store 4 key 4 none zone)

  unfoldable pub shared_dict_storage : Storage (Option Z)
  unfolding shared_dict_store shared_dict_delete
  shared_dict_storage = record { store = shared_dict_store; delete = shared_dict_delete }

  -- the same calls on a zone that is there
  abbrev pub zone_storage : Storage Z
  zone_storage = record {
    store = λ key value zone. shdict_store 4 key 4 (some value) zone;
    delete = λ key zone. shdict_store 4 key 4 none zone;
  }

  store_object-zone :
      (marshal : Marshal) (event : Event) (zone : Z)
      → store_object shared_dict_storage marshal event (some zone)
        ≡ some (store_object zone_storage marshal event zone)
  unfolding store_object shared_dict_storage
  store_object-zone marshal event zone = elim (Option-cases (marshal_object marshal event.object)) [
    | inl e ↦ rw (e, store_object) refl
    | inr (data_str, e) ↦ rw (e, store_object) refl
  ]

  dispatch-zone :
      (marshal : Marshal) (type : EventType) (event : Event) (zone : Z)
      → dispatch shared_dict_storage marshal type event (some zone)
        ≡ some (dispatch zone_storage marshal type event zone)
  unfolding dispatch shared_dict_storage
  dispatch-zone marshal event_delete event zone = refl
  dispatch-zone marshal event_add event zone = store_object-zone marshal event zone
  dispatch-zone marshal event_update event zone = store_object-zone marshal event zone

  store_loop-zone :
      (marshal : Marshal) (events : List Event) (zone : Z)
      → store_loop shared_dict_storage marshal events (some zone)
        ≡ some (store_loop zone_storage marshal events zone)
  unfolding store_loop
  store_loop-zone marshal [] zone = refl
  store_loop-zone marshal (event ∷ events) zone =
      rw (dispatch-zone marshal event.type event zone)
        (store_loop-zone marshal events (dispatch zone_storage marshal event.type event zone))

  -- What is documented of a zone that has room: a string is found under its key after it was
  -- stored, a null value removes the key, and the other keys stay.
  module _ (get : String → Z → Option String)
      (get-store : (k j v : String) (zone : Z)
        → get j (shdict_store 4 k 4 (some v) zone) ≡ (if k == j then some v else get j zone))
      (get-null : (k j : String) (zone : Z)
        → get j (shdict_store 4 k 4 none zone) ≡ (if k == j then none else get j zone)) where
    abbrev pub zone_contract : Contract Z zone_storage
    zone_contract = record { read = get; read-store = get-store; read-delete = get-null }

    -- If the zone of the data has room for what is stored, all resources can be encoded, the
    -- upstreams of both manifests have nodes and the zone mirrors the old manifest, then after the
    -- incremental events are stored through SharedDictStorage the zone mirrors the new manifest.
    pub shared_dict-Mirrors :
        (marshal : Marshal) (encode_route : Route → String) (encode_upstream : Upstream → String)
        (route_ok : (r : Route) → marshal.route r ≡ some (encode_route r))
        (upstream_ok : (u : Upstream) → marshal.upstream u ≡ some (encode_upstream u))
        (old new : Manifest) (timestamp : String) (zone version_zone : Z)
        → IsServed old.upstreams
        → IsServed new.upstreams
        → Mirrors zone_storage zone_contract marshal encode_route encode_upstream route_ok
            upstream_ok old zone
        → (after : Z) × ((store_events shared_dict_storage marshal timestamp
              (generate_incremental_events marshal (some new) (some old))
              (record {
                data_storage = some zone;
                version_storage = some version_zone;
              })).data_storage
            ≡ some after)
          × Mirrors zone_storage zone_contract marshal encode_route encode_upstream route_ok
              upstream_ok new after
    shared_dict-Mirrors marshal encode_route encode_upstream route_ok upstream_ok old new timestamp
          zone version_zone old_served new_served mirrors =
        let events = generate_incremental_events marshal (some new) (some old) in
        (
          store_loop zone_storage marshal events zone,
          rw data_storage-store_events (store_loop-zone marshal events zone),
          rw
              (← data_storage-store_events zone_storage marshal timestamp events
                (record { data_storage = zone; version_storage = version_zone }))
              (store_events-Mirrors zone_storage zone_contract marshal encode_route encode_upstream
                route_ok upstream_ok old new timestamp
                (record { data_storage = zone; version_storage = version_zone }) old_served
                new_served mirrors),
        )
