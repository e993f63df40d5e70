-- ===== src/Agent.antt =====
-- storeEvents of pkg/amesh/agent.go over the interface Storage of pkg/apisix/storage.go. The
-- storage is a parameter: a type of states with the two methods, and what a reader sees.
pub mod Keys
pub mod Loop
pub mod Patch
pub mod Effects
pub mod Sync
pub mod Server
pub mod Metrics
pub mod Create
pub mod SharedDict
use amesh.Prelude.{
  ℕ, String, Bool, true, false, ◌≡◌, List, [], ◌∷◌, Option, none, some, ◌==◌, if◌then◌else◌,
}
use amesh.Manifest.{
  Marshal, Resource, route, upstream, Event, EventType, event_add, event_update, event_delete,
}

-- apisix.Storage
pub record Storage (S : Type 0) : Type 0 where
  pub store : String → String → S → S
  pub delete : String → S → S

-- What the methods promise to a reader of the zone.
pub record Contract (S : Type 0) (storage : Storage S) : Type 0 where
  pub read : String → S → Option String
  pub read-store :
      (k j v : String) (s : S)
      → read j (storage.store k v s) ≡ (if k == j then some v else read j s)
  pub read-delete :
      (k j : String) (s : S) → read j (storage.delete k s) ≡ (if k == j then none else read j s)

pub record Agent (S : Type 0) : Type 0 where
  pub data_storage : S
  pub version_storage : S

-- json.Marshal(event.Object); a nil object is the text null
unfoldable pub marshal_object : Marshal → Option Resource → Option String
marshal_object marshal none = some "null"
marshal_object marshal (some (route r)) = marshal.route r
marshal_object marshal (some (upstream u)) = marshal.upstream u

module _ {S : Type 0} (storage : Storage S) (marshal : Marshal) where
  -- the branch that stores an object, or logs the failure and continues
  unfoldable pub store_object : Event → S → S
  unfolding marshal_object
  store_object event s = elim (marshal_object marshal event.object) [
    | none ↦ s
    | some data_str ↦ storage.store event.key data_str s
  ]

  unfoldable pub dispatch : EventType → Event → S → S
  unfolding store_object
  dispatch event_delete event s = storage.delete event.key s
  dispatch event_add event s = store_object event s
  dispatch event_update event s = store_object event s

  -- for _, event := range events
  unfoldable pub store_loop : List Event → S → S
  store_loop [] s = s
  store_loop (event ∷ events) s = store_loop events (dispatch event.type event s)

  unfoldable pub store_events : String → List Event → Agent S → Agent S
  store_events timestamp [] g = g
  store_events timestamp (event ∷ events) g = record {
    data_storage = store_loop (event ∷ events) g.data_storage;
    version_storage = storage.store "version" timestamp g.version_storage;
  }
