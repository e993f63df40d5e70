-- ===== src/Manifest.antt =====
-- pkg/amesh/util/manifest.go with the events of pkg/amesh/types/types.go, and
-- generateIncrementalEvents of pkg/amesh/provisioner/xds.go: two manifests make a list of events.
pub mod Generate
use Prim.Native.String.{◌++◌ as ◌+++◌}
use amesh.Prelude.{
  ℕ, zero, ◌+◌, ℤ, pos, String, Bool, true, false, List, [], ◌∷◌, ◌++◌, Option, none, some, length,
  eqb, if◌then◌else◌,
}
use amesh.Apisix.Route.{Route}
use amesh.Apisix.Upstream.{Upstream}
use amesh.Apisix.Compare.{Changes, compare_routes, compare_upstreams}

-- json.Marshal at the two types of resources
pub record Marshal : Type 0 where
  pub route : Route → Option String
  pub upstream : Upstream → Option String

pub data EventType : Type 0 where
  event_add event_update event_delete : EventType

-- The dynamic types of `Object` and `Tombstone`.
pub data Resource : Type 0 where
  route : Route → Resource
  upstream : Upstream → Resource

pub record Event : Type 0 where
  pub type : EventType
  pub key : String
  pub object : Option Resource
  pub tombstone : Option Resource
  pub revision : ℤ

pub record Manifest : Type 0 where
  pub routes : List Route
  pub upstreams : List Upstream

abbrev pub empty_manifest : Manifest
empty_manifest = record { routes = []; upstreams = [] }

pub record Diff : Type 0 where
  pub added : Manifest
  pub deleted : Manifest
  pub updated : Manifest

unfoldable pub diff_from : Marshal → Manifest → Manifest → Diff
diff_from marshal m m2 =
    let r = compare_routes marshal.route m.routes m2.routes in
    let u = compare_upstreams marshal.upstream m.upstreams m2.upstreams in
    record {
      added = record { routes = r.added; upstreams = u.added };
      deleted = record { routes = r.deleted; upstreams = u.deleted };
      updated = record { routes = r.updated; upstreams = u.updated };
    }

unfoldable pub size : Manifest → ℕ
size m = length m.upstreams + length m.routes

abbrev pub route_key : String → String
route_key id = "/routes/" +++ id

abbrev pub upstream_key : String → String
upstream_key id = "/upstreams/" +++ id

abbrev delete_event : String → Resource → Event
delete_event key r = record {
  type = event_delete;
  key = key;
  object = none;
  tombstone = some r;
  revision = pos 0;
}

abbrev store_event : EventType → String → Resource → Event
store_event ev_type key r = record {
  type = ev_type;
  key = key;
  object = some r;
  tombstone = none;
  revision = pos 0;
}

-- one round of the loop over m.Routes
unfoldable pub route_event : EventType → Route → List Event
route_event event_delete r = delete_event (route_key r.id) (route r) ∷ []
route_event event_add r = store_event event_add (route_key r.id) (route r) ∷ []
route_event event_update r = store_event event_update (route_key r.id) (route r) ∷ []

-- the branch of an add or update event: an upstream without nodes is passed over
unfoldable pub serve_event : EventType → Upstream → List Event
serve_event ev_type u =
    if eqb (length u.nodes) 0 then [] else store_event ev_type (upstream_key u.id) (upstream u) ∷ []

-- one round of the loop over m.Upstreams
unfoldable pub upstream_event : EventType → Upstream → List Event
unfolding serve_event
upstream_event event_delete u = delete_event (upstream_key u.id) (upstream u) ∷ []
upstream_event event_add u = serve_event event_add u
upstream_event event_update u = serve_event event_update u

-- a loop that appends the events of each round
unfoldable pub events_of {ℓ} : {A : Type ℓ} → (A → List Event) → List A → List Event
events_of event [] = []
events_of event (x ∷ xs) = event x ++ events_of event xs

unfoldable pub events : Manifest → EventType → List Event
events m ev_type =
    events_of (route_event ev_type) m.routes ++ events_of (upstream_event ev_type) m.upstreams

-- A nil pointer to a manifest has no resources and makes no events.
abbrev size_of : Option Manifest → ℕ
size_of none = 0
size_of (some m) = size m

abbrev events_or_none : Option Manifest → EventType → List Event
events_or_none none ev_type = []
events_or_none (some m) ev_type = events m ev_type

-- the variables added, deleted and updated, by which of the manifests is nil
unfoldable pub changes_between :
    Marshal
    → Option Manifest
    → Option Manifest
    → Option Manifest × Option Manifest × Option Manifest
changes_between marshal new none = (new, none, none)
changes_between marshal none (some old) = (none, some old, none)
changes_between marshal (some new) (some old) =
    let d = diff_from marshal old new in (some d.added, some d.deleted, some d.updated)

unfoldable pub generate_incremental_events :
    Marshal → Option Manifest → Option Manifest → List Event
unfolding changes_between
generate_incremental_events marshal new old =
    let (added, deleted, updated) = changes_between marshal new old in
    if eqb (size_of added + size_of deleted + size_of updated) 0
    then []
    else (events_or_none added event_add
        ++ (events_or_none deleted event_delete ++ events_or_none updated event_update))
