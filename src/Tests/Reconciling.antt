-- ===== src/Tests/Reconciling.antt =====
-- Tests of the plugin config controller.
use amesh.Prelude.{
  String, Bool, true, false, ◌≡◌, ◌≢◌, map, refl, ◌⊎◌, [], ◌∷◌, ◌++◌, Option, none, some, Map,
  lookup, is_some, Result, ok, err, if◌then◌else◌,
}
use amesh.StringSet.{StringSet}
use amesh.StringSet.Sorted.{has}
use amesh.Controller.{diff_pods, plugins_config_equal}
use amesh.Controller.Selectors.{
  LabelSelector, AmeshPluginConfigResource, SelectorApi, selector_of, match_configs,
}
use amesh.Controller.Reconciler.{
  Reconciler, Request, request_key, found, not_found, Cluster, new_reconciler,
  add_pod_change_listener,
}
use amesh.Controller.Reconcile.{is_handled, reconcile}
use amesh.Controller.Forward.{IsKept, reconcile-IsKept}
use amesh.Controller.Notify.{IsFresh, reconcile-forgotten}
use amesh.Controller.Notified.{reconcile-notifies}
use amesh.Controller.Transparent.{IsTrue, selected_keys, match_configs-eq-selected_keys}
use amesh.Controller.Runs.{Reach, start, later, request, listener, IsWellFormed, Reach-IsWellFormed}

abbrev takes : LabelSelector → Map String → Bool
takes selector labels = elim selector.match_labels [
  | [] ↦ true
  | label ∷ _ ↦ has label.1 (elim (lookup label.0 labels) [ none ↦ [] | some value ↦ value ∷ [] ])
]

abbrev pub api : SelectorApi LabelSelector
api = record {
  everything = record { match_labels = []; match_expressions = [] };
  as_selector = λ selector. ok selector;
  matches = takes;
  is_nil = λ selector. false;
}

abbrev pub web : LabelSelector
web = record { match_labels = ("app", "web") ∷ []; match_expressions = [] }

abbrev pub resource : AmeshPluginConfigResource
resource = record {
  namespace = "shop";
  name = "limits";
  resource_version = "100";
  generation = 1;
  deletion_timestamp = none;
  plugins = record { type = "pre-req"; name = "limit-req"; config = "{}" } ∷ [];
  selector = some web;
  conditions = [];
}

abbrev pub req : Request
req = record { namespace = "shop"; name = "limits" }

-- The pods can be listed or not.
abbrev pub cluster : Bool → Cluster LabelSelector
cluster up = record {
  get = λ _. found resource;
  list_pods = λ _ selector.
      if up
      then ok (elim selector.match_labels [ [] ↦ "web-0" ∷ "db-0" ∷ [] | _ ∷ _ ↦ "web-0" ∷ [] ])
      else err "not synced";
  find_status_condition = λ _ _. none;
  set_status_condition = λ conditions condition. conditions ++ condition ∷ [];
}

abbrev empty_cluster : Cluster LabelSelector
empty_cluster = record (cluster true) { get = λ _. not_found }

-- One agent's server listens, and an earlier version of the config is cached.
abbrev pub before : Reconciler LabelSelector String
before = record {
  selector_cache = [];
  plugins_cache =
      ("shop/limits", record { name = "shop/limits"; plugins = []; version = "099" }) ∷ [];
  subs = "grpc" ∷ [];
  sent = [];
  statuses = [];
}

pub fresh : IsFresh api (cluster true) req resource web before
unfolding lookup selector_of
fresh = (refl, refl, refl, refl)

reconcile-IsKept_example :
    IsKept
      (record { name = "shop/limits"; plugins = []; version = "099" })
      (lookup "shop/limits" (reconcile api empty_cluster req before).state.plugins_cache)
    ⊎ (empty_cluster.get req ≡ not_found)
      × (request_key req ≡ "shop/limits")
      × (lookup "shop/limits" (reconcile api empty_cluster req before).state.plugins_cache ≡ none)
unfolding lookup
reconcile-IsKept_example =
    reconcile-IsKept api empty_cluster req before "shop/limits"
      (record { name = "shop/limits"; plugins = []; version = "099" }) refl

reconcile-forgotten_example :
    let done = reconcile api (cluster false) req before in
    (done.end ≡ err "not synced")
    × (done.state.sent ≡ before.sent)
    × ((after : Cluster LabelSelector)
        → after.get req ≡ found resource
        → reconcile api after req done.state ≡ record { state = done.state; end = ok tt })
unfolding lookup diff_pods selector_of
reconcile-forgotten_example =
    reconcile-forgotten api (cluster false) req resource web before (refl, refl, refl, refl) refl

reconcile-notifies_example :
    let done = reconcile api (cluster true) req before in
    (pods : StringSet) × ((k : String)
      → is_some (lookup k pods)
        ≡ (if has k ("web-0" ∷ []) then true else has k ("web-0" ∷ "db-0" ∷ [])))
    × (done.end ≡ ok tt)
    × (plugins_config_equal [] resource.plugins ≡ false
        → pods ≢ []
        → done.state.sent
          ≡ before.sent
            ++ map (λ sub. (sub, record { namespace = req.namespace; pods = pods })) before.subs)
    × (pods ≡ [] → done.state.sent ≡ before.sent)
    × (plugins_config_equal [] resource.plugins ≡ true → done.state.sent ≡ before.sent)
unfolding lookup
reconcile-notifies_example =
    reconcile-notifies api (cluster true) req resource web before ("web-0" ∷ "db-0" ∷ [])
      ("web-0" ∷ []) fresh refl refl refl

-- The text "10" is below "9": the later version of a config is taken for handled.
handled_test :
    is_handled
      (some (record { name = "shop/limits"; plugins = []; version = "9" }))
      (record resource { resource_version = "10" })
    ≡ true
handled_test = refl

abbrev key_of : AmeshPluginConfigResource → Result String
key_of config = ok config.name

abbrev labels : Map String
labels = ("app", "web") ∷ []

abbrev spec : String → Option LabelSelector
spec key = some web

match_configs-eq-selected_keys_example :
    let out = match_configs api key_of labels (resource ∷ []) [] [] in
    (out.keys ≡ selected_keys api key_of labels (resource ∷ []) []) × IsTrue api spec out.cache
unfolding lookup
match_configs-eq-selected_keys_example =
    match_configs-eq-selected_keys api key_of labels spec (resource ∷ []) [] []
      ((λ key e. refl), tt) (λ k meta selector e s. absurd (cc e))

reached :
    Reach {Receiver = String} api
      (reconcile api (cluster true) req (add_pod_change_listener "grpc" new_reconciler)).state
reached = later (later start (listener "grpc")) (request (cluster true) req)

Reach-IsWellFormed_example :
    IsWellFormed {Receiver = String} api
      (reconcile api (cluster true) req (add_pod_change_listener "grpc" new_reconciler)).state
Reach-IsWellFormed_example = Reach-IsWellFormed api reached
