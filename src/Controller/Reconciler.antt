-- ===== src/Controller/Reconciler.antt =====
-- controller/controllers/amesh/ameshpluginconfig_controller.go: the reconciler of the plugin configs.
-- What it reads of the cluster is a parameter, and what it tells others is recorded call by call.
use Prim.Native.String.{◌++◌ as ◌+++◌}
use amesh.Prelude.{
  ◌≡◌, refl, ◌⊎◌, inl, inr, String, Bool, true, false, not, ◌&&◌, List, [], ◌∷◌, ◌++◌, Option, none,
  some, Map, length, leb, ltb, map, Result, if◌then◌else◌,
}
use amesh.Prelude.Text.{text_le}
use amesh.StringSet.{StringSet, add}
use amesh.Controller.{AmeshPluginConfigPlugin, labels_equal}
use amesh.Controller.Selectors.{Condition, AmeshPluginConfigResource, Pod}

-- controller/pkg/types/types.go
pub record PodPluginConfig : Type 0 where
  pub name : String
  pub plugins : List AmeshPluginConfigPlugin
  pub version : String

pub record UpdatePodPluginConfigEvent : Type 0 where
  pub namespace : String
  pub pods : StringSet

-- The state of AmeshPluginConfigReconciler, with the calls that it made: `sent` those of
-- NotifyPodChange and `statuses` those of UpdateStatus.
pub record Reconciler (Selector Receiver : Type 0) : Type 0 where
  pub selector_cache : Map Selector
  pub plugins_cache : Map PodPluginConfig
  pub subs : List Receiver
  pub sent : List (Receiver × UpdatePodPluginConfigEvent)
  pub statuses : List AmeshPluginConfigResource

-- the state that Reconcile leaves, and how it ends
pub record Reconciled (Selector Receiver : Type 0) : Type 0 where
  pub state : Reconciler Selector Receiver
  pub end : Result (Unit {0})

-- ctrl.Request
pub record Request : Type 0 where
  pub namespace : String
  pub name : String

-- NamespacedName.String()
abbrev pub request_key : Request → String
request_key req = req.namespace +++ ("/" +++ req.name)

-- the answer of Client.Get
pub data Read : Type 0 where
  found : AmeshPluginConfigResource → Read
  not_found : Read
  failed : String → Read

pub Read-cases :
    (read : Read)
    → ((resource : AmeshPluginConfigResource) × (read ≡ found resource))
      ⊎ (read ≡ not_found)
      ⊎ ((message : String) × (read ≡ failed message))
Read-cases (found resource) = inl (resource, refl)
Read-cases not_found = inr (inl refl)
Read-cases (failed message) = inr (inr (message, refl))

-- What the code reads of Kubernetes: the client, the lister of the pods with the names that a
-- selector takes, and the two functions of the package meta.
pub record Cluster (Selector : Type 0) : Type 0 where
  pub get : Request → Read
  pub list_pods : String → Selector → Result (List String)
  pub find_status_condition : List Condition → String → Option Condition
  pub set_status_condition : List Condition → Condition → List Condition

-- controller/utils/status.go
unfoldable pub verify_generation : Option Condition → Condition → Bool
verify_generation none new_condition = true
verify_generation (some existing) new_condition =
    if ltb new_condition.observed_generation existing.observed_generation then false else true

module _ {Selector Receiver : Type 0} where
  -- the state that NewAmeshPluginConfigController makes
  unfoldable pub new_reconciler : Reconciler Selector Receiver
  new_reconciler = record {
    selector_cache = [];
    plugins_cache = [];
    subs = [];
    sent = [];
    statuses = [];
  }

  unfoldable pub add_pod_change_listener :
      Receiver → Reconciler Selector Receiver → Reconciler Selector Receiver
  add_pod_change_listener receiver r = record r { subs = r.subs ++ receiver ∷ [] }

  unfoldable pub send_plugins_configs :
      String → StringSet → Reconciler Selector Receiver → Reconciler Selector Receiver
  send_plugins_configs ns names r = if leb (length names) 0 then r else record r {
    sent = r.sent ++ map (λ sub. (sub, record { namespace = ns; pods = names })) r.subs;
  }

  -- the handler of an added pod
  unfoldable pub pod_added : Pod → Reconciler Selector Receiver → Reconciler Selector Receiver
  unfolding send_plugins_configs
  pod_added pod r = send_plugins_configs pod.namespace (add pod.name []) r

  -- the handler of an updated pod
  unfoldable pub pod_updated :
      Pod → Pod → Reconciler Selector Receiver → Reconciler Selector Receiver
  unfolding send_plugins_configs labels_equal
  pod_updated old pod r =
      let sent = send_plugins_configs pod.namespace (add pod.name []) r in
      if not (text_le pod.resource_version old.resource_version)
        && not (labels_equal old.labels pod.labels)
      then sent
      else r

  -- recordStatus(instance, ResourceReconciled, nil, ConditionTrue)
  unfoldable pub record_status :
      Cluster Selector
      → AmeshPluginConfigResource
      → Reconciler Selector Receiver
      → Reconciler Selector Receiver
  unfolding verify_generation
  record_status cluster config r =
      let condition : Condition = record {
        type = "Sync";
        status = "True";
        observed_generation = config.generation;
        reason = "Reconciled";
        message = "Sync Success";
      } in
      let updated = record config {
        conditions = cluster.set_status_condition config.conditions condition;
      } in
      if verify_generation (cluster.find_status_condition config.conditions condition.type)
        condition
      then record r { statuses = r.statuses ++ updated ∷ [] }
      else r
