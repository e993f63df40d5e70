-- ===== src/Controller/Runs.antt =====
-- The runs of the plugin config controller: the requests of Reconcile, the events of the pods, the
-- listeners and the queries of the agents, in any order, each with its own answers of the cluster.
use amesh.Prelude.{
  String, not, ◌&&◌, List, [], lookup, delete, leb, length, Bool-cases, Result, ok, err, panic, inl,
  inr, Option-cases, Result-cases,
}
use amesh.StringSet.{StringSet, add}
use amesh.Controller.{index_pods, labels_equal}
use amesh.Prelude.Text.{text_le}
use amesh.Controller.Selectors.{
  AmeshPluginConfigResource, Pod, SelectorApi, match_configs, matched_config_keys,
}
use amesh.Controller.Reconciler.{
  Reconciler, Request, request_key, Read-cases, Cluster, new_reconciler, add_pod_change_listener,
  send_plugins_configs, pod_added, pod_updated,
}
use amesh.Controller.Notices.{notify_deleted}
use amesh.Controller.Reconcile.{new_config, reconcile_deleted, reconcile}
use amesh.Controller.Configs.{Listers, configs_of_pod, get_pod_plugin_configs}
use amesh.Controller.Complete.{
  IsComplete, both-IsComplete, delete-IsComplete, grown-IsComplete, match_configs-HasKeysOf,
}
use amesh.Controller.Versions.{IsCached, kept, replaced, reconcile_found-IsCached}

module _ {Selector Receiver : Type 0} (api : SelectorApi Selector) where
  pub data Step (r : Reconciler Selector Receiver) : Reconciler Selector Receiver → Type 0 where
    request :
        (cluster : Cluster Selector) (req : Request) → Step r (reconcile api cluster req r).state
    added : (pod : Pod) → Step r (pod_added pod r)
    updated : (old pod : Pod) → Step r (pod_updated old pod r)
    listener : (receiver : Receiver) → Step r (add_pod_change_listener receiver r)
    query :
        (listers : Listers) (key : String) → Step r (get_pod_plugin_configs api listers key r).state

  pub data Reach : Reconciler Selector Receiver → Type 0 where
    start : Reach new_reconciler
    later : {r s : Reconciler Selector Receiver} → Reach r → Step r s → Reach s

  abbrev pub IsWellFormed : Reconciler Selector Receiver → Type 0
  IsWellFormed r = IsComplete r.plugins_cache r.selector_cache

  notify_deleted-IsWellFormed :
      (cluster : Cluster Selector) (req : Request) (r : Reconciler Selector Receiver)
      (pods : Result (List String))
      → IsWellFormed r
      → IsComplete r.plugins_cache (delete (request_key req) r.selector_cache)
      → IsWellFormed (notify_deleted api cluster req r pods).state
  unfolding notify_deleted send_plugins_configs
  notify_deleted-IsWellFormed cluster req r panic h d = h
  notify_deleted-IsWellFormed cluster req r (err message) h d = h
  notify_deleted-IsWellFormed cluster req r (ok pods) h d =
      elim (Bool-cases (leb (length (index_pods [] pods)) 0)) [
        | inl e ↦ rw (e, notify_deleted, send_plugins_configs) d
        | inr e ↦ rw (e, notify_deleted, send_plugins_configs) d
      ]

  reconcile_deleted-IsWellFormed :
      (cluster : Cluster Selector) (req : Request) (r : Reconciler Selector Receiver)
      → IsWellFormed r
      → IsWellFormed (reconcile_deleted api cluster req r).state
  unfolding reconcile_deleted
  reconcile_deleted-IsWellFormed cluster req r h =
      let (kept_selector, dropped) =
        delete-IsComplete r.plugins_cache r.selector_cache (request_key req) h in
      elim (Option-cases (lookup (request_key req) r.selector_cache)) [
        | inl e ↦ rw (e, reconcile_deleted) dropped
        | inr (selector, e) ↦
            rw (e, reconcile_deleted)
              (notify_deleted-IsWellFormed cluster req
                (record r { plugins_cache = delete (request_key req) r.plugins_cache })
                (cluster.list_pods req.namespace selector) kept_selector dropped)
      ]

  IsCached-IsWellFormed :
      (cluster : Cluster Selector) (req : Request) (resource : AmeshPluginConfigResource)
      (r after : Reconciler Selector Receiver)
      → IsCached api cluster req resource r after
      → IsWellFormed r
      → IsWellFormed after
  IsCached-IsWellFormed cluster req resource r after (kept e) h = rw (e.0, e.1) h
  IsCached-IsWellFormed cluster req resource r after (replaced new unhandled e) h =
      rw (e.0, e.1)
        (both-IsComplete r.plugins_cache r.selector_cache (new_config req resource) new h)

  reconcile-IsWellFormed :
      (cluster : Cluster Selector) (req : Request) (r : Reconciler Selector Receiver)
      → IsWellFormed r
      → IsWellFormed (reconcile api cluster req r).state
  unfolding reconcile
  reconcile-IsWellFormed cluster req r h = elim (Read-cases (cluster.get req)) [
    | inl (resource, e) ↦
        rw (e, reconcile)
          (IsCached-IsWellFormed cluster req resource r _
            (reconcile_found-IsCached api cluster req resource r) h)
    | inr (inl e) ↦ rw (e, reconcile) (reconcile_deleted-IsWellFormed cluster req r h)
    | inr (inr (message, e)) ↦ rw (e, reconcile) h
  ]

  configs_of_pod-IsWellFormed :
      (listers : Listers) (pod : Pod) (r : Reconciler Selector Receiver)
      → IsWellFormed r
      → IsWellFormed (configs_of_pod api listers pod r).state
  unfolding configs_of_pod matched_config_keys
  configs_of_pod-IsWellFormed listers pod r h =
      elim (Result-cases (listers.list_configs pod.namespace)) [
        | inl e ↦ rw (e, configs_of_pod, matched_config_keys) h
        | inr (inl (message, e)) ↦ rw (e, configs_of_pod, matched_config_keys) h
        | inr (inr (configs, e)) ↦
            rw (e, configs_of_pod, matched_config_keys)
              (grown-IsComplete r.plugins_cache r.selector_cache
                (match_configs api listers.key_of pod.labels configs [] r.selector_cache).cache
                (match_configs-HasKeysOf api listers.key_of pod.labels configs [] r.selector_cache)
                h)
      ]

  get_pod_plugin_configs-IsWellFormed :
      (listers : Listers) (key : String) (r : Reconciler Selector Receiver)
      → IsWellFormed r
      → IsWellFormed (get_pod_plugin_configs api listers key r).state
  unfolding get_pod_plugin_configs
  get_pod_plugin_configs-IsWellFormed listers key r h =
      elim (Result-cases (listers.split_key key)) [
        | inl e ↦ rw (e, get_pod_plugin_configs) h
        | inr (inl (message, e)) ↦ rw (e, get_pod_plugin_configs) h
        | inr (inr (parts, e)) ↦ elim (Result-cases (listers.get_pod parts.0 parts.1)) [
          | inl g ↦ rw (e, g, get_pod_plugin_configs) h
          | inr (inl (message, g)) ↦ rw (e, g, get_pod_plugin_configs) h
          | inr (inr (pod, g)) ↦
              rw (e, g, get_pod_plugin_configs) (configs_of_pod-IsWellFormed listers pod r h)
        ]
      ]

  send-IsWellFormed :
      (ns : String) (names : StringSet) (r : Reconciler Selector Receiver)
      → IsWellFormed r
      → IsWellFormed (send_plugins_configs ns names r)
  unfolding send_plugins_configs
  send-IsWellFormed ns names r h = elim (Bool-cases (leb (length names) 0)) [
    | inl e ↦ rw (e, send_plugins_configs) h
    | inr e ↦ rw (e, send_plugins_configs) h
  ]

  pod_updated-IsWellFormed :
      (old pod : Pod) (r : Reconciler Selector Receiver)
      → IsWellFormed r
      → IsWellFormed (pod_updated old pod r)
  unfolding pod_updated
  pod_updated-IsWellFormed old pod r h =
      let is_changed =
        not (text_le pod.resource_version old.resource_version)
        && not (labels_equal old.labels pod.labels) in
      elim (Bool-cases is_changed) [
        | inl e ↦ rw (e, pod_updated) (send-IsWellFormed pod.namespace (add pod.name []) r h)
        | inr e ↦ rw (e, pod_updated) h
      ]

  step-IsWellFormed :
      {r s : Reconciler Selector Receiver} → Step r s → IsWellFormed r → IsWellFormed s
  unfolding pod_added pod_updated add_pod_change_listener
  step-IsWellFormed (request cluster req) h = reconcile-IsWellFormed cluster req _ h
  step-IsWellFormed (added pod) h = send-IsWellFormed pod.namespace (add pod.name []) _ h
  step-IsWellFormed (updated old pod) h = pod_updated-IsWellFormed old pod _ h
  step-IsWellFormed (listener receiver) h = h
  step-IsWellFormed (query listers key) h = get_pod_plugin_configs-IsWellFormed listers key _ h

  -- In every state that the controller reaches, each cached config has the name of its key, and the
  -- selector of this key is cached.
  pub Reach-IsWellFormed : {r : Reconciler Selector Receiver} → Reach r → IsWellFormed r
  unfolding new_reconciler lookup
  Reach-IsWellFormed start = λ k config e. absurd (cc e)
  Reach-IsWellFormed (later run step) = step-IsWellFormed step (Reach-IsWellFormed run)
