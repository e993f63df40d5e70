-- ===== src/Controller/Versions.antt =====
-- What Reconcile of the plugin config controller keeps of the versions in its cache.
use amesh.Prelude.{
  String, Bool, false, ◌≡◌, refl, ◌∙◌, Option, Map, lookup, insert, is_some, bind-ok, ok_injective,
  Result, ok, err, panic, arith, inl, inr, Bool-cases, Result-cases,
}
use amesh.StringSet.{StringSet}
use amesh.Controller.{PodDiff, diff_pods}
use amesh.Controller.Selectors.{
  LabelSelector, AmeshPluginConfigResource, SelectorApi, selector_of, update_selector,
}
use amesh.Controller.Reconciler.{
  Reconciler, Reconciled, Request, request_key, Cluster, send_plugins_configs, record_status,
}
use amesh.Controller.Notices.{notify_all_pods, notify_diff, notify_pods, finish}
use amesh.Controller.Reconcile.{
  or_everything, new_config, plugin_changed, is_handled, notify_result, reconcile_changed,
  reconcile_updated, reconcile_found,
}

update_selector-insert :
    {Selector : Type 0} (api : SelectorApi Selector) (key : String) (meta : Option LabelSelector)
    (cache : Map Selector) (updated : Selector × Map Selector)
    → update_selector api key meta cache ≡ ok updated
    → updated.1 ≡ insert key updated.0 cache
unfolding update_selector
update_selector-insert api key meta cache updated e =
    let (selector, _, made) = bind-ok (selector_of api meta) _ e in rw (← ok_injective made) refl

module _ {Selector Receiver : Type 0} (api : SelectorApi Selector)
    (cluster : Cluster Selector) where
  -- The two caches are as they were.
  abbrev pub HasCachesOf : Reconciler Selector Receiver → Reconciler Selector Receiver → Type 0
  HasCachesOf r s = (r.plugins_cache ≡ s.plugins_cache) × (r.selector_cache ≡ s.selector_cache)

  send_plugins_configs-HasCachesOf :
      (ns : String) (names : StringSet) (r : Reconciler Selector Receiver)
      → HasCachesOf (send_plugins_configs ns names r) r
  unfolding send_plugins_configs
  send_plugins_configs-HasCachesOf ns names r = ground arith

  notify_diff-HasCachesOf :
      (old new changed : Bool) (req : Request) (d : PodDiff) (r : Reconciler Selector Receiver)
      → HasCachesOf (notify_diff api cluster old new changed req d r) r
  unfolding notify_diff send_plugins_configs
  notify_diff-HasCachesOf old new changed req d r = ground arith

  notify_pods-HasCachesOf :
      (old : Option Selector) (new : Selector) (changed : Bool) (req : Request) (d : PodDiff)
      (r : Reconciler Selector Receiver)
      → HasCachesOf (notify_pods api cluster old new changed req d r).state r
  unfolding notify_pods notify_all_pods send_plugins_configs
  notify_pods-HasCachesOf old new changed req d r = ground (
    arith,
    notify_diff-HasCachesOf (is_some old) (api.is_nil new) changed req d r,
    Result-cases (cluster.list_pods req.namespace api.everything),
  )

  finish-HasCachesOf :
      (resource : AmeshPluginConfigResource) (done : Reconciled Selector Receiver)
      → HasCachesOf (finish api cluster resource done).state done.state
  unfolding finish record_status
  finish-HasCachesOf resource done = ground (arith, Result-cases done.end)

  notify_result-HasCachesOf :
      (old : Option Selector) (changed : Bool) (req : Request)
      (resource : AmeshPluginConfigResource) (new : Selector) (r : Reconciler Selector Receiver)
      (diff : Result PodDiff)
      → HasCachesOf (notify_result api cluster old changed req resource new r diff).state r
  unfolding notify_result
  notify_result-HasCachesOf old changed req resource new r panic = (refl, refl)
  notify_result-HasCachesOf old changed req resource new r (err message) = (refl, refl)
  notify_result-HasCachesOf old changed req resource new r (ok d) =
      let notified = notify_pods-HasCachesOf old new changed req d r in
      let finished =
        finish-HasCachesOf resource (notify_pods api cluster old new changed req d r) in
      (finished.0 ∙ notified.0, finished.1 ∙ notified.1)

  -- What a request leaves of the caches for a config that is found: they are as they were, or the
  -- config was not handled and is now cached, with a selector.
  pub data IsCached (req : Request) (resource : AmeshPluginConfigResource)
      (r after : Reconciler Selector Receiver) : Type 0 where
    kept : HasCachesOf after r → IsCached req resource r after
    replaced :
        (new : Selector)
        → is_handled (lookup (request_key req) r.plugins_cache) resource ≡ false
        → HasCachesOf after (record r {
          selector_cache = insert (request_key req) new r.selector_cache;
          plugins_cache = insert (request_key req) (new_config req resource) r.plugins_cache;
        })
        → IsCached req resource r after

  reconcile_updated-IsCached :
      (req : Request) (resource : AmeshPluginConfigResource) (r : Reconciler Selector Receiver)
      (updated : Result (Selector × Map Selector))
      → is_handled (lookup (request_key req) r.plugins_cache) resource ≡ false
      → update_selector api (request_key req) resource.selector r.selector_cache ≡ updated
      → IsCached req resource r
          (reconcile_updated api cluster
            (lookup (request_key req) r.selector_cache)
            (lookup (request_key req) r.plugins_cache)
            req
            resource
            r
            updated).state
  unfolding reconcile_updated reconcile_changed
  reconcile_updated-IsCached req resource r panic h u = kept (refl, refl)
  reconcile_updated-IsCached req resource r (err message) h u = kept (refl, refl)
  reconcile_updated-IsCached req resource r (ok updated) h u =
      let same =
        notify_result-HasCachesOf (lookup (request_key req) r.selector_cache)
          (plugin_changed (lookup (request_key req) r.plugins_cache) resource) req resource
          updated.0
          (record r {
            selector_cache = updated.1;
            plugins_cache = insert (request_key req) (new_config req resource) r.plugins_cache;
          })
          (diff_pods (cluster.list_pods req.namespace)
            (or_everything api (lookup (request_key req) r.selector_cache)) updated.0) in
      let stored =
        update_selector-insert api (request_key req) resource.selector r.selector_cache updated u in
      replaced updated.0 h (same.0, same.1 ∙ stored)

  pub reconcile_found-IsCached :
      (req : Request) (resource : AmeshPluginConfigResource) (r : Reconciler Selector Receiver)
      → IsCached req resource r (reconcile_found api cluster req resource r).state
  unfolding reconcile_found
  reconcile_found-IsCached req resource r =
      elim (Bool-cases (is_some resource.deletion_timestamp)) [
        | inl e ↦ rw (e, reconcile_found) (kept (refl, refl))
        | inr e ↦
            elim (Bool-cases (is_handled (lookup (request_key req) r.plugins_cache) resource)) [
              | inl h ↦ rw (e, h, reconcile_found) (kept (refl, refl))
              | inr h ↦
                  rw (e, h, reconcile_found) (reconcile_updated-IsCached req resource r _ h refl)
            ]
      ]
