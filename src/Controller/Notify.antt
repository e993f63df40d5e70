-- ===== src/Controller/Notify.antt =====
-- Whom Reconcile of the plugin config controller tells of a change.
use amesh.Prelude.{
  String, Bool, true, false, ◌≡◌, refl, ◌∙◌, List, [], Option, lookup, insert, lookup-insert_self,
  is_some, ok, err, arith, inl, inr, Bool-cases, if◌then◌else◌,
}
use amesh.Prelude.Order.{text_le_refl}
use amesh.StringSet.{StringSet}
use amesh.StringSet.Sorted.{has}
use amesh.Controller.{PodDiff, diff_pods}
use amesh.Controller.Pods.{diff_pods-both, diff_pods-listed}
use amesh.Controller.Selectors.{
  AmeshPluginConfigResource, SelectorApi, selector_of, update_selector,
}
use amesh.Controller.Reconciler.{
  Reconciler, Request, request_key, found, Cluster, send_plugins_configs, record_status,
}
use amesh.Controller.Notices.{notify_diff, notify_pods, finish}
use amesh.Controller.Reconcile.{
  or_everything, new_config, plugin_changed, is_handled, notify_result, reconcile_changed,
  reconcile_updated, reconcile_found, reconcile,
}

module _ {Selector Receiver : Type 0} (api : SelectorApi Selector) where
  -- The config is found, not deleted, and newer than the cached one; its selector can be made.
  abbrev pub IsFresh :
      Cluster Selector
      → Request
      → AmeshPluginConfigResource
      → Selector
      → Reconciler Selector Receiver
      → Type 0
  IsFresh cluster req resource new r =
      (cluster.get req ≡ found resource)
      × (is_some resource.deletion_timestamp ≡ false)
      × (is_handled (lookup (request_key req) r.plugins_cache) resource ≡ false)
      × (selector_of api resource.selector ≡ ok new)

  -- the state after both caches are written
  abbrev pub cached :
      Request
      → AmeshPluginConfigResource
      → Selector
      → Reconciler Selector Receiver
      → Reconciler Selector Receiver
  cached req resource new r = record r {
    selector_cache = insert (request_key req) new r.selector_cache;
    plugins_cache = insert (request_key req) (new_config req resource) r.plugins_cache;
  }

  reconcile-eq-notify_result :
      (cluster : Cluster Selector) (req : Request) (resource : AmeshPluginConfigResource)
      (new : Selector) (r : Reconciler Selector Receiver)
      → IsFresh cluster req resource new r
      → let old = lookup (request_key req) r.selector_cache in
        reconcile api cluster req r
        ≡ notify_result api cluster old
            (plugin_changed (lookup (request_key req) r.plugins_cache) resource)
            req
            resource
            new
            (cached req resource new r)
            (diff_pods (cluster.list_pods req.namespace) (or_everything api old) new)
  unfolding reconcile reconcile_found update_selector reconcile_updated reconcile_changed
  reconcile-eq-notify_result cluster req resource new r (f, d, h, s) =
      rw (f, d, h, s, reconcile, reconcile_found, update_selector, reconcile_updated) refl

  reconcile-handled :
      (cluster : Cluster Selector) (req : Request) (resource : AmeshPluginConfigResource)
      (r : Reconciler Selector Receiver)
      → cluster.get req ≡ found resource
      → is_handled (lookup (request_key req) r.plugins_cache) resource ≡ true
      → reconcile api cluster req r ≡ record { state = r; end = ok tt }
  unfolding reconcile reconcile_found
  reconcile-handled cluster req resource r g h =
      elim (Bool-cases (is_some resource.deletion_timestamp)) [
        | inl e ↦ rw (g, e, reconcile, reconcile_found) refl
        | inr e ↦ rw (g, e, h, reconcile, reconcile_found) refl
      ]

  -- If the pods of a fresh config cannot be compared, Reconcile returns the error and tells nobody,
  -- but the config is cached: whenever the same version is read again, Reconcile succeeds without
  -- doing anything.
  pub reconcile-forgotten :
      (cluster : Cluster Selector) (req : Request) (resource : AmeshPluginConfigResource)
      (new : Selector) (r : Reconciler Selector Receiver) {message : String}
      → IsFresh cluster req resource new r
      → diff_pods
          (cluster.list_pods req.namespace)
          (or_everything api (lookup (request_key req) r.selector_cache))
          new
        ≡ err message
      → let done = reconcile api cluster req r in
        (done.end ≡ err message)
        × (done.state.sent ≡ r.sent)
        × ((later : Cluster Selector)
            → later.get req ≡ found resource
            → reconcile api later req done.state ≡ record { state = done.state; end = ok tt })
  unfolding notify_result reconcile reconcile_found
  reconcile-forgotten cluster req resource new r h e =
      rw (reconcile-eq-notify_result cluster req resource new r h, e)
        (
          refl,
          refl,
          λ later g.
              reconcile-handled later req resource (cached req resource new r) g
                (rw lookup-insert_self (text_le_refl resource.resource_version)),
        )

  notify_diff-both :
      (cluster : Cluster Selector) (old changed : Bool) (req : Request) (d : PodDiff)
      (r : Reconciler Selector Receiver)
      → d.only_in_old ≡ []
      → d.only_in_new ≡ []
      → notify_diff api cluster old false changed req d r
        ≡ (if changed then send_plugins_configs req.namespace d.both r else r)
  unfolding notify_diff send_plugins_configs
  notify_diff-both cluster old changed req d r eo en = rw (eo, en) (ground arith)

  finish-sent :
      (cluster : Cluster Selector) (resource : AmeshPluginConfigResource)
      (r : Reconciler Selector Receiver)
      → ((finish api cluster resource (record { state = r; end = ok tt })).end ≡ ok tt)
        × ((finish api cluster resource (record { state = r; end = ok tt })).state.sent ≡ r.sent)
  unfolding finish record_status
  finish-sent cluster resource r = ground arith

  notify_result-both :
      (cluster : Cluster Selector) (old : Option Selector) (changed : Bool) (req : Request)
      (resource : AmeshPluginConfigResource) (new : Selector) (r : Reconciler Selector Receiver)
      (d : PodDiff)
      → d.only_in_old ≡ []
      → d.only_in_new ≡ []
      → api.is_nil new ≡ false
      → let done = notify_result api cluster old changed req resource new r (ok d) in
        (done.end ≡ ok tt)
        × (done.state.sent
            ≡ (if changed then (send_plugins_configs req.namespace d.both r).sent else r.sent))
  unfolding notify_result notify_pods
  notify_result-both cluster old changed req resource new r d eo en nonnil =
      let told = if changed then send_plugins_configs req.namespace d.both r else r in
      let notified : notify_pods api cluster old new changed req d r
          ≡ record { state = told; end = ok tt } =
        rw (nonnil, notify_pods, notify_diff-both cluster (is_some old) changed req d r eo en)
          (ground arith) in
      rw notified (
        (finish-sent cluster resource told).0,
        (finish-sent cluster resource told).1 ∙ ground arith,
      )

  send-cached :
      (req : Request) (resource : AmeshPluginConfigResource) (new : Selector)
      (r : Reconciler Selector Receiver) (changed : Bool) (pods : StringSet)
      → (if changed
          then (send_plugins_configs req.namespace pods (cached req resource new r)).sent
          else r.sent)
        ≡ (if changed then (send_plugins_configs req.namespace pods r).sent else r.sent)
  unfolding send_plugins_configs
  send-cached req resource new r changed pods = ground arith

  -- what a fresh config sends, by the functions of the code
  pub reconcile-sends :
      (cluster : Cluster Selector) (req : Request) (resource : AmeshPluginConfigResource)
      (new : Selector) (r : Reconciler Selector Receiver) (old_pods new_pods : List String)
      → IsFresh cluster req resource new r
      → api.is_nil new ≡ false
      → cluster.list_pods req.namespace
          (or_everything api (lookup (request_key req) r.selector_cache))
        ≡ ok old_pods
      → cluster.list_pods req.namespace new ≡ ok new_pods
      → let done = reconcile api cluster req r in
        (pods : StringSet) × ((k : String)
          → is_some (lookup k pods) ≡ (if has k new_pods then true else has k old_pods))
        × (done.end ≡ ok tt)
        × (done.state.sent ≡ (
            if plugin_changed (lookup (request_key req) r.plugins_cache) resource
            then (send_plugins_configs req.namespace pods r).sent
            else r.sent))
  reconcile-sends cluster req resource new r old_pods new_pods h nonnil lo ln =
      let old = lookup (request_key req) r.selector_cache in
      let (d, e) =
        diff_pods-listed (cluster.list_pods req.namespace) (or_everything api old) new old_pods
          new_pods lo ln in
      let (eo, en, members) =
        diff_pods-both (cluster.list_pods req.namespace) (or_everything api old) new old_pods
          new_pods d lo ln e in
      let changed = plugin_changed (lookup (request_key req) r.plugins_cache) resource in
      (
        d.both,
        members,
        rw (reconcile-eq-notify_result cluster req resource new r h, e)
            (notify_result-both cluster old changed req resource new (cached req resource new r) d
              eo en nonnil).0,
        rw (reconcile-eq-notify_result cluster req resource new r h, e)
            ((notify_result-both cluster old changed req resource new (cached req resource new r) d
                eo en nonnil).1
              ∙ send-cached req resource new r changed d.both),
      )
