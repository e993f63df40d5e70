-- ===== src/Controller/Notified.antt =====
-- Which events Reconcile of controller/controllers/amesh/ameshpluginconfig_controller.go sends for a
-- fresh config.
use amesh.Prelude.{
  String, Bool, true, false, ◌≡◌, ◌≢◌, refl, ◌∙◌, List, [], ◌∷◌, ◌++◌, map, Option, none, some,
  lookup, is_some, ok, arith, if◌then◌else◌,
}
use amesh.StringSet.{StringSet}
use amesh.StringSet.Sorted.{has}
use amesh.Controller.{plugins_config_equal}
use amesh.Controller.Selectors.{AmeshPluginConfigResource, SelectorApi}
use amesh.Controller.Reconciler.{
  PodPluginConfig, Reconciler, Request, request_key, Cluster, send_plugins_configs,
}
use amesh.Controller.Reconcile.{or_everything, plugin_changed, reconcile}
use amesh.Controller.Notify.{IsFresh, reconcile-sends}

-- No config is cached, or the cached plugins do not compare equal to the new ones.
abbrev pub IsAnother : Option PodPluginConfig → AmeshPluginConfigResource → Type 0
IsAnother none resource = Unit
IsAnother (some old) resource = plugins_config_equal old.plugins resource.plugins ≡ false

-- The cached plugins compare equal to the new ones.
abbrev pub IsSame : Option PodPluginConfig → AmeshPluginConfigResource → Type 0
IsSame none resource = ⊥
IsSame (some old) resource = plugins_config_equal old.plugins resource.plugins ≡ true

plugin_changed-another :
    (old : Option PodPluginConfig) (resource : AmeshPluginConfigResource)
    → IsAnother old resource
    → plugin_changed old resource ≡ true
plugin_changed-another none resource h = refl
plugin_changed-another (some old) resource h = rw h refl

plugin_changed-same :
    (old : Option PodPluginConfig) (resource : AmeshPluginConfigResource)
    → IsSame old resource
    → plugin_changed old resource ≡ false
plugin_changed-same none resource h = absurd h
plugin_changed-same (some old) resource h = rw h refl

module _ {Selector Receiver : Type 0} where
  sent_lem :
      (ns : String) (pods : StringSet) (r : Reconciler Selector Receiver)
      → (pods ≡ [] → (send_plugins_configs ns pods r).sent ≡ r.sent)
        × (pods ≢ []
            → (send_plugins_configs ns pods r).sent
              ≡ r.sent ++ map (λ sub. (sub, record { namespace = ns; pods = pods })) r.subs)
  unfolding send_plugins_configs
  sent_lem ns [] r = (λ e. refl, λ ne. absurd (ne refl))
  sent_lem ns (pod ∷ pods) r = (λ e. absurd (cc e), λ ne. ground arith)

module _ {Selector Receiver : Type 0} (api : SelectorApi Selector) where
  -- If a fresh config's old and new selectors can be listed, Reconcile succeeds, and there is the set
  -- of the pods that either selector takes. If no config is cached or the cached plugins do not
  -- compare equal to the new ones, and the set is not empty, each subscriber in turn is sent one
  -- event with the namespace and this whole set. If the set is empty, or the cached plugins compare
  -- equal, nobody is sent anything, whatever pods the new selector takes.
  pub reconcile-notifies :
      (cluster : Cluster Selector) (req : Request) (resource : AmeshPluginConfigResource)
      (new : Selector) (r : Reconciler Selector Receiver) (old_pods new_pods : List String)
      → IsFresh api cluster req resource new r
      → api.is_nil new ≡ false
      → cluster.list_pods req.namespace
          (or_everything api (lookup (request_key req) r.selector_cache))
        ≡ ok old_pods
      → cluster.list_pods req.namespace new ≡ ok new_pods
      → let done = reconcile api cluster req r in
        let cached_config = lookup (request_key req) r.plugins_cache in
        (pods : StringSet) × ((k : String)
          → is_some (lookup k pods) ≡ (if has k new_pods then true else has k old_pods))
        × (done.end ≡ ok tt)
        × (IsAnother cached_config resource
            → pods ≢ []
            → done.state.sent
              ≡ r.sent
                ++ map (λ sub. (sub, record { namespace = req.namespace; pods = pods })) r.subs)
        × (pods ≡ [] → done.state.sent ≡ r.sent)
        × (IsSame cached_config resource → done.state.sent ≡ r.sent)
  reconcile-notifies cluster req resource new r old_pods new_pods h nonnil lo ln =
      let (pods, members, end, sent) =
        reconcile-sends api cluster req resource new r old_pods new_pods h nonnil lo ln in
      let cached_config = lookup (request_key req) r.plugins_cache in
      let (empty, filled) = sent_lem req.namespace pods r in
      (
        pods,
        members,
        end,
        λ another ne.
            rw (plugin_changed-another cached_config resource another) at sent ∙ filled ne,
        λ e. sent ∙ either_way (plugin_changed cached_config resource) (empty e),
        λ same. rw (plugin_changed-same cached_config resource same) at sent,
      )
    where
      either_way :
          {A : Type 0} {told kept : A} (changed : Bool)
          → told ≡ kept
          → (if changed then told else kept) ≡ kept
      either_way true e = e
      either_way false e = refl
