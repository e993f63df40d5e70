-- ===== src/Controller/Forward.antt =====
-- The versions in the cache of the plugin config controller never go back in the order of texts.
use amesh.Prelude.{
  String, List, true, false, ◌≡◌, refl, Option, none, some, lookup, delete, lookup-insert,
  lookup-delete, Result, ok, err, panic, arith, inl, inr, ◌⊎◌, text-cases, Option-cases,
}
use amesh.Prelude.Text.{text_le}
use amesh.Prelude.Order.{text_le_total, text_le_refl}
use amesh.Controller.Selectors.{AmeshPluginConfigResource, SelectorApi}
use amesh.Controller.Reconciler.{
  PodPluginConfig, Reconciler, Request, request_key, not_found, Read-cases, Cluster,
  send_plugins_configs,
}
use amesh.Controller.Notices.{notify_deleted}
use amesh.Controller.Reconcile.{new_config, is_handled, reconcile_deleted, reconcile}
use amesh.Controller.Versions.{IsCached, kept, replaced, reconcile_found-IsCached}

-- The config is still cached, at its version or one that comes after it as a text.
abbrev pub IsKept : PodPluginConfig → Option PodPluginConfig → Type 0
IsKept old now =
    (new : PodPluginConfig) × (now ≡ some new) × (text_le old.version new.version ≡ true)

is_handled-newer :
    (resource : AmeshPluginConfigResource) (cached : Option PodPluginConfig) (old : PodPluginConfig)
    → is_handled cached resource ≡ false
    → cached ≡ some old
    → text_le old.version resource.resource_version ≡ true
is_handled-newer resource none old h e = absurd (cc e)
is_handled-newer resource (some c) old h e =
    ground (arith, text_le_total resource.resource_version old.version)

module _ {Selector Receiver : Type 0} (api : SelectorApi Selector)
    (cluster : Cluster Selector) where
  IsCached-IsKept :
      (req : Request) (resource : AmeshPluginConfigResource)
      (r after : Reconciler Selector Receiver) (k : String) (old : PodPluginConfig)
      → IsCached api cluster req resource r after
      → lookup k r.plugins_cache ≡ some old
      → IsKept old (lookup k after.plugins_cache)
  IsCached-IsKept req resource r after k old (kept e) h = (old, rw e.0 h, text_le_refl old.version)
  IsCached-IsKept req resource r after k old (replaced new unhandled e) h =
      elim (text-cases (request_key req) k) [
        | inl (same, e') ↦ (
          new_config req resource,
          rw (e.0, lookup-insert, same) refl,
          is_handled-newer resource _ old unhandled (rw e' h),
        )
        | inr (other, _) ↦ (old, rw (e.0, lookup-insert, other) h, text_le_refl old.version)
      ]

  notify_deleted-plugins_cache :
      (req : Request) (r : Reconciler Selector Receiver) (pods : Result (List String))
      → (notify_deleted api cluster req r pods).state.plugins_cache ≡ r.plugins_cache
  unfolding notify_deleted send_plugins_configs
  notify_deleted-plugins_cache req r panic = refl
  notify_deleted-plugins_cache req r (err message) = refl
  notify_deleted-plugins_cache req r (ok pods) = ground arith

  reconcile_deleted-plugins_cache :
      (req : Request) (r : Reconciler Selector Receiver)
      → (reconcile_deleted api cluster req r).state.plugins_cache
        ≡ delete (request_key req) r.plugins_cache
  unfolding reconcile_deleted
  reconcile_deleted-plugins_cache req r =
      elim (Option-cases (lookup (request_key req) r.selector_cache)) [
        | inl e ↦ rw (e, reconcile_deleted) refl
        | inr (selector, e) ↦
            rw (e, reconcile_deleted)
              (notify_deleted-plugins_cache req
                (record r { plugins_cache = delete (request_key req) r.plugins_cache })
                (cluster.list_pods req.namespace selector))
      ]

  -- A request of Reconcile keeps each cached config at its version or replaces it by one whose
  -- version does not come before it in the order of texts, which is what the code compares ("99"
  -- comes after "100", so this is not the order of the versions as numbers), unless the config is
  -- that of the request and is not found: then it is gone.
  pub reconcile-IsKept :
      (req : Request) (r : Reconciler Selector Receiver) (k : String) (old : PodPluginConfig)
      → lookup k r.plugins_cache ≡ some old
      → IsKept old (lookup k (reconcile api cluster req r).state.plugins_cache)
        ⊎ (cluster.get req ≡ not_found)
          × (request_key req ≡ k)
          × (lookup k (reconcile api cluster req r).state.plugins_cache ≡ none)
  unfolding reconcile
  reconcile-IsKept req r k old h = elim (Read-cases (cluster.get req)) [
    | inl (resource, e) ↦
        rw (e, reconcile)
          (inl (
            IsCached-IsKept req resource r _ k old
              (reconcile_found-IsCached api cluster req resource r) h))
    | inr (inl e) ↦ elim (text-cases (request_key req) k) [
      | inl (same, e') ↦
          inr (e, e', rw (e, reconcile, reconcile_deleted-plugins_cache, lookup-delete, same) refl)
      | inr (other, _) ↦ inl (
        old,
        rw (e, reconcile, reconcile_deleted-plugins_cache, lookup-delete, other) h,
        text_le_refl old.version,
      )
    ]
    | inr (inr (message, e)) ↦ rw (e, reconcile) (inl (old, h, text_le_refl old.version))
  ]
