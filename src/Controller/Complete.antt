-- ===== src/Controller/Complete.antt =====
-- What the changes of the caches of the plugin config controller keep: each cached config has the
-- name of its key and a cached selector.
use amesh.Prelude.{
  String, true, false, ◌≡◌, refl, List, [], ◌∷◌, some, Map, lookup, insert, delete, lookup-insert,
  lookup-delete, is_some, Result, ok, bind-ok, ok_injective, arith, inl, inr, text-cases,
  Option-cases, Result-cases, ◌==◌,
}
use amesh.StringSet.{StringSet}
use amesh.Controller.Selectors.{
  LabelSelector, AmeshPluginConfigResource, SelectorApi, selector_of, update_selector,
  cached_selector, match_config, match_configs,
}
use amesh.Controller.Reconciler.{PodPluginConfig}

module _ {Selector : Type 0} where
  -- Each cached config has the name of its key, and a cached selector.
  abbrev pub IsComplete : Map PodPluginConfig → Map Selector → Type 0
  IsComplete plugins selectors =
      (k : String) (config : PodPluginConfig)
      → lookup k plugins ≡ some config
      → (config.name ≡ k) × (is_some (lookup k selectors) ≡ true)

  pub insert-IsComplete :
      (plugins : Map PodPluginConfig) (selectors : Map Selector) (key : String)
      (selector : Selector)
      → IsComplete plugins selectors
      → IsComplete plugins (insert key selector selectors)
  insert-IsComplete plugins selectors key selector h k config e =
      ((h k config e).0, ground (arith, h k config e, lookup-insert key k selector selectors))

  pub both-IsComplete :
      (plugins : Map PodPluginConfig) (selectors : Map Selector) (new : PodPluginConfig)
      (selector : Selector)
      → IsComplete plugins selectors
      → IsComplete (insert new.name new plugins) (insert new.name selector selectors)
  both-IsComplete plugins selectors new selector h k config e = elim (text-cases new.name k) [
    | inl (same, p) ↦
        let is_new : some new ≡ some config = rw (lookup-insert, same) at e in
        (cc, rw (lookup-insert, same) refl)
    | inr (different, _) ↦
        let old = rw (lookup-insert, different) at e in
        ((h k config old).0, rw (lookup-insert, different) (h k config old).1)
  ]

  pub delete-IsComplete :
      (plugins : Map PodPluginConfig) (selectors : Map Selector) (key : String)
      → IsComplete plugins selectors
      → IsComplete (delete key plugins) selectors
        × IsComplete (delete key plugins) (delete key selectors)
  delete-IsComplete plugins selectors key h = (
    λ k config e. h k config (was k config e).0,
    λ k config e.
        let (old, other) = was k config e in
        ((h k config old).0, rw (lookup-delete, other) (h k config old).1),
  )
    where
      was :
          (k : String) (config : PodPluginConfig)
          → lookup k (delete key plugins) ≡ some config
          → (lookup k plugins ≡ some config) × ((key == k) ≡ false)
      was k config e = ground (arith, lookup-delete key k plugins)

  -- The second cache has the keys of the first.
  abbrev pub HasKeysOf : Map Selector → Map Selector → Type 0
  HasKeysOf old now = (k : String) → is_some (lookup k old) ≡ true → is_some (lookup k now) ≡ true

  pub grown-IsComplete :
      (plugins : Map PodPluginConfig) (old now : Map Selector)
      → HasKeysOf old now
      → IsComplete plugins old
      → IsComplete plugins now
  grown-IsComplete plugins old now g h k config e = ((h k config e).0, g k (h k config e).1)

module _ {Selector : Type 0} (api : SelectorApi Selector) where
  cached_selector-HasKeysOf :
      (key : String) (meta : LabelSelector) (cache : Map Selector) (out : Selector × Map Selector)
      → cached_selector api key meta cache ≡ ok out
      → HasKeysOf cache out.1
  unfolding cached_selector update_selector
  cached_selector-HasKeysOf key meta cache out e = elim (Option-cases (lookup key cache)) [
    | inr (selector, l) ↦
        let same = ok_injective (rw (l, cached_selector) at e) in rw (← same) (λ k h. h)
    | inl l ↦
        let (selector, _, made) =
          bind-ok (selector_of api (some meta)) _ (rw (l, cached_selector, update_selector) at e) in
        rw (← ok_injective made) (λ k h. ground (arith, lookup-insert key k selector cache))
  ]

  module _ (key_of : AmeshPluginConfigResource → Result String) (labels : Map String) where
    match_config-HasKeysOf :
        (config : AmeshPluginConfigResource) (key : String) (matched : StringSet)
        (cache : Map Selector) (next : StringSet × Map Selector)
        → match_config api key_of labels key config matched cache ≡ ok next
        → HasKeysOf cache next.1
    unfolding match_config
    match_config-HasKeysOf config key matched cache next e = elim (Option-cases config.selector) [
      | inl s ↦ rw (← ok_injective (rw (s, match_config) at e)) (λ k h. h)
      | inr (meta, s) ↦
          let (chosen, c, made) =
            bind-ok (cached_selector api key meta cache) _ (rw (s, match_config) at e) in
          rw (← ok_injective made) (cached_selector-HasKeysOf key meta cache chosen c)
    ]

    pub match_configs-HasKeysOf :
        (configs : List AmeshPluginConfigResource) (matched : StringSet) (cache : Map Selector)
        → HasKeysOf cache (match_configs api key_of labels configs matched cache).cache
    unfolding match_configs
    match_configs-HasKeysOf [] matched cache = λ k h. h
    match_configs-HasKeysOf (config ∷ configs) matched cache = elim (Result-cases (key_of config)) [
      | inl e ↦ rw (e, match_configs) (λ k h. h)
      | inr (inl (message, e)) ↦ rw (e, match_configs) (λ k h. h)
      | inr (inr (key, e)) ↦
          elim (Result-cases (match_config api key_of labels key config matched cache)) [
            | inl m ↦ rw (e, m, match_configs) (λ k h. h)
            | inr (inl (message, m)) ↦ rw (e, m, match_configs) (λ k h. h)
            | inr (inr (next, m)) ↦
                rw (e, m, match_configs)
                  (λ k h.
                    match_configs-HasKeysOf configs next.0 next.1 k
                      (match_config-HasKeysOf config key matched cache next m k h))
          ]
    ]
