-- ===== src/Controller/Transparent.antt =====
-- GetPodPluginConfigs of controller/utils/selector_cache.go against the same search without a cache.
use amesh.Prelude.{
  String, Bool, true, ◌≡◌, refl, sym, ◌∙◌, List, [], ◌∷◌, Option, none, some, Map, lookup, insert,
  lookup-insert, All, Result, ok, err, panic, ◌>>=◌, inl, inr, text-cases, Option-cases,
  Result-cases, if◌then◌else◌,
}
use amesh.StringSet.{StringSet, add}
use amesh.Controller.Selectors.{
  LabelSelector, AmeshPluginConfigResource, SelectorApi, selector_of, update_selector,
  cached_selector, match_config, match_configs,
}

module _ {Selector : Type 0} (api : SelectorApi Selector) where
  -- Every cached selector is the one that Update makes of the selector in the spec of its key.
  abbrev pub IsTrue : (String → Option LabelSelector) → Map Selector → Type 0
  IsTrue spec cache =
      (k : String) (meta : LabelSelector) (selector : Selector)
      → lookup k cache ≡ some selector
      → spec k ≡ some meta
      → selector_of api (some meta) ≡ ok selector

  insert-IsTrue :
      (spec : String → Option LabelSelector) (key : String) (meta : LabelSelector)
      (selector : Selector) (cache : Map Selector)
      → spec key ≡ some meta
      → selector_of api (some meta) ≡ ok selector
      → IsTrue spec cache
      → IsTrue spec (insert key selector cache)
  insert-IsTrue spec key meta selector cache s e h k other_meta other lk sk =
      elim (text-cases key k) [
        | inl (same, p) ↦
            let found : some selector ≡ some other = rw (lookup-insert, same) at lk in
            let there : spec k ≡ some meta = rw (← p) s in cc
        | inr (different, _) ↦ h k other_meta other (rw (lookup-insert, different) at lk) sk
      ]

  -- Cached or not, the selector is that of the spec, and the cache stays true.
  data IsChosen (spec : String → Option LabelSelector) (meta : LabelSelector) (cache : Map Selector)
      (chosen : Result (Selector × Map Selector)) : Type 0 where
    fails_panic :
        selector_of api (some meta) ≡ panic → chosen ≡ panic → IsChosen spec meta cache chosen
    fails :
        (message : String)
        → selector_of api (some meta) ≡ err message
        → chosen ≡ err message
        → IsChosen spec meta cache chosen
    chooses :
        (selector : Selector) (now : Map Selector)
        → selector_of api (some meta) ≡ ok selector
        → chosen ≡ ok (selector, now)
        → IsTrue spec now
        → IsChosen spec meta cache chosen

  cached_selector-IsChosen :
      (spec : String → Option LabelSelector) (key : String) (meta : LabelSelector)
      (cache : Map Selector)
      → spec key ≡ some meta
      → IsTrue spec cache
      → IsChosen spec meta cache (cached_selector api key meta cache)
  unfolding cached_selector update_selector
  cached_selector-IsChosen spec key meta cache s h = elim (Option-cases (lookup key cache)) [
    | inr (selector, l) ↦
        chooses selector cache (h key meta selector l s) (rw (l, cached_selector) refl) h
    | inl l ↦ elim (Result-cases (selector_of api (some meta))) [
      | inl e ↦ fails_panic e (rw (l, e, cached_selector, update_selector) refl)
      | inr (inl (message, e)) ↦ fails message e (rw (l, e, cached_selector, update_selector) refl)
      | inr (inr (selector, e)) ↦
          chooses selector (insert key selector cache) e
            (rw (l, e, cached_selector, update_selector) refl)
            (insert-IsTrue spec key meta selector cache s e h)
    ]
  ]

  module _ (key_of : AmeshPluginConfigResource → Result String) (labels : Map String) where
    -- whether the config takes the pod
    unfoldable pub selects : AmeshPluginConfigResource → Result Bool
    selects config = elim config.selector [
      | none ↦ ok true
      | some meta ↦ do selector ← selector_of api (some meta); ok (api.matches selector labels)
    ]

    unfoldable pub selected_keys : List AmeshPluginConfigResource → StringSet → Result StringSet
    unfolding selects
    selected_keys [] matched = ok matched
    selected_keys (config ∷ configs) matched = do
      key ← key_of config
      taken ← selects config
      selected_keys configs (if taken then add key matched else matched)

    -- One round does what the search without a cache does, and the cache stays true.
    data IsRound (spec : String → Option LabelSelector) (config : AmeshPluginConfigResource)
        (key : String) (matched : StringSet) (cache : Map Selector) : Type 0 where
      round_panic :
          selects config ≡ panic
          → match_config api key_of labels key config matched cache ≡ panic
          → IsRound spec config key matched cache
      round_fails :
          (message : String)
          → selects config ≡ err message
          → match_config api key_of labels key config matched cache ≡ err message
          → IsRound spec config key matched cache
      round_ends :
          (taken : Bool) (now : Map Selector)
          → selects config ≡ ok taken
          → match_config api key_of labels key config matched cache
            ≡ ok (if taken then add key matched else matched, now)
          → IsTrue spec now
          → IsRound spec config key matched cache

    match_config-IsRound :
        (spec : String → Option LabelSelector) (config : AmeshPluginConfigResource) (key : String)
        (matched : StringSet) (cache : Map Selector)
        → config.selector ≡ spec key
        → IsTrue spec cache
        → IsRound spec config key matched cache
    unfolding match_config selects
    match_config-IsRound spec config key matched cache s h = elim (Option-cases config.selector) [
      | inl e ↦ round_ends true cache (rw (e, selects) refl) (rw (e, match_config) refl) h
      | inr (meta, e) ↦ elim (cached_selector-IsChosen spec key meta cache (sym s ∙ e) h) [
        | fails_panic p q ↦ round_panic (rw (e, p, selects) refl) (rw (e, q, match_config) refl)
        | fails message p q ↦
            round_fails message (rw (e, p, selects) refl) (rw (e, q, match_config) refl)
        | chooses selector now p q true_now ↦
            round_ends (api.matches selector labels) now (rw (e, p, selects) refl)
              (rw (e, q, match_config) refl) true_now
      ]
    ]

    -- The key of the config is known, and the spec of this key is the config's.
    abbrev pub HasSpec : (String → Option LabelSelector) → AmeshPluginConfigResource → Type 0
    HasSpec spec config = (key : String) → key_of config ≡ ok key → config.selector ≡ spec key

    -- If the cached selectors are those of the specs, the search finds what it finds without a
    -- cache, with the same errors, and the cached selectors are those of the specs afterwards.
    pub match_configs-eq-selected_keys :
        (spec : String → Option LabelSelector) (configs : List AmeshPluginConfigResource)
        (matched : StringSet) (cache : Map Selector)
        → All (HasSpec spec) configs
        → IsTrue spec cache
        → let found = match_configs api key_of labels configs matched cache in
          (found.keys ≡ selected_keys configs matched) × IsTrue spec found.cache
    unfolding match_configs selected_keys
    match_configs-eq-selected_keys spec [] matched cache hs h = (refl, h)
    match_configs-eq-selected_keys spec (config ∷ configs) matched cache hs h =
        elim (Result-cases (key_of config)) [
          | inl e ↦ rw (e, match_configs, selected_keys) (refl, h)
          | inr (inl (message, e)) ↦ rw (e, match_configs, selected_keys) (refl, h)
          | inr (inr (key, e)) ↦
              elim (match_config-IsRound spec config key matched cache (hs.0 key e) h) [
                | round_panic p q ↦ rw (e, p, q, match_configs, selected_keys) (refl, h)
                | round_fails message p q ↦ rw (e, p, q, match_configs, selected_keys) (refl, h)
                | round_ends taken now p q true_now ↦
                    rw (e, p, q, match_configs, selected_keys)
                      (match_configs-eq-selected_keys spec configs
                        (if taken then add key matched else matched) now hs.1 true_now)
              ]
        ]
