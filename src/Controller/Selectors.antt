-- ===== src/Controller/Selectors.antt =====
-- controller/utils/selector_cache.go: the selectors of the plugin configs, kept by key. The package
-- labels of Kubernetes and the lister of the plugin configs are parameters.
use amesh.Prelude.{
  ℕ, ◌+◌, String, Bool, List, [], ◌∷◌, Option, none, some, Map, lookup, insert, length, eqb, Result,
  ok, err, panic, ◌>>=◌, if◌then◌else◌,
}
use amesh.StringSet.{StringSet, add}
use amesh.Controller.{AmeshPluginConfigPlugin}

-- metav1.LabelSelectorRequirement and metav1.LabelSelector
pub record LabelSelectorRequirement : Type 0 where
  pub key : String
  pub operator : String
  pub values : List String

pub record LabelSelector : Type 0 where
  pub match_labels : Map String
  pub match_expressions : List LabelSelectorRequirement

-- metav1.Condition, without its time
pub record Condition : Type 0 where
  pub type : String
  pub status : String
  pub observed_generation : ℕ
  pub reason : String
  pub message : String

-- v1alpha1.AmeshPluginConfig: what the controller reads of the metadata, the spec and the status
pub record AmeshPluginConfigResource : Type 0 where
  pub namespace : String
  pub name : String
  pub resource_version : String
  pub generation : ℕ
  pub deletion_timestamp : Option String
  pub plugins : List AmeshPluginConfigPlugin
  pub selector : Option LabelSelector
  pub conditions : List Condition

-- what the controller reads of a v1.Pod
pub record Pod : Type 0 where
  pub namespace : String
  pub name : String
  pub resource_version : String
  pub labels : Map String

-- What the code calls of the packages labels and metav1; `is_nil` is the comparison with nil.
pub record SelectorApi (Selector : Type 0) : Type 0 where
  pub everything : Selector
  pub as_selector : LabelSelector → Result Selector
  pub matches : Selector → Map String → Bool
  pub is_nil : Selector → Bool

-- the keys that GetPodPluginConfigs returns, or its error, and the cache that it leaves
pub record MatchedConfigs (Selector : Type 0) : Type 0 where
  pub keys : Result StringSet
  pub cache : Map Selector

module _ {Selector : Type 0} (api : SelectorApi Selector) where
  -- the selector that Update makes of the one in the spec
  unfoldable pub selector_of : Option LabelSelector → Result Selector
  selector_of none = ok api.everything
  selector_of (some meta) =
      if eqb (length meta.match_labels + length meta.match_expressions) 0
      then ok api.everything
      else api.as_selector meta

  -- SelectorCache.Update: after an error the cache is as it was
  unfoldable pub update_selector :
      String → Option LabelSelector → Map Selector → Result (Selector × Map Selector)
  unfolding selector_of
  update_selector key meta cache = do
    selector ← selector_of meta
    ok (selector, insert key selector cache)

  -- the cached selector, or the one that Update stores
  unfoldable pub cached_selector :
      String → LabelSelector → Map Selector → Result (Selector × Map Selector)
  unfolding update_selector
  cached_selector key meta cache = elim (lookup key cache) [
    | some selector ↦ ok (selector, cache)
    | none ↦ update_selector key (some meta) cache
  ]

  -- cache.DeletionHandlingMetaNamespaceKeyFunc is a parameter.
  module _ (key_of : AmeshPluginConfigResource → Result String) where
    -- one round of the loop over the plugin configs, with its key
    unfoldable pub match_config :
        Map String
        → String
        → AmeshPluginConfigResource
        → StringSet
        → Map Selector
        → Result (StringSet × Map Selector)
    unfolding cached_selector
    match_config labels key config matched cache = elim config.selector [
      | none ↦ ok (add key matched, cache)
      | some meta ↦ do
        chosen ← cached_selector key meta cache
        ok (if api.matches chosen.0 labels then add key matched else matched, chosen.1)
    ]

    unfoldable pub match_configs :
        Map String
        → List AmeshPluginConfigResource
        → StringSet
        → Map Selector
        → MatchedConfigs Selector
    unfolding match_config
    match_configs labels [] matched cache = record { keys = ok matched; cache = cache }
    match_configs labels (config ∷ configs) matched cache = elim (key_of config) [
      | panic ↦ record { keys = panic; cache = cache }
      | err message ↦ record { keys = err message; cache = cache }
      | ok key ↦ elim (match_config labels key config matched cache) [
        | panic ↦ record { keys = panic; cache = cache }
        | err message ↦ record { keys = err message; cache = cache }
        | ok next ↦ match_configs labels configs next.0 next.1
      ]
    ]

    -- SelectorCache.GetPodPluginConfigs, where `list` lists the plugin configs of a namespace
    unfoldable pub matched_config_keys :
        (String → Result (List AmeshPluginConfigResource))
        → Pod
        → Map Selector
        → MatchedConfigs Selector
    unfolding match_configs
    matched_config_keys list pod cache = elim (list pod.namespace) [
      | panic ↦ record { keys = panic; cache = cache }
      | err message ↦ record { keys = err message; cache = cache }
      | ok configs ↦ match_configs pod.labels configs [] cache
    ]
