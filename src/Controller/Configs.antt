-- ===== src/Controller/Configs.antt =====
-- GetPodPluginConfigs of controller/controllers/amesh/ameshpluginconfig_controller.go: the configs of
-- a pod. How keys of objects are made and split, the lister of the plugin configs, that of the pods
-- and the kinds of errors are parameters.
use amesh.Prelude.{
  String, Bool, List, [], ◌∷◌, none, some, Map, lookup, Result, ok, err, panic, ◌>>=◌,
  if◌then◌else◌,
}
use amesh.StringSet.{ordered_strings}
use amesh.Controller.Selectors.{AmeshPluginConfigResource, Pod, SelectorApi, matched_config_keys}
use amesh.Controller.Reconciler.{PodPluginConfig, Reconciler}

pub record Listers : Type 0 where
  pub key_of : AmeshPluginConfigResource → Result String
  pub split_key : String → Result (String × String)
  pub is_not_found : String → Bool
  pub list_configs : String → Result (List AmeshPluginConfigResource)
  pub get_pod : String → String → Result Pod

-- the loop over the sorted keys
unfoldable pub cached_configs : Map PodPluginConfig → List String → List PodPluginConfig
cached_configs plugins_cache [] = []
cached_configs plugins_cache (key ∷ keys) = elim (lookup key plugins_cache) [
  | none ↦ cached_configs plugins_cache keys
  | some cached ↦ cached ∷ cached_configs plugins_cache keys
]

-- the configs or the error, and the state
pub record PodConfigs (Selector Receiver : Type 0) : Type 0 where
  pub configs : Result (List PodPluginConfig)
  pub state : Reconciler Selector Receiver

module _ {Selector Receiver : Type 0} (api : SelectorApi Selector) (listers : Listers) where
  -- the part after the pod is found
  unfoldable pub configs_of_pod : Pod → Reconciler Selector Receiver → PodConfigs Selector Receiver
  unfolding matched_config_keys cached_configs
  configs_of_pod pod r =
      let matched =
        matched_config_keys api listers.key_of listers.list_configs pod r.selector_cache in
      record {
        configs = do
          keys ← matched.keys
          ok (cached_configs r.plugins_cache (ordered_strings keys));
        state = record r { selector_cache = matched.cache };
      }

  unfoldable pub get_pod_plugin_configs :
      String → Reconciler Selector Receiver → PodConfigs Selector Receiver
  unfolding configs_of_pod
  get_pod_plugin_configs key r = elim (listers.split_key key) [
    | panic ↦ record { configs = panic; state = r }
    | err message ↦ record {
      configs = if listers.is_not_found message then ok [] else err message;
      state = r;
    }
    | ok (ns, name) ↦ elim (listers.get_pod ns name) [
      | panic ↦ record { configs = panic; state = r }
      | err message ↦ record { configs = err message; state = r }
      | ok pod ↦ configs_of_pod pod r
    ]
  ]
