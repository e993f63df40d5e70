-- ===== src/Controller/Reconcile.antt =====
-- Reconcile and GetPodPluginConfigs of controller/controllers/amesh/ameshpluginconfig_controller.go.
use amesh.Prelude.{
  Bool, true, false, not, Option, none, some, Map, lookup, insert, delete, is_some, Result, ok, err,
  panic, if◌then◌else◌,
}
use amesh.Prelude.Text.{text_le}
use amesh.Controller.{plugins_config_equal, PodDiff, diff_pods}
use amesh.Controller.Selectors.{AmeshPluginConfigResource, SelectorApi, update_selector}
use amesh.Controller.Reconciler.{
  PodPluginConfig, Reconciler, Reconciled, Request, request_key, found, not_found, failed, Cluster,
}
use amesh.Controller.Notices.{notify_deleted, notify_pods, finish}

abbrev pub or_everything : {Selector : Type 0} → SelectorApi Selector → Option Selector → Selector
or_everything api none = api.everything
or_everything api (some selector) = selector

-- newConfig of Reconcile
abbrev pub new_config : Request → AmeshPluginConfigResource → PodPluginConfig
new_config req resource = record {
  name = request_key req;
  plugins = resource.plugins;
  version = resource.resource_version;
}

-- pluginChanged: true unless a config is cached
abbrev pub plugin_changed : Option PodPluginConfig → AmeshPluginConfigResource → Bool
plugin_changed none resource = true
plugin_changed (some old) resource = not (plugins_config_equal old.plugins resource.plugins)

-- ok2 && oldConfig.Version >= instance.ResourceVersion
abbrev pub is_handled : Option PodPluginConfig → AmeshPluginConfigResource → Bool
is_handled none resource = false
is_handled (some old) resource = text_le resource.resource_version old.version

module _ {Selector Receiver : Type 0} (api : SelectorApi Selector)
    (cluster : Cluster Selector) where
  -- The branch of a config that is not found. The cached plugins go first; if the pods cannot be
  -- listed, the selector stays.
  unfoldable pub reconcile_deleted :
      Request → Reconciler Selector Receiver → Reconciled Selector Receiver
  unfolding notify_deleted
  reconcile_deleted req r =
      let forgotten = record r { plugins_cache = delete (request_key req) r.plugins_cache } in
      let dropped = delete (request_key req) r.selector_cache in
      elim (lookup (request_key req) r.selector_cache) [
        | none ↦ record { state = record forgotten { selector_cache = dropped }; end = ok tt }
        | some old_selector ↦
            notify_deleted api cluster req forgotten (cluster.list_pods req.namespace old_selector)
      ]

  -- the part of Reconcile after DiffPods, with what DiffPods returns
  unfoldable pub notify_result :
      Option Selector
      → Bool
      → Request
      → AmeshPluginConfigResource
      → Selector
      → Reconciler Selector Receiver
      → Result PodDiff
      → Reconciled Selector Receiver
  unfolding notify_pods finish
  notify_result old_selector changed req resource new_selector r panic = record {
    state = r;
    end = panic;
  }
  notify_result old_selector changed req resource new_selector r (err message) = record {
    state = r;
    end = err message;
  }
  notify_result old_selector changed req resource new_selector r (ok d) =
      finish api cluster resource
        (notify_pods api cluster old_selector new_selector changed req d r)

  -- the part of Reconcile after Update, with the old selector and the old config
  unfoldable pub reconcile_changed :
      Option Selector
      → Option PodPluginConfig
      → Request
      → AmeshPluginConfigResource
      → Selector
      → Reconciler Selector Receiver
      → Reconciled Selector Receiver
  unfolding diff_pods notify_result
  reconcile_changed old_selector old_config req resource new_selector r =
      let cached = record r {
        plugins_cache = insert (request_key req) (new_config req resource) r.plugins_cache;
      } in
      let changed = plugin_changed old_config resource in
      notify_result old_selector changed req resource new_selector cached
        (diff_pods (cluster.list_pods req.namespace) (or_everything api old_selector) new_selector)

  -- the part of Reconcile after the tests of the version, with what Update returns
  unfoldable pub reconcile_updated :
      Option Selector
      → Option PodPluginConfig
      → Request
      → AmeshPluginConfigResource
      → Reconciler Selector Receiver
      → Result (Selector × Map Selector)
      → Reconciled Selector Receiver
  unfolding reconcile_changed
  reconcile_updated old_selector old_config req resource r panic = record { state = r; end = panic }
  reconcile_updated old_selector old_config req resource r (err message) = record {
    state = r;
    end = err message;
  }
  reconcile_updated old_selector old_config req resource r (ok updated) =
      reconcile_changed old_selector old_config req resource updated.0
        (record r { selector_cache = updated.1 })

  -- the part of Reconcile for a config that is found
  unfoldable pub reconcile_found :
      Request
      → AmeshPluginConfigResource
      → Reconciler Selector Receiver
      → Reconciled Selector Receiver
  unfolding update_selector reconcile_updated
  reconcile_found req resource r =
      let old_config = lookup (request_key req) r.plugins_cache in
      let old_selector = lookup (request_key req) r.selector_cache in
      if is_some resource.deletion_timestamp
      then record { state = r; end = ok tt }
      else if is_handled old_config resource
      then record { state = r; end = ok tt }
      else reconcile_updated old_selector old_config req resource r
          (update_selector api (request_key req) resource.selector r.selector_cache)

  unfoldable pub reconcile : Request → Reconciler Selector Receiver → Reconciled Selector Receiver
  unfolding reconcile_deleted reconcile_found
  reconcile req r = elim (cluster.get req) [
    | found resource ↦ reconcile_found req resource r
    | not_found ↦ reconcile_deleted req r
    | failed message ↦ record { state = r; end = err message }
  ]
