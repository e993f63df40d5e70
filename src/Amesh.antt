-- ===== src/Amesh.antt =====
-- The Amesh provisioner of pkg/amesh/provisioner/amesh.go: the plugins that the controller sends.
pub mod Update
pub mod Repeat
pub mod Connection
pub mod Locks
use amesh.Prelude.{
  ℕ, ◌+◌, String, Bool, true, false, List, [], ◌∷◌, Option, none, some, Map, lookup, insert, Result,
  ok, err, panic, if◌then◌else◌,
}
use amesh.Prelude.Text.{text_le}
use amesh.Apisix.Plugin.{ApisixPlugin, Config}

-- ameshapi.AmeshPlugin, AmeshPluginConfig and PluginsResponse
pub record AmeshPlugin : Type 0 where
  pub type : String
  pub name : String
  pub config : String

pub record AmeshPluginConfig : Type 0 where
  pub name : String
  pub plugins : List AmeshPlugin
  pub version : String

pub record PluginsResponse : Type 0 where
  pub error_message : Option String
  pub plugins : List AmeshPluginConfig

-- The state of ameshProvisioner; `events` counts what was sent to evChan.
pub record AmeshProvisioner : Type 0 where
  pub config : Map ApisixPlugin
  pub config_revision : Map String
  pub connected : Bool
  pub ready : Bool
  pub events : ℕ

-- the state that NewAmeshProvisioner returns
unfoldable pub new_amesh_provisioner : AmeshProvisioner
new_amesh_provisioner = record {
  config = [];
  config_revision = [];
  connected = false;
  ready = false;
  events = 0;
}

-- the test that passes a plugin config over: its version is not above the recorded one
unfoldable pub is_stale : Map String → AmeshPluginConfig → Bool
is_stale revision_map c = elim (lookup c.name revision_map) [
  | none ↦ false
  | some revision ↦ text_le c.version revision
]

-- json.Unmarshal into map[string]interface{} is a parameter.
module _ (unmarshal : String → Option Config) where
  -- the loop over pluginConfig.Plugins
  unfoldable pub plugin_loop : Map ApisixPlugin → List AmeshPlugin → Map ApisixPlugin
  plugin_loop plugins [] = plugins
  plugin_loop plugins (plugin ∷ rest) = elim (unmarshal plugin.config) [
    | none ↦ plugin_loop plugins rest
    | some value ↦
        plugin_loop
          (insert plugin.name (record { type = plugin.type; name = plugin.name; config = value })
            plugins)
          rest
  ]

  -- the loop over resp.Plugins: the new revisions and the new plugins
  unfoldable pub config_loop :
      Map String
      → Map String
      → Map ApisixPlugin
      → List AmeshPluginConfig
      → Map String × Map ApisixPlugin
  config_loop revision_map revisions plugins [] = (revisions, plugins)
  config_loop revision_map revisions plugins (c ∷ rest) = elim (is_stale revision_map c) [
    | true ↦ config_loop revision_map revisions plugins rest
    | false ↦
        config_loop revision_map (insert c.name c.version revisions) (plugin_loop plugins c.plugins)
          rest
  ]

  unfoldable pub update_plugins : PluginsResponse → AmeshProvisioner → AmeshProvisioner
  unfolding config_loop
  update_plugins resp p = elim resp.error_message [
    | some message ↦ p
    | none ↦
        let (revisions, plugins) = config_loop p.config_revision [] [] resp.plugins in
        record p { config = plugins; config_revision = revisions; events = p.events + 1 }
  ]

-- A call through a nil provisioner panics.
unfoldable pub get_plugins : Option AmeshProvisioner → Result (Map ApisixPlugin)
get_plugins none = panic
get_plugins (some p) = ok p.config
