-- ===== src/Tests/Plugins.antt =====
-- Tests of the controller's responses and of their way into a route.
use amesh.Prelude.{String, true, ◌≡◌, refl, [], ◌∷◌, Option, none, some, Map, lookup}
use amesh.Apisix.Plugin.{
  Config, end, Plugin, ext_plugin, prometheus, ApisixPlugin, plugin_prometheus,
}
use amesh.Apisix.Compare.Latest.{latest}
use amesh.Amesh.{AmeshPluginConfig, PluginsResponse, update_plugins, new_amesh_provisioner}
use amesh.Amesh.Update.{lookup-update_plugins, decode, fresh_plugins}
use amesh.Xds.Patch.{patch_plugins, ext_plugin_pre_req, type_pre_request}
use amesh.Xds.Patch.Kept.{lookup-patch_plugins, ext_plugins}

-- A decoder that knows one text.
abbrev pub parse_any : String → Option Config
parse_any _ = some end

abbrev limit_config : AmeshPluginConfig
limit_config = record {
  name = "limits";
  plugins = record { type = ""; name = "limit-req"; config = "{}" } ∷ [];
  version = "1";
}

abbrev pub limits : PluginsResponse
limits = record { error_message = none; plugins = limit_config ∷ [] }

lookup-update_plugins_example :
    lookup "limit-req" (update_plugins parse_any limits new_amesh_provisioner).config
    ≡ latest
        (λ q. q.name)
        "limit-req"
        (decode parse_any
          (fresh_plugins parse_any new_amesh_provisioner.config_revision limits.plugins))
lookup-update_plugins_example =
    lookup-update_plugins parse_any "limit-req" limits new_amesh_provisioner refl

abbrev known : Map ApisixPlugin
known =
    ("limit-req", record { type = ""; name = "limit-req"; config = end })
    ∷ ("auth", record { type = type_pre_request; name = "auth"; config = end })
    ∷ []

abbrev route_plugins : Map Plugin
route_plugins = (plugin_prometheus, prometheus (record { prefer_name = true })) ∷ []

lookup-patch_plugins_example :
    lookup ext_plugin_pre_req (patch_plugins known route_plugins)
    ≡ some (ext_plugin (record { conf = record { name = "auth"; value = end } ∷ [] }))
unfolding ext_plugins
lookup-patch_plugins_example = lookup-patch_plugins ext_plugin_pre_req known route_plugins
