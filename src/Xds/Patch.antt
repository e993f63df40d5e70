-- ===== src/Xds/Patch.antt =====
-- patchAmeshPlugins of pkg/amesh/provisioner/route_translator.go: the plugins of the controller go
-- into a route, and a plugin that the controller does not name is deleted from it.
pub mod Kept
use amesh.Prelude.{
  String, Bool, true, false, List, [], ◌∷◌, ◌++◌, Option, Map, lookup, insert, is_some, Result, ok,
  ◌>>=◌, ◌==◌, if◌then◌else◌,
}
use amesh.Apisix.Plugin.{
  Plugin, ext_plugin, custom, ApisixPlugin, ApisixExtPlugin, ApisixExtPluginConfig,
}
use amesh.Apisix.Route.{Route}
use amesh.Amesh.{AmeshProvisioner, get_plugins}

abbrev pub ext_plugin_pre_req : String
ext_plugin_pre_req = "ext-plugin-pre-req"

abbrev pub ext_plugin_post_req : String
ext_plugin_post_req = "ext-plugin-post-req"

-- ameshv1alpha1.AmeshPluginConfigTypePreRequest and AmeshPluginConfigTypePostRequest
abbrev pub type_pre_request : String
type_pre_request = "pre-req"

abbrev pub type_post_request : String
type_post_request = "post-req"

-- for pluginName := range route.Plugins { if not in ameshPlugins { delete } }
unfoldable pub keep_known : Map ApisixPlugin → Map Plugin → Map Plugin
keep_known known [] = []
keep_known known ((name, plugin) ∷ m) =
    let rest = keep_known known m in
    if is_some (lookup name known) then (name, plugin) ∷ rest else rest

-- the variables of the loop over ameshPlugins
pub record Patched : Type 0 where
  pub plugins : Map Plugin
  pub pre_req : List ApisixExtPlugin
  pub post_req : List ApisixExtPlugin

abbrev pub as_ext : ApisixPlugin → ApisixExtPlugin
as_ext plugin = record { name = plugin.name; value = plugin.config }

-- one round of the loop: the switch on plugin.Type
unfoldable pub patch_one : ApisixPlugin → Patched → Patched
patch_one plugin s =
    if plugin.type == ""
    then record s { plugins = insert plugin.name (custom plugin.config) s.plugins }
    else if plugin.type == type_pre_request
    then record s { pre_req = s.pre_req ++ as_ext plugin ∷ [] }
    else if plugin.type == type_post_request
    then record s { post_req = s.post_req ++ as_ext plugin ∷ [] }
    else s

unfoldable pub patch_loop : Map ApisixPlugin → Patched → Patched
patch_loop [] s = s
patch_loop ((_, plugin) ∷ m) s = patch_loop m (patch_one plugin s)

-- if len(conf) > 0 { plugins[key] = conf }
unfoldable pub set_ext : String → List ApisixExtPlugin → Map Plugin → Map Plugin
set_ext key [] plugins = plugins
set_ext key (x ∷ conf) plugins = insert key (ext_plugin (record { conf = x ∷ conf })) plugins

unfoldable pub patch_plugins : Map ApisixPlugin → Map Plugin → Map Plugin
unfolding keep_known patch_loop set_ext
patch_plugins amesh_plugins plugins =
    let s =
      patch_loop amesh_plugins
        (record { plugins = keep_known amesh_plugins plugins; pre_req = []; post_req = [] }) in
    set_ext ext_plugin_post_req s.post_req (set_ext ext_plugin_pre_req s.pre_req s.plugins)

unfoldable pub patch_amesh_plugins : Option AmeshProvisioner → Route → Result Route
unfolding patch_plugins
patch_amesh_plugins amesh route = do
  amesh_plugins ← get_plugins amesh
  ok (record route { plugins = patch_plugins amesh_plugins route.plugins })
