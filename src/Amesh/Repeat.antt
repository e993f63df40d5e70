-- ===== src/Amesh/Repeat.antt =====
-- A response that is sent twice: updatePlugins of pkg/amesh/provisioner/amesh.go drops at the second
-- time what it took at the first.
use text.Mathlib.TextPositions.{compare_refl}
use amesh.Prelude.{
  String, true, false, ◌≡◌, refl, List, [], ◌∷◌, Option, none, some, Map, lookup, insert,
  lookup-insert, All, All-map, arith,
}
use amesh.Prelude.Text.{text_le}
use amesh.Apisix.Plugin.{ApisixPlugin, Config}
use amesh.Apisix.Compare.Latest.{latest, or_else}
use amesh.Amesh.{
  AmeshPluginConfig, PluginsResponse, AmeshProvisioner, is_stale, plugin_loop, config_loop,
  update_plugins,
}
use amesh.Amesh.Update.{update_plugins-stale}

abbrev pub version_of : Option AmeshPluginConfig → Option String
version_of none = none
version_of (some c) = some c.version

text_le_refl : (s : String) → text_le s s ≡ true
text_le_refl s = rw compare_refl

module _ (unmarshal : String → Option Config) where
  lookup-revisions :
      (n : String) (revision_map revisions : Map String) (m : Map ApisixPlugin)
      (cs : List AmeshPluginConfig)
      → All (λ c. is_stale revision_map c ≡ false) cs
      → lookup n (config_loop unmarshal revision_map revisions m cs).0
        ≡ or_else (version_of (latest (λ c. c.name) n cs)) (lookup n revisions)
  unfolding config_loop latest
  lookup-revisions n revision_map revisions m [] h = refl
  lookup-revisions n revision_map revisions m (c ∷ cs) h = ground (
    arith,
    h.0,
    lookup-revisions n revision_map (insert c.name c.version revisions)
        (plugin_loop unmarshal m c.plugins) cs h.1,
    lookup-insert c.name n c.version revisions,
  )

  pub recorded_stale :
      (revisions : Map String) (c : AmeshPluginConfig)
      → lookup c.name revisions ≡ some c.version
      → is_stale revisions c ≡ true
  unfolding is_stale
  recorded_stale revisions c h = rw (h, is_stale) (text_le_refl c.version)

  -- If a response has no error and every config of it is newer than what is recorded and is the last
  -- one of its name, then handling the response twice leaves no plugin at all.
  update_plugins_twice :
      (resp : PluginsResponse) (p : AmeshProvisioner)
      → resp.error_message ≡ none
      → All (λ c. is_stale p.config_revision c ≡ false) resp.plugins
      → All (λ c. latest (λ c. c.name) c.name resp.plugins ≡ some c) resp.plugins
      → (update_plugins unmarshal resp (update_plugins unmarshal resp p)).config ≡ []
  update_plugins_twice resp p e fresh last =
      (update_plugins-stale unmarshal resp (update_plugins unmarshal resp p) e
        (All-map resp.plugins (λ c l. recorded_stale _ c (recorded c l)) last)).0
    where
      recorded :
          (c : AmeshPluginConfig)
          → latest (λ c. c.name) c.name resp.plugins ≡ some c
          → lookup c.name (update_plugins unmarshal resp p).config_revision ≡ some c.version
      recorded c l =
          unfold update_plugins lookup in
          ground (arith, e, l, lookup-revisions c.name p.config_revision [] [] resp.plugins fresh)
