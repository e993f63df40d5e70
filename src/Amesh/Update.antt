-- ===== src/Amesh/Update.antt =====
-- What updatePlugins of pkg/amesh/provisioner/amesh.go does with fresh and with repeated configs.
use amesh.Prelude.{
  String, Bool, true, not, ◌≡◌, refl, List, [], ◌∷◌, ◌++◌, Option, none, some, Map, lookup, insert,
  lookup-insert, All, arith, inl, inr, Bool-cases, Option-cases, if◌then◌else◌,
}
use amesh.Prelude.Text.{text_le}
use amesh.Apisix.Plugin.{ApisixPlugin, Config}
use amesh.Apisix.Compare.Latest.{latest, latest-append, or_else}
use amesh.Amesh.{
  AmeshPlugin, AmeshPluginConfig, PluginsResponse, AmeshProvisioner, is_stale, plugin_loop,
  config_loop, update_plugins,
}

module _ (unmarshal : String → Option Config) where
  config_loop-stale :
      (revision_map revisions : Map String) (plugins : Map ApisixPlugin)
      (cs : List AmeshPluginConfig)
      → All (λ c. is_stale revision_map c ≡ true) cs
      → config_loop unmarshal revision_map revisions plugins cs ≡ (revisions, plugins)
  unfolding config_loop
  config_loop-stale revision_map revisions plugins [] h = refl
  config_loop-stale revision_map revisions plugins (c ∷ cs) h =
      ground (arith, h.0, config_loop-stale revision_map revisions plugins cs h.1)

  -- A response without an error, whose configs are all recorded already, at these versions or later
  -- ones, empties both the plugins and the revisions.
  pub update_plugins-stale :
      (resp : PluginsResponse) (p : AmeshProvisioner)
      → resp.error_message ≡ none
      → All (λ c. is_stale p.config_revision c ≡ true) resp.plugins
      → ((update_plugins unmarshal resp p).config ≡ [])
        × ((update_plugins unmarshal resp p).config_revision ≡ [])
  unfolding update_plugins
  update_plugins-stale resp p e h =
      rw (e, config_loop-stale p.config_revision [] [] resp.plugins h) (refl, refl)

  -- A response with an error message changes nothing.
  update_plugins-error :
      (resp : PluginsResponse) (p : AmeshProvisioner) {message : String}
      → resp.error_message ≡ some message
      → update_plugins unmarshal resp p ≡ p
  unfolding update_plugins
  update_plugins-error resp p e = rw e

  -- the plugins whose configuration parses
  unfoldable pub decode : List AmeshPlugin → List ApisixPlugin
  decode [] = []
  decode (q ∷ qs) = elim (unmarshal q.config) [
    | none ↦ decode qs
    | some value ↦ record { type = q.type; name = q.name; config = value } ∷ decode qs
  ]

  lookup-plugin_loop :
      (k : String) (m : Map ApisixPlugin) (qs : List AmeshPlugin)
      → lookup k (plugin_loop unmarshal m qs)
        ≡ or_else (latest (λ q. q.name) k (decode qs)) (lookup k m)
  unfolding plugin_loop decode latest
  lookup-plugin_loop k m [] = refl
  lookup-plugin_loop k m (q ∷ qs) = elim (Option-cases (unmarshal q.config)) [
    | inl e ↦ ground (arith, lookup-plugin_loop k m qs)
    | inr (value, e) ↦
        let plugin : ApisixPlugin = record { type = q.type; name = q.name; config = value } in
        ground
          (arith, lookup-plugin_loop k (insert q.name plugin m) qs, lookup-insert q.name k plugin m)
  ]

  -- No version is recorded, or this one comes after it in the order of texts, in which "10" is
  -- before "9".
  abbrev pub is_newer : Option String → String → Bool
  is_newer none version = true
  is_newer (some recorded) version = not (text_le version recorded)

  -- the plugins of the configs that are newer than what is recorded
  unfoldable pub fresh_plugins : Map String → List AmeshPluginConfig → List AmeshPlugin
  fresh_plugins revision_map [] = []
  fresh_plugins revision_map (c ∷ cs) =
      let rest = fresh_plugins revision_map cs in
      if is_newer (lookup c.name revision_map) c.version then c.plugins ++ rest else rest

  pub is_newer-eq-not :
      (revision_map : Map String) (c : AmeshPluginConfig)
      → is_newer (lookup c.name revision_map) c.version ≡ not (is_stale revision_map c)
  unfolding is_stale
  is_newer-eq-not revision_map c = ground arith

  decode-append : (qs rs : List AmeshPlugin) → decode (qs ++ rs) ≡ decode qs ++ decode rs
  unfolding decode
  decode-append [] rs = refl
  decode-append (q ∷ qs) rs = ground (arith, decode-append qs rs)

  lookup-config_loop :
      (k : String) (revision_map revisions : Map String) (m : Map ApisixPlugin)
      (cs : List AmeshPluginConfig)
      → lookup k (config_loop unmarshal revision_map revisions m cs).1
        ≡ or_else (latest (λ q. q.name) k (decode (fresh_plugins revision_map cs))) (lookup k m)
  unfolding config_loop fresh_plugins decode latest
  lookup-config_loop k revision_map revisions m [] = refl
  lookup-config_loop k revision_map revisions m (c ∷ cs) =
      elim (Bool-cases (is_stale revision_map c)) [
        | inl e ↦ ground (
          arith,
          is_newer-eq-not revision_map c,
          lookup-config_loop k revision_map revisions m cs,
        )
        | inr e ↦ ground (
          arith,
          is_newer-eq-not revision_map c,
          lookup-config_loop k revision_map (insert c.name c.version revisions)
              (plugin_loop unmarshal m c.plugins) cs,
          lookup-plugin_loop k m c.plugins,
          decode-append c.plugins (fresh_plugins revision_map cs),
          latest-append (λ (q : ApisixPlugin). q.name) k (decode c.plugins)
              (decode (fresh_plugins revision_map cs)),
        )
      ]

  -- After a response without an error the provisioner has, under each name, the last plugin that
  -- parses among the configs of the response that have no recorded version or one that comes after
  -- the recorded one in the order of texts, and nothing under a name that no such plugin has.
  pub lookup-update_plugins :
      (k : String) (resp : PluginsResponse) (p : AmeshProvisioner)
      → resp.error_message ≡ none
      → lookup k (update_plugins unmarshal resp p).config
        ≡ latest (λ q. q.name) k (decode (fresh_plugins p.config_revision resp.plugins))
  unfolding update_plugins lookup
  lookup-update_plugins k resp p e =
      ground (arith, lookup-config_loop k p.config_revision [] [] resp.plugins)
