-- ===== src/Xds/Patch/Kept.antt =====
-- Which plugins are in a route after patchAmeshPlugins.
use amesh.Prelude.{
  String, ◌≡◌, refl, sym, List, [], ◌∷◌, ◌++◌, Option, none, some, Map, lookup, is_some,
  lookup-insert, ◌==◌, eq_iff, arith, inl, inr, text-cases, if◌then◌else◌,
}
use amesh.Apisix.Plugin.{Plugin, ext_plugin, custom, ApisixPlugin, ApisixExtPlugin}
use mathlib.Core.List.{append-nil, append_assoc}
use amesh.Apisix.Compare.Latest.{latest, or_else}
use amesh.Xds.Patch.{
  Patched, as_ext, type_pre_request, type_post_request, ext_plugin_pre_req, ext_plugin_post_req,
  keep_known, patch_one, patch_loop, set_ext, patch_plugins,
}

lookup-keep_known :
    (k : String) (known : Map ApisixPlugin) (m : Map Plugin)
    → lookup k (keep_known known m) ≡ (if is_some (lookup k known) then lookup k m else none)
unfolding keep_known lookup
lookup-keep_known k known [] = ground arith
lookup-keep_known k known ((j, p) ∷ m) = ground (arith, lookup-keep_known k known m, eq_iff j k)

-- the plugins that go into a route under their own name
unfoldable pub direct_plugins : Map ApisixPlugin → List ApisixPlugin
direct_plugins [] = []
direct_plugins ((_, p) ∷ m) = let rest = direct_plugins m in if p.type == "" then p ∷ rest else rest

-- the plugins of a type of external plugins
unfoldable pub ext_plugins : String → Map ApisixPlugin → List ApisixExtPlugin
ext_plugins type [] = []
ext_plugins type ((_, p) ∷ m) =
    let rest = ext_plugins type m in if p.type == type then as_ext p ∷ rest else rest

abbrev pub custom_of : Option ApisixPlugin → Option Plugin
custom_of none = none
custom_of (some p) = some (custom p.config)

lookup-patch_one :
    (k : String) (p : ApisixPlugin) (s : Patched)
    → lookup k (patch_one p s).plugins ≡ (
        if p.type == ""
        then (if p.name == k then some (custom p.config) else lookup k s.plugins)
        else lookup k s.plugins)
unfolding patch_one
lookup-patch_one k p s = ground (arith, lookup-insert p.name k (custom p.config) s.plugins)

lookup-patch_loop :
    (k : String) (m : Map ApisixPlugin) (s : Patched)
    → lookup k (patch_loop m s).plugins
      ≡ or_else (custom_of (latest (λ p. p.name) k (direct_plugins m))) (lookup k s.plugins)
unfolding patch_loop direct_plugins latest
lookup-patch_loop k [] s = refl
lookup-patch_loop k ((j, p) ∷ m) s =
    ground (arith, lookup-patch_loop k m (patch_one p s), lookup-patch_one k p s)

pre_req-patch_one :
    (p : ApisixPlugin) (s : Patched)
    → (patch_one p s).pre_req
      ≡ (if p.type == type_pre_request then s.pre_req ++ as_ext p ∷ [] else s.pre_req)
unfolding patch_one
pre_req-patch_one p s =
    ground (arith, eq_iff p.type "", eq_iff p.type type_pre_request, eq_iff type_pre_request "")

post_req-patch_one :
    (p : ApisixPlugin) (s : Patched)
    → (patch_one p s).post_req
      ≡ (if p.type == type_post_request then s.post_req ++ as_ext p ∷ [] else s.post_req)
unfolding patch_one
post_req-patch_one p s = ground (
  arith,
  eq_iff p.type "",
  eq_iff p.type type_pre_request,
  eq_iff p.type type_post_request,
  eq_iff type_post_request "",
  eq_iff type_pre_request type_post_request,
)

pre_req-patch_loop :
    (m : Map ApisixPlugin) (s : Patched)
    → (patch_loop m s).pre_req ≡ s.pre_req ++ ext_plugins type_pre_request m
unfolding patch_loop ext_plugins
pre_req-patch_loop [] s = sym (append-nil s.pre_req)
pre_req-patch_loop ((j, p) ∷ m) s = ground (
  arith,
  pre_req-patch_loop m (patch_one p s),
  pre_req-patch_one p s,
  append_assoc s.pre_req (as_ext p ∷ []) (ext_plugins type_pre_request m),
)

post_req-patch_loop :
    (m : Map ApisixPlugin) (s : Patched)
    → (patch_loop m s).post_req ≡ s.post_req ++ ext_plugins type_post_request m
unfolding patch_loop ext_plugins
post_req-patch_loop [] s = sym (append-nil s.post_req)
post_req-patch_loop ((j, p) ∷ m) s = ground (
  arith,
  post_req-patch_loop m (patch_one p s),
  post_req-patch_one p s,
  append_assoc s.post_req (as_ext p ∷ []) (ext_plugins type_post_request m),
)

-- The external plugins under one of their two keys, or what is there when there are none.
abbrev pub or_ext : List ApisixExtPlugin → Option Plugin → Option Plugin
or_ext [] rest = rest
or_ext (x ∷ conf) rest = some (ext_plugin (record { conf = x ∷ conf }))

lookup-set_ext :
    (k key : String) (conf : List ApisixExtPlugin) (plugins : Map Plugin)
    → lookup k (set_ext key conf plugins)
      ≡ (if key == k then or_ext conf (lookup k plugins) else lookup k plugins)
lookup-set_ext k key [] plugins = unfold set_ext in ground arith
lookup-set_ext k key (x ∷ conf) plugins =
    unfold set_ext in
    ground (arith, lookup-insert key k (ext_plugin (record { conf = x ∷ conf })) plugins)

-- the controller's plugin of the name that has no type; failing that, what the route had, if the
-- controller names it at all
abbrev pub own_plugin : String → Map ApisixPlugin → Map Plugin → Option Plugin
own_plugin k known plugins =
    or_else (custom_of (latest (λ p. p.name) k (direct_plugins known)))
      (if is_some (lookup k known) then lookup k plugins else none)

-- no name is both keys
one_key :
    (k : String) (a b : Option Plugin) (f : Option Plugin → Option Plugin)
    → (if ext_plugin_post_req == k
        then f (if ext_plugin_pre_req == k then a else b)
        else if ext_plugin_pre_req == k
        then a
        else b)
      ≡ (if ext_plugin_post_req == k then f b else if ext_plugin_pre_req == k then a else b)
one_key k a b f = elim (text-cases ext_plugin_post_req k) [
  | inl (h, e) ↦ rw (h, ← e) refl
  | inr (h, n) ↦ rw h refl
]

-- After the patch a route has, under the key of the external plugins of either type, the
-- controller's plugins of that type, in the order of the map, if there are any. Under every other
-- name, and under these two when there are none, it has the controller's plugin of that name that
-- has no type; failing that, what it had, if the controller names it; and otherwise nothing.
pub lookup-patch_plugins :
    (k : String) (known : Map ApisixPlugin) (plugins : Map Plugin)
    → lookup k (patch_plugins known plugins) ≡ (
        if ext_plugin_post_req == k
        then or_ext (ext_plugins type_post_request known) (own_plugin k known plugins)
        else if ext_plugin_pre_req == k
        then or_ext (ext_plugins type_pre_request known) (own_plugin k known plugins)
        else own_plugin k known plugins)
unfolding patch_plugins
lookup-patch_plugins k known plugins =
    rw
      (
        lookup-set_ext, lookup-set_ext, lookup-patch_loop, lookup-keep_known, pre_req-patch_loop,
        post_req-patch_loop,
      )
      (one_key k _ _ (or_ext (ext_plugins type_post_request known)))
