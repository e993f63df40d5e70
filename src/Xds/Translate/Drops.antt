-- ===== src/Xds/Translate/Drops.antt =====
-- What UpdateRoutesPlugin of pkg/amesh/provisioner/xds.go leaves of the plugins of the routes.
use amesh.Prelude.{
  String, false, ◌≡◌, refl, ap, List, [], ◌∷◌, none, some, lookup, map, ok, All, ◌==◌,
}
use amesh.Apisix.Compare.Latest.{latest}
use amesh.Apisix.Route.{Route, copy}
use amesh.Manifest.{Event, empty_manifest, generate_incremental_events}
use amesh.Amesh.{AmeshProvisioner, get_plugins}
use amesh.Xds.Externals.{Externals}
use amesh.Xds.Patch.{ext_plugin_pre_req, ext_plugin_post_req, patch_amesh_plugins, patch_plugins}
use amesh.Xds.Patch.Kept.{lookup-patch_plugins, direct_plugins}
use amesh.Xds.Provisioner.{XdsProvisioner}
use amesh.Xds.Translate.{patch_routes, update_routes_plugin}

-- No plugin of the map that goes into a route has the name.
abbrev pub IsUnnamed : String → AmeshProvisioner → Type 0
IsUnnamed k a =
    (lookup k a.config ≡ none)
    × (latest (λ p. p.name) k (direct_plugins a.config) ≡ none)
    × ((ext_plugin_pre_req == k) ≡ false)
    × ((ext_plugin_post_req == k) ≡ false)

module _ (ext : Externals) (k : String) (a : AmeshProvisioner) (unnamed : IsUnnamed k a) where
  patch_routes-drops :
      (rs : List Route)
      → (qs : List Route) × (patch_routes ext (some a) rs ≡ ok qs)
        × All (λ q. lookup k q.plugins ≡ none) qs
        × (map (λ q. q.id) qs ≡ map (λ r. r.id) rs)
  unfolding patch_routes patch_amesh_plugins get_plugins copy
  patch_routes-drops [] = ([], refl, tt, refl)
  patch_routes-drops (r ∷ rs) =
      let (qs, e, drops, ids) = patch_routes-drops rs in
      let (lacks, undirected, pre, post) = unnamed in
      (
        record (copy r) { plugins = patch_plugins a.config (copy r).plugins } ∷ qs,
        rw e refl,
        (
          rw (lookup-patch_plugins k a.config (copy r).plugins, pre, post, undirected, lacks),
          drops,
        ),
        ap (◌∷◌ r.id) ids,
      )

  -- With a controller, UpdateRoutesPlugin always succeeds; the routes keep their ids in their order,
  -- and none of them keeps a plugin under a name that the controller's plugins do not use and that
  -- is not one of the two of the external plugins.
  pub update_routes_plugin-drops :
      (p : XdsProvisioner)
      → p.amesh ≡ some a
      → (q : XdsProvisioner) × (es : List Event) × (update_routes_plugin ext p ≡ ok (q, es))
        × All (λ r. lookup k r.plugins ≡ none) q.routes
        × (map (λ r. r.id) q.routes ≡ map (λ r. r.id) p.routes)
  unfolding update_routes_plugin
  update_routes_plugin-drops p h =
      let (qs, e, drops, ids) = patch_routes-drops p.routes in
      let es =
        generate_incremental_events ext.marshal (some (record empty_manifest { routes = qs }))
          (some (record empty_manifest { routes = p.routes })) in
      (record p { routes = qs }, es, rw (h, e) refl, drops, ids)
