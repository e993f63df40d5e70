-- ===== src/Tests/Provisioning.antt =====
-- Tests of the xDS provisioner: static routes, secrets and the plugins of the routes.
use amesh.Prelude.{◌≡◌, refl, List, [], ◌∷◌, map, none, some, true, lookup, ok, panic, All, inl}
use mathlib.Core.List.{flatten}
use amesh.Apisix.Compare.Latest.{latest}
use amesh.Apisix.Plugin.{plugin_prometheus, prometheus}
use amesh.Manifest.{Event}
use amesh.Amesh.{new_amesh_provisioner, get_plugins}
use amesh.Xds.Envoy.{secret_url, validation_context}
use amesh.Xds.Externals.{Externals}
use amesh.Xds.Match.{get_cluster_name, get_url, get_parameters_match_vars, get_headers_match_vars}
use amesh.Xds.Patch.{patch_amesh_plugins}
use amesh.Xds.Patch.Kept.{direct_plugins}
use amesh.Xds.Split.{translate_route_plugins}
use amesh.Xds.VirtualHost.{translate_route_configuration}
use amesh.Xds.Provisioner.{XdsProvisioner, Translated}
use amesh.Xds.Rds.{translate_rds}
use amesh.Xds.Rds.Static.{resource_name, resource_routes, translate_rds-routes}
use amesh.Xds.Translate.{translate_round, update_routes_plugin}
use amesh.Xds.Translate.Drops.{update_routes_plugin-drops}
use amesh.System.{here}
use amesh.System.Secrets.{Reach-sds_panic}
use amesh.Tests.Resources.{plain_route, map_storage}
use amesh.Tests.Plugins.{parse_any}
use amesh.Tests.Running.{
  IsOk, value_of, value_of_lem, sample, shop_config, new_provisioner, routes_response, start,
}

abbrev with_static : XdsProvisioner
with_static = record new_provisioner { static_route_configurations = shop_config ∷ [] }

static_translated : IsOk (translate_rds sample routes_response.resources with_static)
unfolding translate_rds translate_route_configuration get_cluster_name get_url
    get_parameters_match_vars get_headers_match_vars patch_amesh_plugins get_plugins
    translate_route_plugins
static_translated = tt

abbrev from_response : Translated
from_response =
    value_of (translate_rds sample routes_response.resources with_static) static_translated

translate_rds-routes_example :
    (from_response.resource_names
      ≡ flatten (map (resource_name sample with_static.amesh) routes_response.resources))
    × (from_response.state.routes
        ≡ flatten (map (resource_routes sample with_static.amesh) routes_response.resources))
translate_rds-routes_example =
    translate_rds-routes sample routes_response.resources with_static from_response
      (value_of_lem _ static_translated)

abbrev measured : XdsProvisioner
measured = record new_provisioner {
  routes =
      record (plain_route "a" "one") {
        plugins = (plugin_prometheus, prometheus (record { prefer_name = true })) ∷ [];
      }
      ∷ [];
}

update_routes_plugin-drops_example :
    (q : XdsProvisioner) × (es : List Event) × (update_routes_plugin sample measured ≡ ok (q, es))
    × All (λ r. lookup plugin_prometheus r.plugins ≡ none) q.routes
    × (map (λ r. r.id) q.routes ≡ "a" ∷ [])
unfolding lookup latest direct_plugins new_amesh_provisioner
update_routes_plugin-drops_example =
    update_routes_plugin-drops sample plugin_prometheus new_amesh_provisioner
      (refl, refl, refl, refl) measured refl

-- A decoder that takes every resource for one secret.
abbrev with_secrets : Externals
with_secrets = record sample {
  unmarshal_secret = λ a. some (record { name = "ca"; type = validation_context "pem" });
}

Reach-sds_panic_example :
    translate_round with_secrets
      (record {
        type_url = secret_url;
        version_info = "1";
        nonce = "a";
        resources = routes_response.resources;
      })
      ""
      new_provisioner
    ≡ panic
Reach-sds_panic_example =
    Reach-sds_panic with_secrets parse_any map_storage {x = start} {y = start}
      routes_response.resources "1" "a" refl here (inl (λ e. cc e))
