-- ===== src/Xds/Mirror.antt =====
-- translateRouteMirror of pkg/amesh/provisioner/route_translator.go, whose only call is commented
-- out. The policies are those of the route action, and the map is that of the route's plugins.
use Prim.Native.String.{◌++◌ as ◌+++◌}
use amesh.Prelude.{
  ℕ, String, List, [], ◌∷◌, Option, none, some, Map, lookup, insert, leb, if◌then◌else◌,
}
use amesh.Apisix.Plugin.{Plugin, proxy_mirror, plugin_proxy_mirror}
use amesh.Apisix.Upstream.{Upstream}
use amesh.Xds.Envoy.{FractionalPercent}
use amesh.Xds.Fault.{convert_runtime_percent}

-- RouteAction_RequestMirrorPolicy
pub record RequestMirrorPolicy : Type 0 where
  pub cluster : String
  pub runtime_fraction : Option (Option FractionalPercent)

-- the percentage, by default 100
unfoldable pub mirror_percent : RequestMirrorPolicy → ℕ
unfolding convert_runtime_percent
mirror_percent mirror =
    let percent = convert_runtime_percent mirror.runtime_fraction in
    if leb percent 0 then 100 else percent

-- the host of the plugin: that of the first node, or the cluster's id, which is to be patched
unfoldable pub mirror_host : (String → String) → String → Option Upstream → String
mirror_host gen_id cluster none = gen_id cluster
mirror_host gen_id cluster (some upstream) = elim upstream.nodes [
  | [] ↦ gen_id cluster
  | node ∷ _ ↦ upstream.scheme +++ ("://" +++ node.host)
]

unfoldable pub translate_route_mirror :
    (String → String) → Map Upstream → List RequestMirrorPolicy → Map Plugin → Map Plugin
unfolding mirror_percent mirror_host
translate_route_mirror gen_id upstreams [] plugins = plugins
translate_route_mirror gen_id upstreams (mirror ∷ _) plugins =
    insert plugin_proxy_mirror
      (proxy_mirror (record {
        host = mirror_host gen_id mirror.cluster (lookup mirror.cluster upstreams);
        path = "";
        sample_percent = mirror_percent mirror;
      }))
      plugins
