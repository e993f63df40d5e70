-- ===== src/Xds/VirtualHost/Shape.antt =====
-- What every route has that translateVirtualHost of pkg/amesh/provisioner/route_translator.go makes.
use amesh.Prelude.{
  pos, String, true, ◌≡◌, refl, ap, List, [], ◌∷◌, ◌++◌, Option, none, some, lookup, lookup-insert,
  lookup-insert_self, ok, ok_injective, bind-ok, All, All-snoc, Result-cases, Bool-cases, inl, inr,
  arith, text-cases, eq_iff, ◌≢◌, ◌⊎◌,
}
use mathlib.Core.List.{Memᴰ}
use amesh.Apisix.Plugin.{prometheus, plugin_prometheus}
use amesh.Apisix.Route.{Route}
use amesh.Amesh.{AmeshProvisioner, get_plugins}
use amesh.Xds.Envoy.{
  XdsRoute, VirtualHost, ClusterSpecifier, cluster, weighted_clusters, unknown_cluster, RouteAction,
}
use amesh.Xds.Externals.{Externals}
use amesh.Xds.Patch.{patch_amesh_plugins}
use amesh.Xds.Match.{get_cluster_name, get_url, get_parameters_match_vars, get_headers_match_vars}
use amesh.Xds.Fault.{translate_route_filters}
use amesh.Xds.Split.{split_loop, translate_route_weighted_clusters, translate_route_plugins}
use amesh.Xds.VirtualHost.{
  is_insensitive, hosts_of, or_anon, priority_of, new_route, with_prometheus, translate_sensitive,
  route_loop, translate_virtual_host,
}

-- A route on the hosts: enabled, with the one path of the Istio route that it is made of, and with
-- priority 0 if that one is named "allow_any" or there are no hosts, and 999 otherwise.
pub record IsOn (hosts : List String) (route : XdsRoute) (r : Route) : Type 0 where
  pub same_hosts : r.hosts ≡ hosts
  pub enabled : r.status ≡ pos 1
  pub one_uri : (uri : String) × (get_url route ≡ ok uri) × (r.uris ≡ uri ∷ [])
  pub passed : route.name ≡ "allow_any" → r.priority ≡ pos 0
  pub hostless : hosts ≡ [] → r.priority ≡ pos 0
  pub default : route.name ≢ "allow_any" → hosts ≢ [] → r.priority ≡ pos 999

-- The route reports to prometheus.
abbrev pub IsMeasured : Route → Type 0
IsMeasured r =
    lookup plugin_prometheus r.plugins ≡ some (prometheus (record { prefer_name = true }))

-- The route is made of a route of the virtual host, and it is measured.
abbrev pub IsServedRoute : VirtualHost → Route → Type 0
IsServedRoute vhost r =
    (route : XdsRoute) × Memᴰ route vhost.routes × IsOn (hosts_of vhost) route r × IsMeasured r

priority_low :
    (name : String) (hosts : List String)
    → (name ≡ "allow_any") ⊎ (hosts ≡ [])
    → priority_of (or_anon name) hosts ≡ 0
unfolding priority_of
priority_low name hosts (inl e) = rw e refl
priority_low name hosts (inr e) = rw e (ground arith)

priority_high :
    (name : String) (hosts : List String)
    → name ≢ "allow_any"
    → hosts ≢ []
    → priority_of (or_anon name) hosts ≡ 999
unfolding priority_of
priority_high name [] n h = absurd (h refl)
priority_high name (host ∷ hosts) n h = elim (text-cases name "") [
  | inl (e, e') ↦ rw e' (ground arith)
  | inr (e, e') ↦ ground (arith, eq_iff name "allow_any")
]

module _ (gen_id : String → String) (hosts : List String) (source : XdsRoute) where
  weighted-IsOn :
      (c : ClusterSpecifier) (r q : Route)
      → IsOn hosts source r × IsMeasured r
      → translate_route_weighted_clusters gen_id c r ≡ ok q
      → IsOn hosts source q × IsMeasured q
  unfolding translate_route_weighted_clusters
  weighted-IsOn (cluster n) r q h e = rw (← ok_injective e) h
  weighted-IsOn unknown_cluster r q h e = rw (← ok_injective e) h
  weighted-IsOn (weighted_clusters cs) r q h e =
      let (weighted, e1, e2) = bind-ok (split_loop gen_id cs) _ e in
      rw (← ok_injective e2) (
        record {
          same_hosts = h.0.same_hosts;
          enabled = h.0.enabled;
          one_uri = h.0.one_uri;
          passed = h.0.passed;
          hostless = h.0.hostless;
          default = h.0.default;
        },
        rw lookup-insert h.1,
      )

  action-IsOn :
      (route : XdsRoute) (action : Option RouteAction) (r q : Route)
      → IsOn hosts source r × IsMeasured r
      → route.action ≡ action
      → translate_route_plugins gen_id route r ≡ ok q
      → IsOn hosts source q × IsMeasured q
  unfolding translate_route_plugins
  action-IsOn route none r q h a e = rw (← ok_injective (rw (a, translate_route_plugins) at e)) h
  action-IsOn route (some action) r q h a e =
      weighted-IsOn action.specifier r q h (rw (a, translate_route_plugins) at e)

module _ (ext : Externals) (amesh : Option AmeshProvisioner) (hosts : List String)
    (source : XdsRoute) where
  patched-IsOn :
      (r q : Route) → IsOn hosts source r → patch_amesh_plugins amesh r ≡ ok q → IsOn hosts source q
  unfolding patch_amesh_plugins
  patched-IsOn r q h e =
      let (plugins, e1, e2) = bind-ok (get_plugins amesh) _ e in
      rw (← ok_injective e2) (record {
        same_hosts = h.same_hosts;
        enabled = h.enabled;
        one_uri = h.one_uri;
        passed = h.passed;
        hostless = h.hostless;
        default = h.default;
      })

module _ (ext : Externals) (amesh : Option AmeshProvisioner) (route_name : String)
    (vhost : VirtualHost) where
  sensitive-IsOn :
      (hosts : List String) (route : XdsRoute) (q : Route)
      → translate_sensitive ext amesh route_name hosts vhost route ≡ ok q
      → IsOn hosts route q × IsMeasured q
  unfolding translate_sensitive new_route with_prometheus translate_route_filters
  sensitive-IsOn hosts route q e =
      let (c, e1, f1) = bind-ok (get_cluster_name route) _ e in
      let (uri, e2, f2) = bind-ok (get_url route) _ f1 in
      let (query_vars, e3, f3) = bind-ok (get_parameters_match_vars route) _ f2 in
      let (header_vars, e4, f4) = bind-ok (get_headers_match_vars route) _ f3 in
      let (r, e5, f5) =
        bind-ok
          (patch_amesh_plugins amesh
            (new_route ext amesh route_name hosts vhost route c uri (header_vars ++ query_vars)))
          _ f4 in
      let on =
        patched-IsOn ext amesh hosts route _ r
          (record {
            same_hosts = refl;
            enabled = refl;
            one_uri = (uri, e2, refl);
            passed = λ n. ap pos (priority_low route.name hosts (inl n));
            hostless = λ n. ap pos (priority_low route.name hosts (inr n));
            default = λ n h. ap pos (priority_high route.name hosts n h);
          })
          e5 in
      action-IsOn ext.gen_id hosts route route route.action _ q
        (
          record {
            same_hosts = on.same_hosts;
            enabled = on.enabled;
            one_uri = on.one_uri;
            passed = on.passed;
            hostless = on.hostless;
            default = on.default;
          },
          lookup-insert_self _ _ _,
        )
        refl f5

  route_loop-All :
      (routes : List Route) (errors : Option String) (rest : List XdsRoute) (out : List Route)
      (errs : Option String)
      → ((route : XdsRoute) → Memᴰ route rest → Memᴰ route vhost.routes)
      → All (IsServedRoute vhost) routes
      → route_loop ext amesh route_name (hosts_of vhost) vhost routes errors rest ≡ ok (out, errs)
      → All (IsServedRoute vhost) out
  unfolding route_loop
  route_loop-All routes errors [] out errs within h e = rw (← ap (λ p. p.0) (ok_injective e)) h
  route_loop-All routes errors (route ∷ rest) out errs within h e =
      let later : (r : XdsRoute) → Memᴰ r rest → Memᴰ r vhost.routes =
        λ r m. within r (Memᴰ.tail m) in
      let hosts = hosts_of vhost in
      elim (Bool-cases route.has_match) [
        | inr n ↦ absurd (cc (rw (n, route_loop) at e))
        | inl m ↦ elim (Bool-cases (is_insensitive route.matcher.case_sensitive)) [
          | inl c ↦ route_loop-All routes errors rest out errs later h (rw (m, c, route_loop) at e)
          | inr c ↦
              elim (Result-cases (translate_sensitive ext amesh route_name hosts vhost route)) [
                | inl t ↦ absurd (ground arith)
                | inr (inl (message, t)) ↦
                    route_loop-All routes (some message) rest out errs later h (ground arith)
                | inr (inr (q, t)) ↦
                    let (on, measured) = sensitive-IsOn hosts route q t in
                    let served : IsServedRoute vhost q =
                      (route, within route (Memᴰ.head refl), on, measured) in
                    route_loop-All (routes ++ q ∷ []) errors rest out errs later
                      (All-snoc (IsServedRoute vhost) routes q h served) (ground arith)
              ]
        ]
      ]

-- Every route that a virtual host yields is made of one of its routes: it is enabled, is on exactly
-- the hosts of the virtual host, has the one path of that route, reports to prometheus, and has
-- priority 0 if that route is named "allow_any" or there are no hosts, and 999 otherwise.
pub translate_virtual_host-All :
    (ext : Externals) (amesh : Option AmeshProvisioner) (route_name : String) (vhost : VirtualHost)
    (out : List Route) (errs : Option String)
    → translate_virtual_host ext amesh route_name vhost ≡ ok (out, errs)
    → All (IsServedRoute vhost) out
unfolding translate_virtual_host
translate_virtual_host-All ext amesh route_name vhost out errs e =
    route_loop-All ext amesh (or_anon route_name) vhost [] none vhost.routes out errs (λ r m. m) tt
      e
