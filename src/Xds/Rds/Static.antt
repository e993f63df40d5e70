-- ===== src/Xds/Rds/Static.antt =====
-- What an RDS response makes of the static route configurations of the listeners.
use amesh.Prelude.{
  ◌≡◌, refl, sym, ◌∙◌, String, List, [], ◌∷◌, ◌++◌, map, Option, none, some, inl, inr, Option-cases,
  Result-cases, Result, ok, err, panic, ok_injective, bind-ok,
}
use mathlib.Core.List.{append-nil, append_assoc, flatten}
use amesh.Apisix.Route.{Route}
use amesh.Amesh.{AmeshProvisioner}
use amesh.Xds.Envoy.{Any, RouteConfiguration}
use amesh.Xds.Externals.{Externals}
use amesh.Xds.VirtualHost.{translate_route_configuration}
use amesh.Xds.Provisioner.{XdsProvisioner, Translated}
use amesh.Xds.Rds.{
  process_static_route_configurations, rds_loop, static_part, static_routes, translate_rds,
}

module _ (ext : Externals) where
  process_static-empty :
      (amesh : Option AmeshProvisioner) (rcs : List RouteConfiguration) (rs : List Route)
      → process_static_route_configurations ext amesh rcs ≡ ok rs
      → rs ≡ []
  unfolding process_static_route_configurations
  process_static-empty amesh [] rs e = sym (ok_injective e)
  process_static-empty amesh (rc ∷ rcs) rs e =
      let (partial, e1, e2) = bind-ok (translate_route_configuration ext amesh rc) _ e in
      process_static-empty amesh rcs rs e2

  static_part-empty :
      (m : Result (List Route)) (rs : List Route)
      → ((qs : List Route) → m ≡ ok qs → qs ≡ [])
      → static_part m ≡ ok rs
      → rs ≡ []
  static_part-empty (ok qs) rs h e = rw (← ok_injective e) (h qs refl)
  static_part-empty (err message) rs h e = sym (ok_injective e)
  static_part-empty panic rs h e = absurd (cc e)

  -- what the end of the translation of a route configuration gives of routes
  abbrev pub routes_of : Result (List Route) → List Route
  routes_of (ok routes) = routes
  routes_of _ = []

  -- the routes of a resource: none if it does not decode or cannot be translated
  abbrev pub resource_routes : Option AmeshProvisioner → Any → List Route
  resource_routes amesh res = elim (ext.unmarshal_route_configuration res) [
    | none ↦ []
    | some rc ↦ routes_of (translate_route_configuration ext amesh rc)
  ]

  -- the name of a resource that decodes and can be translated
  abbrev pub resource_name : Option AmeshProvisioner → Any → List String
  resource_name amesh res = elim (ext.unmarshal_route_configuration res) [
    | none ↦ []
    | some rc ↦ elim (translate_route_configuration ext amesh rc) [
      | ok routes ↦ rc.name ∷ []
      | err message ↦ []
      | panic ↦ []
    ]
  ]

  rds_loop-flatten :
      (amesh : Option AmeshProvisioner) (names : List String) (routes : List Route)
      (resources : List Any) (out : List String × List Route)
      → rds_loop ext amesh names routes resources ≡ ok out
      → (out.0 ≡ names ++ flatten (map (resource_name amesh) resources))
        × (out.1 ≡ routes ++ flatten (map (resource_routes amesh) resources))
  unfolding rds_loop flatten
  rds_loop-flatten amesh names routes [] out e =
      rw (← ok_injective e) (sym (append-nil names), sym (append-nil routes))
  rds_loop-flatten amesh names routes (res ∷ rest) out e =
      elim (Option-cases (ext.unmarshal_route_configuration res)) [
        | inl d ↦
            rw (d, resource_name, resource_routes)
              (rds_loop-flatten amesh names routes rest out (rw (d, rds_loop) at e))
        | inr (rc, d) ↦ elim (Result-cases (translate_route_configuration ext amesh rc)) [
          | inl f ↦ absurd (cc (rw (d, f, rds_loop) at e))
          | inr (inl (message, f)) ↦
              rw (d, f, resource_name, resource_routes)
                (rds_loop-flatten amesh names routes rest out (rw (d, f, rds_loop) at e))
          | inr (inr (partial, f)) ↦
              let (hn, hr) =
                rds_loop-flatten amesh (names ++ rc.name ∷ []) (routes ++ partial) rest out
                  (rw (d, f, rds_loop) at e) in
              rw (d, f, resource_name, resource_routes)
                (hn ∙ append_assoc names _ _, hr ∙ append_assoc routes _ _)
        ]
      ]

  -- If an RDS response is translated, the provisioner's routes are, in the order of the resources,
  -- those of each resource that decodes and can be translated, and the names are the names of these
  -- resources: the static route configurations, whatever they hold, contribute no route.
  pub translate_rds-routes :
      (resources : List Any) (p : XdsProvisioner) (t : Translated)
      → translate_rds ext resources p ≡ ok t
      → (t.resource_names ≡ flatten (map (resource_name p.amesh) resources))
        × (t.state.routes ≡ flatten (map (resource_routes p.amesh) resources))
  unfolding translate_rds static_routes
  translate_rds-routes resources p t e =
      let (out, e1, e2) = bind-ok (rds_loop ext p.amesh [] [] resources) _ e in
      let (static, e3, e4) = bind-ok (static_routes ext p) _ e2 in
      let none_left =
        static_part-empty _ static (process_static-empty p.amesh p.static_route_configurations)
          e3 in
      rw (← ok_injective e4, none_left, append-nil)
        (rds_loop-flatten p.amesh [] [] resources out e1)
