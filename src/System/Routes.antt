-- ===== src/System/Routes.antt =====
-- The routes that APISIX reads are those of the xDS provisioner, whatever the agent receives.
use amesh.Prelude.{
  String, ◌≡◌, refl, ap, ◌∙◌, List, [], ◌++◌, Option, some, Result, ok, err, panic, ok_injective,
  bind-ok,
}
use amesh.Apisix.Route.{Route}
use amesh.Apisix.Upstream.{Upstream}
use amesh.Apisix.Plugin.{Config}
use amesh.Manifest.{Event, empty_manifest}
use amesh.Agent.{Storage, Contract, Agent, store_events}
use amesh.Agent.Sync.{MirrorsRoutes, store_events-MirrorsRoutes}
use amesh.Agent.Loop.{data_storage-store_events}
use amesh.Xds.Envoy.{
  TypeUrl, route_url, cluster_url, load_assignment_url, listener_url, secret_url, other_url, Any,
  DiscoveryResponse,
}
use amesh.Xds.Externals.{Externals}
use amesh.Xds.Provisioner.{XdsProvisioner, Translated}
use amesh.Xds.Rds.{rds_loop, static_routes, translate_rds}
use amesh.Xds.Cds.{translate_cds}
use amesh.Xds.Eds.{translate_eds}
use amesh.Xds.Lds.{listener_loop, translate_lds, secret_loop, translate_sds}
use amesh.Xds.Translate.{
  translate, dispatch, Round, answer, translate_round, patch_routes, update_routes_plugin,
}
use amesh.System.{System, Step, respond, receive, patch, Reach, here, next, store_batches}
use amesh.System.Quiet.{IsQuiet, refresh_events-IsQuiet, upstreams-IsQuiet}

module _ (ext : Externals) (unmarshal : String → Option Config) {S : Type 0} (storage : Storage S)
    (contract : Contract S storage) (encode_route : Route → String)
    (encode_upstream : Upstream → String)
    (route_ok : (r : Route) → ext.marshal.route r ≡ some (encode_route r))
    (upstream_ok : (u : Upstream) → ext.marshal.upstream u ≡ some (encode_upstream u)) where
  -- The routes of the storage are those given.
  abbrev pub HasRoutes : List Route → Agent S → Type 0
  HasRoutes routes g =
      MirrorsRoutes storage contract ext.marshal encode_route encode_upstream route_ok upstream_ok
        routes g.data_storage

  -- Storing the events takes the routes of one provisioner to those of another.
  abbrev pub Carries : XdsProvisioner → Translated → Type 0
  Carries p t =
      (timestamp : String) (g : Agent S)
      → HasRoutes p.routes g
      → HasRoutes t.state.routes (store_events storage ext.marshal timestamp t.events g)

  abbrev pub IsQuietHere : List Event → Type 0
  IsQuietHere =
      IsQuiet storage contract ext.marshal encode_route encode_upstream route_ok upstream_ok

  -- Events that touch no route keep the routes.
  quiet_routes :
      (routes : List Route) (es : List Event)
      → IsQuietHere es
      → (timestamp : String) (g : Agent S) → HasRoutes routes g
      → HasRoutes routes (store_events storage ext.marshal timestamp es g)
  quiet_routes routes es quiet timestamp g h k =
      rw data_storage-store_events (quiet k g.data_storage ∙ h k)

  translate_rds-Carries :
      (resources : List Any) (p : XdsProvisioner) (t : Translated)
      → translate_rds ext resources p ≡ ok t
      → Carries p t
  unfolding translate_rds
  translate_rds-Carries resources p t e timestamp g h =
      let ((names, partial), e1, e2) = bind-ok (rds_loop ext p.amesh [] [] resources) _ e in
      let (static, e3, e4) = bind-ok (static_routes ext p) _ e2 in
      let t_is = ok_injective e4 in
      rw (← t_is) (
        store_events-MirrorsRoutes storage contract ext.marshal encode_route encode_upstream
          route_ok upstream_ok (record empty_manifest { routes = p.routes })
          (record empty_manifest { routes = partial ++ static }) timestamp g h)

  translate_cds-Carries :
      (resources : List Any) (p : XdsProvisioner) → Carries p (translate_cds ext resources p)
  unfolding translate_cds
  translate_cds-Carries resources p = quiet_routes p.routes _ (
      upstreams-IsQuiet storage contract ext.marshal encode_route encode_upstream route_ok
        upstream_ok _ _)

  translate_eds-Carries :
      (resources : List Any) (p : XdsProvisioner) → Carries p (translate_eds ext resources p)
  unfolding translate_eds
  translate_eds-Carries resources p = quiet_routes p.routes _ (
      refresh_events-IsQuiet storage contract ext.marshal encode_route encode_upstream route_ok
        upstream_ok _)

  translate_lds-Carries :
      (resources : List Any) (p : XdsProvisioner) (t : Translated)
      → translate_lds ext resources p ≡ ok t
      → Carries p t
  unfolding translate_lds
  translate_lds-Carries resources p t e =
      let (s, e1, e2) = bind-ok (listener_loop ext resources _) _ e in
      rw (← ok_injective e2) (
        quiet_routes p.routes _ (
          upstreams-IsQuiet storage contract ext.marshal encode_route encode_upstream route_ok
            upstream_ok [] []))

  translate_sds-Carries :
      (resources : List Any) (p : XdsProvisioner) (t : Translated)
      → translate_sds ext resources p ≡ ok t
      → Carries p t
  unfolding translate_sds
  translate_sds-Carries resources p t e =
      let ((secrets, names), e1, e2) = bind-ok (secret_loop ext p.secrets [] resources) _ e in
      rw (← ok_injective e2) (
        quiet_routes p.routes _ (
          upstreams-IsQuiet storage contract ext.marshal encode_route encode_upstream route_ok
            upstream_ok [] []))

  dispatch-Carries :
      (url : TypeUrl) (resp : DiscoveryResponse) (p : XdsProvisioner) (t : Translated)
      → dispatch ext url resp p ≡ ok t
      → Carries p t
  dispatch-Carries route_url resp p t e = translate_rds-Carries resp.resources p t e
  dispatch-Carries cluster_url resp p t e =
      rw (← ok_injective e) (translate_cds-Carries resp.resources p)
  dispatch-Carries load_assignment_url resp p t e =
      rw (← ok_injective e) (translate_eds-Carries resp.resources p)
  dispatch-Carries listener_url resp p t e = translate_lds-Carries resp.resources p t e
  dispatch-Carries secret_url resp p t e = translate_sds-Carries resp.resources p t e
  dispatch-Carries (other_url url) resp p t e = absurd (cc e)

  answer_routes :
      (resp : DiscoveryResponse) (ver_info timestamp : String) (p : XdsProvisioner) (r : Round ext)
      (g : Agent S) (m : Result Translated)
      → ((t : Translated) → m ≡ ok t → Carries p t)
      → answer ext resp ver_info p m ≡ ok r
      → HasRoutes p.routes g
      → HasRoutes r.state.routes (store_batches ext unmarshal storage timestamp r.events g)
  unfolding answer store_batches
  answer_routes resp ver_info timestamp p r g (ok t) carries e h =
      rw (← ok_injective e) (carries t refl timestamp g h)
  answer_routes resp ver_info timestamp p r g (err message) carries e h = rw (← ok_injective e) h
  answer_routes resp ver_info timestamp p r g panic carries e h = absurd (cc e)

  round_routes :
      (resp : DiscoveryResponse) (ver_info timestamp : String) (p : XdsProvisioner) (r : Round ext)
      (g : Agent S)
      → translate_round ext resp ver_info p ≡ ok r
      → HasRoutes p.routes g
      → HasRoutes r.state.routes (store_batches ext unmarshal storage timestamp r.events g)
  unfolding translate_round translate
  round_routes resp ver_info timestamp p r g e h =
      answer_routes resp ver_info timestamp p r g (dispatch ext resp.type_url resp p)
        (dispatch-Carries resp.type_url resp p) e h

  patch_routes_kept :
      (timestamp : String) (p q : XdsProvisioner) (es : List Event) (g : Agent S)
      → update_routes_plugin ext p ≡ ok (q, es)
      → HasRoutes p.routes g
      → HasRoutes q.routes (store_events storage ext.marshal timestamp es g)
  unfolding update_routes_plugin
  patch_routes_kept timestamp p q es g e h =
      let (new_routes, e1, e2) = bind-ok (patch_routes ext p.amesh p.routes) _ e in
      let same = ok_injective e2 in
      rw (← ap (λ r. r.0) same, ← ap (λ r. r.1) same)
        (store_events-MirrorsRoutes storage contract ext.marshal encode_route encode_upstream
          route_ok upstream_ok (record empty_manifest { routes = p.routes })
          (record empty_manifest { routes = new_routes }) timestamp g h)

  Step-routes :
      {x y : System S}
      → Step ext unmarshal storage x y
      → HasRoutes x.provisioner.routes x.agent
      → HasRoutes y.provisioner.routes y.agent
  Step-routes {x} (respond timestamp resp r e) h =
      round_routes resp x.ver_info timestamp x.provisioner r x.agent e h
  Step-routes (receive resp a e) h = h
  Step-routes {x} (patch timestamp p es e) h =
      patch_routes_kept timestamp x.provisioner p es x.agent e h

  -- If the storage has the routes of the provisioner, all resources can be encoded and each batch of
  -- events is stored before the next one is made, then whatever responses and plugins the agent
  -- receives, the storage still has the routes of the provisioner.
  pub Reach-routes :
      {x y : System S}
      → HasRoutes x.provisioner.routes x.agent
      → Reach ext unmarshal storage x y
      → HasRoutes y.provisioner.routes y.agent
  Reach-routes h here = h
  Reach-routes h (next r s) = Step-routes s (Reach-routes h r)
