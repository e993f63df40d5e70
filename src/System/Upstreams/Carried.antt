-- ===== src/System/Upstreams/Carried.antt =====
-- Each batch of events that a response to translate of pkg/amesh/provisioner/xds.go makes takes a
-- storage that serves the upstreams of before to one that serves those of after it.
use amesh.Prelude.{
  String, ◌≡◌, ◌≢◌, refl, ◌∙◌, List, [], ◌++◌, some, lookup, ok, ok_injective, bind-ok, inl, inr,
}
use amesh.Apisix.Route.{Route}
use amesh.Apisix.Upstream.{Upstream}
use amesh.Apisix.Compare.Latest.{latest, latest-key}
use amesh.Manifest.{Event, empty_manifest, upstream_key, generate_incremental_events}
use amesh.Agent.{Storage, Contract, store_loop}
use amesh.Agent.Sync.{read-after}
use amesh.Xds.Envoy.{
  TypeUrl, route_url, cluster_url, load_assignment_url, listener_url, secret_url, other_url, Any,
  DiscoveryResponse,
}
use amesh.Xds.Externals.{Externals}
use amesh.Xds.Named.{IsDistinct, IsNamed, lookup-latest}
use amesh.Xds.Provisioner.{XdsProvisioner, Translated}
use amesh.Xds.Rds.{rds_loop, static_routes, translate_rds}
use amesh.Xds.Cds.{with_nodes, cluster_loop, translate_cds}
use amesh.Xds.Cds.Reported.{AreListed, loop_reported, nothing_reported, has_nodes-ne}
use amesh.Xds.Eds.{translate_eds}
use amesh.Xds.Eds.Refreshed.{loop-IsRefreshed, nothing-IsRefreshed}
use amesh.Xds.Lds.{listener_loop, translate_lds, secret_loop, translate_sds}
use amesh.Xds.Translate.{dispatch}
use amesh.System.Upstreams.Stored.{latest-served, read-refresh_events, read-routes_events}

module _ (ext : Externals) {S : Type 0} (storage : Storage S) (contract : Contract S storage)
    (encode_route : Route → String) (encode_upstream : Upstream → String)
    (route_ok : (r : Route) → ext.marshal.route r ≡ some (encode_route r))
    (upstream_ok : (u : Upstream) → ext.marshal.upstream u ≡ some (encode_upstream u))
    (Known : String → Type 0)
    (injective : (a b : String) → Known a → Known b → ext.gen_id a ≡ ext.gen_id b → a ≡ b)
    (copied : (u v : Upstream) → ext.json_copy u ≡ some v → (v.name ≡ u.name) × (v.id ≡ u.id)) where
  open contract use {read}

  -- Each upstream stands once, under its name and with the id of the name, and if it has nodes then
  -- its encoding is read under its key.
  pub record IsServing (p : XdsProvisioner) (s : S) : Type 0 where
    pub distinct : IsDistinct p.upstreams
    pub named : IsNamed ext.gen_id Known p.upstreams
    pub stored :
        (n : String) (u : Upstream)
        → lookup n p.upstreams ≡ some u
        → u.nodes ≢ []
        → read (upstream_key u.id) s ≡ some (encode_upstream u)

  -- Storing the events takes what one provisioner serves to what another one does.
  abbrev pub Carries : XdsProvisioner → XdsProvisioner → List Event → Type 0
  Carries p q es = (s : S) → IsServing p s → IsServing q (store_loop storage ext.marshal es s)

  -- Events that leave the keys of upstreams alone, of a provisioner with the same upstreams.
  quiet-Carries :
      (p q : XdsProvisioner) (es : List Event)
      → q.upstreams ≡ p.upstreams
      → ((k : String) (s : S)
          → read (upstream_key k) (store_loop storage ext.marshal es s) ≡ read (upstream_key k) s)
      → Carries p q es
  quiet-Carries p q es same quiet s h = record {
    distinct = rw same h.distinct;
    named = rw same h.named;
    stored = λ n u e has. quiet u.id s ∙ h.stored n u (rw (← same) e) has;
  }

  pub routes-Carries :
      (p q : XdsProvisioner) (old new : List Route)
      → q.upstreams ≡ p.upstreams
      → Carries p q (
          generate_incremental_events ext.marshal
            (some (record empty_manifest { routes = new }))
            (some (record empty_manifest { routes = old })))
  routes-Carries p q old new same = quiet-Carries p q _ same (
      read-routes_events storage contract ext.marshal encode_route encode_upstream route_ok
        upstream_ok old new)

  old_served :
      (p : XdsProvisioner) (s : S)
      → IsServing p s
      → (k : String) (u : Upstream) → latest (λ u. u.id) k (with_nodes p.upstreams) ≡ some u
      → u.nodes ≢ []
  old_served p s h k u l =
      has_nodes-ne u (lookup-latest ext.gen_id Known k p.upstreams u h.distinct h.named l).1

  -- The last old upstream with an id is read under it.
  old_stored :
      (p : XdsProvisioner) (s : S)
      → IsServing p s
      → (k : String) (u : Upstream) → latest (λ u. u.id) k (with_nodes p.upstreams) ≡ some u
      → read (upstream_key k) s ≡ some (encode_upstream u)
  old_stored p s h k u l = rw (← latest-key (λ u. u.id) k (with_nodes p.upstreams) u l) (
      h.stored u.name u (lookup-latest ext.gen_id Known k p.upstreams u h.distinct h.named l).0
        (old_served p s h k u l))

  pub cds-Carries :
      (resources : List Any) (p : XdsProvisioner)
      → AreListed ext Known resources
      → Carries p (translate_cds ext resources p).state (translate_cds ext resources p).events
  unfolding translate_cds
  cds-Carries resources p listed s h =
      let good =
        loop_reported ext Known injective p h.named resources
          (record { required = []; manifest = []; new_ups = [] }) listed
          (nothing_reported ext Known injective p h.named) in
      record {
        distinct = good.distinct;
        named = good.named;
        stored = λ n u e has.
            read-after storage contract ext.marshal encode_route encode_upstream route_ok
              upstream_ok (record empty_manifest { upstreams = with_nodes p.upstreams })
              (record empty_manifest {
                upstreams =
                    (cluster_loop ext p resources
                      (record { required = []; manifest = []; new_ups = [] })).manifest;
              })
              u.id s (λ k v l. old_served p s h k v l) (λ k v l. latest-served k _ v good.served l)
              (old_stored p s h u.id)
            ∙ rw (good.reported n u e has) refl;
      }

  pub eds-Carries :
      (resources : List Any) (p : XdsProvisioner)
      → Carries p (translate_eds ext resources p).state (translate_eds ext resources p).events
  unfolding translate_eds
  eds-Carries resources p s h =
      let good =
        loop-IsRefreshed ext Known injective copied p.upstreams p.src resources
          (record { required = []; names = []; upstreams = p.upstreams; manifest = [] })
          (nothing-IsRefreshed ext Known injective copied p.upstreams [] [] h.distinct h.named) in
      record {
        distinct = good.distinct;
        named = good.named;
        stored = λ n u e has.
            read-refresh_events storage contract ext.marshal encode_route encode_upstream route_ok
              upstream_ok _ u.id s
            ∙ elim (good.refreshed n u e) [
              | inl l ↦ rw l refl
              | inr (l, before) ↦ rw l (h.stored n u before has)
            ];
      }

  rds-Carries :
      (resources : List Any) (p : XdsProvisioner) (t : Translated)
      → translate_rds ext resources p ≡ ok t
      → Carries p t.state t.events
  unfolding translate_rds
  rds-Carries resources p t e =
      let ((names, partial), e1, e2) = bind-ok (rds_loop ext p.amesh [] [] resources) _ e in
      let (static, e3, e4) = bind-ok (static_routes ext p) _ e2 in
      rw (← ok_injective e4) (
        routes-Carries p (record p { routes = partial ++ static }) p.routes (partial ++ static)
          refl)

  lds-Carries :
      (resources : List Any) (p : XdsProvisioner) (t : Translated)
      → translate_lds ext resources p ≡ ok t
      → Carries p t.state t.events
  unfolding translate_lds
  lds-Carries resources p t e =
      let (s, e1, e2) = bind-ok (listener_loop ext resources _) _ e in
      rw (← ok_injective e2) (
        routes-Carries p
          (record p { static_route_configurations = s.configs; route_ownership = s.ownership }) []
          [] refl)

  sds-Carries :
      (resources : List Any) (p : XdsProvisioner) (t : Translated)
      → translate_sds ext resources p ≡ ok t
      → Carries p t.state t.events
  unfolding translate_sds
  sds-Carries resources p t e =
      let ((secrets, names), e1, e2) = bind-ok (secret_loop ext p.secrets [] resources) _ e in
      rw (← ok_injective e2) (routes-Carries p (record p { secrets = secrets }) [] [] refl)

  pub dispatch-Carries :
      (url : TypeUrl) (resp : DiscoveryResponse) (p : XdsProvisioner) (t : Translated)
      → (url ≡ cluster_url → AreListed ext Known resp.resources)
      → dispatch ext url resp p ≡ ok t
      → Carries p t.state t.events
  dispatch-Carries route_url resp p t listed e = rds-Carries resp.resources p t e
  dispatch-Carries cluster_url resp p t listed e =
      rw (← ok_injective e) (cds-Carries resp.resources p (listed refl))
  dispatch-Carries load_assignment_url resp p t listed e =
      rw (← ok_injective e) (eds-Carries resp.resources p)
  dispatch-Carries listener_url resp p t listed e = lds-Carries resp.resources p t e
  dispatch-Carries secret_url resp p t listed e = sds-Carries resp.resources p t e
  dispatch-Carries (other_url url) resp p t listed e = absurd (cc e)
