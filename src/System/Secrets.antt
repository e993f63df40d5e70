-- ===== src/System/Secrets.antt =====
-- The map of secrets stays nil as long as the agent runs.
use amesh.Prelude.{
  String, ◌≡◌, refl, sym, ap, List, [], ◌∷◌, Option, none, Map, Result, ok, err, panic,
  ok_injective, bind-ok, Option-cases, inl, inr, arith,
}
use amesh.Apisix.Plugin.{Config}
use amesh.Agent.{Storage}
use amesh.Xds.Envoy.{
  TypeUrl, route_url, cluster_url, load_assignment_url, listener_url, secret_url, other_url, Any,
  DiscoveryResponse,
}
use amesh.Xds.Externals.{Externals}
use amesh.Xds.Provisioner.{XdsProvisioner, Translated, Secret}
use amesh.Xds.Rds.{rds_loop, static_routes, translate_rds}
use amesh.Xds.Cds.{translate_cds}
use amesh.Xds.Eds.{translate_eds}
use amesh.Xds.Lds.{listener_loop, translate_lds, store_secret, secret_loop, translate_sds}
use amesh.Xds.Lds.Secrets.{HasSecret, translate_sds-panic}
use amesh.Xds.Translate.{
  Round, dispatch, answer, translate, translate_round, patch_routes, update_routes_plugin,
}
use amesh.System.{System, Step, respond, receive, patch, Reach, here, next}

module _ (ext : Externals) where
  secret_loop-nil :
      (names : List String) (resources : List Any) (m : Option (Map Secret)) (ns : List String)
      → secret_loop ext none names resources ≡ ok (m, ns)
      → m ≡ none
  unfolding secret_loop store_secret
  secret_loop-nil names [] m ns e = ap (λ r. r.0) (sym (ok_injective e))
  secret_loop-nil names (res ∷ rest) m ns e = elim (Option-cases (ext.unmarshal_secret res)) [
    | inl h ↦ ground (arith, secret_loop-nil names rest m ns)
    | inr (secret, h) ↦ absurd (ground arith)
  ]

  dispatch-secrets :
      (url : TypeUrl) (resp : DiscoveryResponse) (p : XdsProvisioner) (t : Translated)
      → p.secrets ≡ none
      → dispatch ext url resp p ≡ ok t
      → t.state.secrets ≡ none
  unfolding translate_rds translate_cds translate_eds translate_lds translate_sds
  dispatch-secrets route_url resp p t h e =
      let (r, e1, e2) = bind-ok (rds_loop ext p.amesh [] [] resp.resources) _ e in
      let (static, e3, e4) = bind-ok (static_routes ext p) _ e2 in rw (← ok_injective e4) h
  dispatch-secrets cluster_url resp p t h e = rw (← ok_injective e) h
  dispatch-secrets load_assignment_url resp p t h e = rw (← ok_injective e) h
  dispatch-secrets listener_url resp p t h e =
      let (s, e1, e2) = bind-ok (listener_loop ext resp.resources _) _ e in rw (← ok_injective e2) h
  dispatch-secrets secret_url resp p t h e =
      let ((secrets, names), e1, e2) = bind-ok (secret_loop ext p.secrets [] resp.resources) _ e in
      rw (← ok_injective e2) (secret_loop-nil [] resp.resources secrets names (rw h at e1))
  dispatch-secrets (other_url url) resp p t h e = absurd (cc e)

  answer-secrets :
      (resp : DiscoveryResponse) (ver_info : String) (p : XdsProvisioner) (r : Round ext)
      (m : Result Translated)
      → p.secrets ≡ none
      → ((t : Translated) → m ≡ ok t → t.state.secrets ≡ none)
      → answer ext resp ver_info p m ≡ ok r
      → r.state.secrets ≡ none
  unfolding answer
  answer-secrets resp ver_info p r (ok t) h kept e = rw (← ok_injective e) (kept t refl)
  answer-secrets resp ver_info p r (err message) h kept e = rw (← ok_injective e) h
  answer-secrets resp ver_info p r panic h kept e = absurd (cc e)

module _ (ext : Externals) (unmarshal : String → Option Config) {S : Type 0}
    (storage : Storage S) where
  Step-secrets :
      {x y : System S}
      → Step ext unmarshal storage x y
      → x.provisioner.secrets ≡ none
      → y.provisioner.secrets ≡ none
  unfolding translate_round translate update_routes_plugin
  Step-secrets {x} (respond timestamp resp r e) h =
      answer-secrets ext resp x.ver_info x.provisioner r
        (dispatch ext resp.type_url resp x.provisioner) h
        (λ t. dispatch-secrets ext resp.type_url resp x.provisioner t h) e
  Step-secrets (receive resp a e) h = h
  Step-secrets {x} (patch timestamp p es e) h =
      let (rs, e1, e2) = bind-ok (patch_routes ext x.provisioner.amesh x.provisioner.routes) _ e in
      rw (← ap (λ r. r.0) (ok_injective e2)) h

  Reach-secrets :
      {x y : System S}
      → x.provisioner.secrets ≡ none
      → Reach ext unmarshal storage x y
      → y.provisioner.secrets ≡ none
  Reach-secrets h here = h
  Reach-secrets h (next r s) = Step-secrets s (Reach-secrets h r)

  -- From a provisioner whose map of secrets is nil, as the constructor leaves it, no run gets to a
  -- state in which a response with a secret that decodes can be handled: the round panics.
  pub Reach-sds_panic :
      {x y : System S} (resources : List Any) (version nonce : String)
      → x.provisioner.secrets ≡ none
      → Reach ext unmarshal storage x y
      → HasSecret ext resources
      → translate_round ext
          (record {
            type_url = secret_url;
            version_info = version;
            nonce = nonce;
            resources = resources;
          })
          y.ver_info
          y.provisioner
        ≡ panic
  unfolding translate_round translate answer
  Reach-sds_panic {x} {y} resources version nonce h r has =
      rw (translate_sds-panic ext resources y.provisioner (Reach-secrets h r) has) refl
