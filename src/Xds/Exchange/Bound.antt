-- ===== src/Xds/Exchange/Bound.antt =====
-- The exchange of translate in pkg/amesh/provisioner/xds.go with the control plane comes to an end.
use amesh.Prelude.{
  ℕ, ◌+◌, ◌≤◌, ◌<◌, String, false, ◌≡◌, refl, ◌∙◌, List, [], ◌∷◌, ◌++◌, length, some, Option-cases,
  eqb, All, Result, ok, err, panic, ok_injective, bind-ok, arith, inl, inr,
}
use amesh.Xds.Envoy.{
  TypeUrl, route_url, cluster_url, load_assignment_url, listener_url, secret_url, other_url, Any,
  ClusterLoadAssignment, DiscoveryResponse, DiscoveryRequest,
}
use amesh.Xds.Externals.{Externals}
use amesh.Xds.Cluster.{translate_cluster_load_assignment}
use amesh.Xds.Provisioner.{XdsProvisioner, Translated, send_eds, send_rds, first_send}
use amesh.Xds.Rds.{rds_loop, static_routes, translate_rds}
use amesh.Xds.Cds.{translate_cds}
use amesh.Xds.Eds.{
  Assignments, process_cluster_load_assignment, take_assignment, assignment_one, assignment_loop,
  send_further, translate_eds,
}
use amesh.Xds.Lds.{listener_loop, translate_lds, secret_loop, translate_sds}
use amesh.Xds.Translate.{translate, dispatch, Round, answer, translate_round}
use amesh.Xds.Exchange.{
  Exchange, opened, taken, Turn, turn, Turns, none_taken, turn_taken, rank, weight,
}

weight-append : (xs ys : List DiscoveryRequest) → weight (xs ++ ys) ≡ weight xs + weight ys
weight-append [] ys = omega arith
weight-append (x ∷ xs) ys = omega (arith, weight-append xs ys)

rank_pos : (url : TypeUrl) → 0 < rank url
rank_pos listener_url = omega arith
rank_pos cluster_url = omega arith
rank_pos route_url = omega arith
rank_pos load_assignment_url = omega arith
rank_pos secret_url = omega arith
rank_pos (other_url url) = omega arith

length-le-weight : (qs : List DiscoveryRequest) → length qs ≤ weight qs
length-le-weight [] = omega arith
length-le-weight (q ∷ qs) = omega (arith, rank_pos q.type_url, length-le-weight qs)

module _ (ext : Externals) where
  -- Every assignment that a response of load assignments carries has endpoints.
  abbrev pub HasEndpoints : DiscoveryResponse → Type 0
  HasEndpoints resp =
      resp.type_url ≡ load_assignment_url
      → All
          (λ res.
            (cla : ClusterLoadAssignment)
            → ext.unmarshal_load_assignment res ≡ some cla
            → eqb (length cla.endpoints) 0 ≡ false)
          resp.resources

  take-required :
      (src : String) (cla : ClusterLoadAssignment) (s : Assignments)
      → eqb (length cla.endpoints) 0 ≡ false
      → (take_assignment src cla (process_cluster_load_assignment ext s.upstreams cla) s).required
        ≡ s.required
  unfolding take_assignment process_cluster_load_assignment translate_cluster_load_assignment
  take-required src cla s h = ground arith

  one-required :
      (src : String) (res : Any) (s : Assignments)
      → ((cla : ClusterLoadAssignment)
          → ext.unmarshal_load_assignment res ≡ some cla
          → eqb (length cla.endpoints) 0 ≡ false)
      → (assignment_one ext src res s).required ≡ s.required
  unfolding assignment_one
  one-required src res s h = elim (Option-cases (ext.unmarshal_load_assignment res)) [
    | inl e ↦ rw (e, assignment_one) refl
    | inr (cla, e) ↦ rw (e, assignment_one) (take-required src cla s (h cla e))
  ]

  loop-required :
      (src : String) (resources : List Any) (s : Assignments)
      → All
          (λ res.
            (cla : ClusterLoadAssignment)
            → ext.unmarshal_load_assignment res ≡ some cla
            → eqb (length cla.endpoints) 0 ≡ false)
          resources
      → (assignment_loop ext src resources s).required ≡ s.required
  unfolding assignment_loop
  loop-required src [] s h = refl
  loop-required src (res ∷ rest) s h =
      loop-required src rest (assignment_one ext src res s) h.1 ∙ one-required src res s h.0

  rds_lighter :
      (resources : List Any) (p : XdsProvisioner) (t : Translated)
      → translate_rds ext resources p ≡ ok t
      → weight t.requests < 1
  unfolding translate_rds
  rds_lighter resources p t e =
      let (_, _, e2) = bind-ok (rds_loop ext p.amesh [] [] resources) _ e in
      let (_, _, e4) = bind-ok (static_routes ext p) _ e2 in rw (← ok_injective e4) (omega arith)

  lds_lighter :
      (resources : List Any) (p : XdsProvisioner) (t : Translated)
      → translate_lds ext resources p ≡ ok t
      → weight t.requests < 2
  unfolding translate_lds
  lds_lighter resources p t e =
      let (s, _, e2) = bind-ok (listener_loop ext resources _) _ e in
      rw (← ok_injective e2) (asked s.names)
    where
      asked : (names : List String) → weight (send_rds names) < 2
      asked [] = unfold send_rds in omega arith
      asked (name ∷ names) = unfold send_rds in omega arith

  sds_lighter :
      (resources : List Any) (p : XdsProvisioner) (t : Translated)
      → translate_sds ext resources p ≡ ok t
      → weight t.requests < 1
  unfolding translate_sds
  sds_lighter resources p t e =
      let (_, _, e2) = bind-ok (secret_loop ext p.secrets [] resources) _ e in
      rw (← ok_injective e2) (omega arith)

  eds_lighter :
      (resp : DiscoveryResponse) (p : XdsProvisioner)
      → resp.type_url ≡ load_assignment_url
      → HasEndpoints resp
      → weight (translate_eds ext resp.resources p).requests < 1
  unfolding translate_eds send_further
  eds_lighter resp p e h =
      rw
        (loop-required p.src resp.resources
          (record { required = []; names = []; upstreams = p.upstreams; manifest = [] }) (h e))
        (omega arith)

  dispatch_lighter :
      (url : TypeUrl) (resp : DiscoveryResponse) (p : XdsProvisioner) (t : Translated)
      → resp.type_url ≡ url
      → HasEndpoints resp
      → dispatch ext url resp p ≡ ok t
      → weight t.requests < rank url
  unfolding translate_cds send_eds
  dispatch_lighter route_url resp p t u h e = rds_lighter resp.resources p t e
  dispatch_lighter cluster_url resp p t u h e = rw (← ok_injective e) (omega arith)
  dispatch_lighter load_assignment_url resp p t u h e =
      rw (← ok_injective e) (eds_lighter resp p u h)
  dispatch_lighter listener_url resp p t u h e = lds_lighter resp.resources p t e
  dispatch_lighter secret_url resp p t u h e = sds_lighter resp.resources p t e
  dispatch_lighter (other_url url) resp p t u h e = absurd (cc e)

  answer_lighter :
      (resp : DiscoveryResponse) (ver_info : String) (p : XdsProvisioner) (r : Round ext)
      (m : Result Translated)
      → ((t : Translated) → m ≡ ok t → weight t.requests < rank resp.type_url)
      → answer ext resp ver_info p m ≡ ok r
      → weight r.requests < rank resp.type_url
  unfolding answer
  answer_lighter resp ver_info p r (ok t) lighter e = rw (← ok_injective e) (lighter t refl)
  answer_lighter resp ver_info p r (err message) lighter e =
      rw (← ok_injective e) (rank_pos resp.type_url)
  answer_lighter resp ver_info p r panic lighter e = absurd (cc e)

  -- What a round asks for weighs less than a request that the response answers.
  round_lighter :
      (resp : DiscoveryResponse) (ver_info : String) (p : XdsProvisioner) (r : Round ext)
      → HasEndpoints resp
      → translate_round ext resp ver_info p ≡ ok r
      → weight r.requests < rank resp.type_url
  unfolding translate_round translate
  round_lighter resp ver_info p r h e =
      answer_lighter resp ver_info p r (dispatch ext resp.type_url resp p)
        (λ t d. dispatch_lighter resp.type_url resp p t refl h d) e

  module _ (IsSent : DiscoveryResponse → Type 0)
      (served : (resp : DiscoveryResponse) → IsSent resp → HasEndpoints resp) where
    Turn-lt : {x y : Exchange} → Turn ext IsSent x y → weight y.unanswered < weight x.unanswered
    unfolding taken
    Turn-lt {x} (turn before after q resp r e u sent run) =
        let lighter : weight r.requests < rank q.type_url =
          rw (← u) (round_lighter resp x.ver_info x.provisioner r (served resp sent) run) in
        rw e (
          omega (
            arith,
            lighter,
            weight-append before (q ∷ after),
            weight-append before after,
            weight-append (before ++ after) r.requests,
          ))

    Turns-le :
        {n : ℕ} {x y : Exchange}
        → Turns ext IsSent n x y
        → n + weight y.unanswered ≤ weight x.unanswered
    Turns-le none_taken = omega arith
    Turns-le (turn_taken runs last) = omega (arith, Turns-le runs, Turn-lt last)

    -- If every load assignment that the control plane sends has endpoints, then the exchange that a
    -- new connection starts comes to an end: however the answers are ordered, those taken and the
    -- requests still open are together at most four.
    pub opened-Turns :
        {n : ℕ} {y : Exchange} (ver_info : String) (p : XdsProvisioner)
        → Turns ext IsSent n (opened ver_info p) y
        → n + length y.unanswered ≤ 4
    unfolding opened first_send
    opened-Turns {y} ver_info p runs = omega (arith, Turns-le runs, length-le-weight y.unanswered)
