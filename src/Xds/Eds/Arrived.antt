-- ===== src/Xds/Eds/Arrived.antt =====
-- An assignment for a known cluster in an EDS response to the translate of
-- pkg/amesh/provisioner/xds.go: its endpoints become the nodes of the cluster's upstream.
use amesh.Prelude.{
  String, ◌≡◌, ◌≢◌, refl, ◌∙◌, List, [], ◌∷◌, none, some, Map, lookup, lookup-insert,
  lookup-insert_self, eq_iff, arith, Option-cases, text-cases, inl, inr,
}
use amesh.Apisix.Upstream.{Upstream}
use amesh.Apisix.Compare.Latest.{latest}
use amesh.Xds.Envoy.{Any, LocalityLbEndpoints, ClusterLoadAssignment}
use amesh.Xds.Externals.{Externals}
use amesh.Xds.Cluster.{locality_loop, assigned, translate_cluster_load_assignment}
use amesh.Xds.Eds.Known.{IsKeyed}
use amesh.Xds.Eds.{
  Processed, processed, further_eds, failed, Assignments, process_cluster_load_assignment,
  take_assignment, assignment_one, assignment_loop,
}

usable-assigned :
    (name : String) (eps : List LocalityLbEndpoints)
    → locality_loop eps ≢ []
    → translate_cluster_load_assignment (some (record { cluster_name = name; endpoints = eps }))
      ≡ assigned (locality_loop eps)
unfolding translate_cluster_load_assignment locality_loop
usable-assigned name [] usable = absurd (usable refl)
usable-assigned name (ep ∷ eps) usable = ground arith

module _ (ext : Externals) where
  -- the assignments that the resources decode to
  unfoldable pub decoded : List Any → List ClusterLoadAssignment
  decoded [] = []
  decoded (res ∷ rest) = elim (ext.unmarshal_load_assignment res) [
    | none ↦ decoded rest
    | some cla ↦ cla ∷ decoded rest
  ]

-- A cluster that is known.
abbrev IsKnown : String → Map Upstream → Type 0
IsKnown n m = (u : Upstream) × (lookup n m ≡ some u)

module _ (ext : Externals) (copied : (u v : Upstream) → ext.json_copy u ≡ some v → v.name ≡ u.name)
    (copies : (u : Upstream) → (v : Upstream) × (ext.json_copy u ≡ some v)) where
  processed_name :
      (m : Map Upstream) (cla : ClusterLoadAssignment) (ups : Upstream)
      → IsKeyed m
      → process_cluster_load_assignment ext m cla ≡ processed ups
      → ups.name ≡ cla.cluster_name
  unfolding process_cluster_load_assignment
  processed_name m cla ups keyed e = elim (Option-cases (lookup cla.cluster_name m)) [
    | inl h ↦ absurd (ground arith)
    | inr (u, h) ↦ elim (Option-cases (ext.json_copy u)) [
      | inl c ↦ absurd (ground arith)
      | inr (v, c) ↦ ground (arith, copied u v c, keyed cla.cluster_name u h)
    ]
  ]

  -- Processing an assignment leaves the other clusters as they are, and the known ones known.
  end_other :
      (src n : String) (cla : ClusterLoadAssignment) (end : Processed) (s : Assignments)
      → process_cluster_load_assignment ext s.upstreams cla ≡ end
      → IsKeyed s.upstreams
      → cla.cluster_name ≢ n
      → lookup n (take_assignment src cla end s).upstreams ≡ lookup n s.upstreams
  unfolding take_assignment
  end_other src n cla failed s e keyed other = refl
  end_other src n cla further_eds s e keyed other = refl
  end_other src n cla (processed ups) s e keyed other = ground (
    arith,
    processed_name s.upstreams cla ups keyed e,
    lookup-insert ups.name n ups s.upstreams,
    eq_iff ups.name n,
  )

  end-IsKeyed :
      (src : String) (cla : ClusterLoadAssignment) (end : Processed) (s : Assignments)
      → process_cluster_load_assignment ext s.upstreams cla ≡ end
      → IsKeyed s.upstreams
      → IsKeyed (take_assignment src cla end s).upstreams
  unfolding take_assignment
  end-IsKeyed src cla failed s e keyed k u f = keyed k u f
  end-IsKeyed src cla further_eds s e keyed k u f = keyed k u f
  end-IsKeyed src cla (processed ups) s e keyed k u f =
      ground (arith, lookup-insert ups.name k ups s.upstreams, keyed k u, eq_iff ups.name k)

  end-IsKnown :
      (src n : String) (cla : ClusterLoadAssignment) (end : Processed) (s : Assignments)
      → IsKnown n s.upstreams
      → IsKnown n (take_assignment src cla end s).upstreams
  unfolding take_assignment
  end-IsKnown src n cla failed s known = known
  end-IsKnown src n cla further_eds s known = known
  end-IsKnown src n cla (processed ups) s (u, h) = elim (text-cases ups.name n) [
    | inl (same, e) ↦ (ups, ground (arith, lookup-insert ups.name n ups s.upstreams))
    | inr (other, e) ↦ (u, ground (arith, lookup-insert ups.name n ups s.upstreams))
  ]

  -- The assignment of a known cluster gives it its nodes.
  end_arrived :
      (src : String) (cla : ClusterLoadAssignment) (s : Assignments)
      → IsKeyed s.upstreams
      → IsKnown cla.cluster_name s.upstreams
      → locality_loop cla.endpoints ≢ []
      → let t = take_assignment src cla (process_cluster_load_assignment ext s.upstreams cla) s in
        (u : Upstream) × (lookup cla.cluster_name t.upstreams ≡ some u)
        × (u.nodes ≡ locality_loop cla.endpoints)
  unfolding take_assignment process_cluster_load_assignment
  end_arrived src cla s keyed (u, h) usable =
      let (v, c) = copies u in
      let name : v.name ≡ cla.cluster_name = copied u v c ∙ keyed cla.cluster_name u h in
      rw
        (
          h,
          process_cluster_load_assignment,
          usable-assigned cla.cluster_name cla.endpoints usable,
          c,
        )
        (
          record v { nodes = locality_loop cla.endpoints },
          rw name (lookup-insert_self _ _ s.upstreams),
          refl,
        )

  -- the loop over the assignments alone
  abbrev cla_loop : String → List ClusterLoadAssignment → Assignments → Assignments
  cla_loop src [] s = s
  cla_loop src (cla ∷ clas) s =
      cla_loop src clas
        (take_assignment src cla (process_cluster_load_assignment ext s.upstreams cla) s)

  loop-decoded :
      (src : String) (resources : List Any) (s : Assignments)
      → assignment_loop ext src resources s ≡ cla_loop src (decoded ext resources) s
  unfolding assignment_loop assignment_one decoded
  loop-decoded src [] s = refl
  loop-decoded src (res ∷ rest) s = elim (Option-cases (ext.unmarshal_load_assignment res)) [
    | inl e ↦
        loop-decoded src rest (assignment_one ext src res s) ∙ rw (e, assignment_one, decoded) refl
    | inr (cla, e) ↦
        loop-decoded src rest (assignment_one ext src res s) ∙ rw (e, assignment_one, decoded) refl
  ]

  loop_other :
      (src n : String) (clas : List ClusterLoadAssignment) (s : Assignments)
      → IsKeyed s.upstreams
      → latest (λ cla. cla.cluster_name) n clas ≡ none
      → lookup n (cla_loop src clas s).upstreams ≡ lookup n s.upstreams
  unfolding latest
  loop_other src n [] s keyed absent = refl
  loop_other src n (cla ∷ clas) s keyed absent =
      let end = process_cluster_load_assignment ext s.upstreams cla in
      loop_other src n clas (take_assignment src cla end s) (end-IsKeyed src cla end s refl keyed)
        (ground arith)
      ∙ end_other src n cla end s refl keyed (λ e. ground (arith, eq_iff cla.cluster_name n))

  cla_loop_arrived :
      (src n : String) (cla : ClusterLoadAssignment) (clas : List ClusterLoadAssignment)
      (s : Assignments)
      → IsKeyed s.upstreams
      → IsKnown n s.upstreams
      → latest (λ cla. cla.cluster_name) n clas ≡ some cla
      → locality_loop cla.endpoints ≢ []
      → (u : Upstream) × (lookup n (cla_loop src clas s).upstreams ≡ some u)
        × (u.nodes ≡ locality_loop cla.endpoints)
  unfolding latest
  cla_loop_arrived src n cla [] s keyed known e usable = absurd (cc e)
  cla_loop_arrived src n cla (c ∷ clas) s keyed known e usable =
      let end = process_cluster_load_assignment ext s.upstreams c in
      elim (Option-cases (latest (λ cla. cla.cluster_name) n clas)) [
        | inr (later, l) ↦
            cla_loop_arrived src n cla clas (take_assignment src c end s)
              (end-IsKeyed src c end s refl keyed) (end-IsKnown src n c end s known) (ground arith)
              usable
        | inl last ↦
            let name : c.cluster_name ≡ n = ground (arith, eq_iff c.cluster_name n) in
            let same : c ≡ cla = ground (arith, eq_iff c.cluster_name n) in
            let (u, found, nodes) = end_arrived src c s keyed (rw name known) (rw same usable) in
            (
              u,
              loop_other src n clas (take_assignment src c end s)
                    (end-IsKeyed src c end s refl keyed) last
                  ∙ rw (← name) found,
              rw (← same) nodes,
            )
      ]

  -- The last assignment to a known cluster gives it its nodes.
  pub loop_arrived :
      (src n : String) (cla : ClusterLoadAssignment) (resources : List Any) (s : Assignments)
      → IsKeyed s.upstreams
      → IsKnown n s.upstreams
      → latest (λ cla. cla.cluster_name) n (decoded ext resources) ≡ some cla
      → locality_loop cla.endpoints ≢ []
      → (u : Upstream) × (lookup n (assignment_loop ext src resources s).upstreams ≡ some u)
        × (u.nodes ≡ locality_loop cla.endpoints)
  loop_arrived src n cla resources s keyed known e usable =
      rw loop-decoded (cla_loop_arrived src n cla (decoded ext resources) s keyed known e usable)
