-- ===== src/Xds/Eds/Refreshed.antt =====
-- An EDS response to the translate of pkg/amesh/provisioner/xds.go: each upstream is either the last
-- one of its id in the new manifest or the one that it was before.
use amesh.Prelude.{
  String, ◌≡◌, ◌⊎◌, refl, ◌∙◌, List, [], ◌∷◌, ◌++◌, none, some, Map, lookup, insert, lookup-insert,
  eq_iff, arith, Option-cases, text-cases, inl, inr,
}
use amesh.Apisix.Upstream.{Upstream}
use amesh.Apisix.Compare.Latest.{latest, latest-append}
use amesh.StringSet.{StringSet}
use amesh.Xds.Envoy.{Any, ClusterLoadAssignment}
use amesh.Xds.Externals.{Externals}
use amesh.Xds.Eds.{
  Processed, processed, further_eds, failed, Assignments, process_cluster_load_assignment,
  take_assignment, assignment_one, assignment_loop,
}
use amesh.Xds.Named.{IsDistinct, insert-IsDistinct, IsNamed, insert-IsNamed, latest-other}

module _ (ext : Externals) (Known : String → Type 0)
    (injective : (a b : String) → Known a → Known b → ext.gen_id a ≡ ext.gen_id b → a ≡ b)
    (copied : (u v : Upstream) → ext.json_copy u ≡ some v → (v.name ≡ u.name) × (v.id ≡ u.id))
    (old : Map Upstream) where
  -- The variables of the loop, over the upstreams of before.
  pub record IsRefreshed (s : Assignments) : Type 0 where
    pub distinct : IsDistinct s.upstreams
    pub named : IsNamed ext.gen_id Known s.upstreams
    pub refreshed :
        (n : String) (u : Upstream)
        → lookup n s.upstreams ≡ some u
        → (latest (λ u. u.id) u.id s.manifest ≡ some u)
          ⊎ ((latest (λ u. u.id) u.id s.manifest ≡ none) × (lookup n old ≡ some u))

  processed_named :
      (m : Map Upstream) (cla : ClusterLoadAssignment) (ups : Upstream)
      → IsNamed ext.gen_id Known m
      → process_cluster_load_assignment ext m cla ≡ processed ups
      → (ups.id ≡ ext.gen_id ups.name) × Known ups.name
  unfolding process_cluster_load_assignment
  processed_named m cla ups named e = elim (Option-cases (lookup cla.cluster_name m)) [
    | inl h ↦ absurd (ground arith)
    | inr (u, h) ↦ elim (Option-cases (ext.json_copy u)) [
      | inl c ↦ absurd (ground arith)
      | inr (v, c) ↦
          let (name, id, known) = named cla.cluster_name u h in
          let same : ups.name ≡ cla.cluster_name = ground (arith, copied u v c) in
          (ground (arith, copied u v c), rw same known)
    ]
  ]

  inserted :
      (s : Assignments) (ups : Upstream)
      → IsRefreshed s
      → ups.id ≡ ext.gen_id ups.name
      → Known ups.name
      → (n : String) (u : Upstream) → lookup n (insert ups.name ups s.upstreams) ≡ some u
      → (latest (λ u. u.id) u.id (s.manifest ++ ups ∷ []) ≡ some u)
        ⊎ ((latest (λ u. u.id) u.id (s.manifest ++ ups ∷ []) ≡ none) × (lookup n old ≡ some u))
  unfolding latest
  inserted s ups h i known n u e =
      rw (latest-append (λ u. u.id) u.id s.manifest (ups ∷ [])) (elim (text-cases ups.name n) [
        | inl (same, eq) ↦
            inl (ground (arith, lookup-insert ups.name n ups s.upstreams, eq_iff ups.id ups.id))
        | inr (other, ne) ↦
            let found : lookup n s.upstreams ≡ some u =
              ground (arith, lookup-insert ups.name n ups s.upstreams) in
            rw
              (latest-other ext.gen_id Known u.id (ext.gen_id ups.name) (ups ∷ []) (i, tt)
                (λ g.
                  ne
                    (injective ups.name n known (h.named n u found).2 (g ∙ (h.named n u found).1))))
              (h.refreshed n u found)
      ])

  end-IsRefreshed :
      (src : String) (cla : ClusterLoadAssignment) (end : Processed) (s : Assignments)
      → process_cluster_load_assignment ext s.upstreams cla ≡ end
      → IsRefreshed s
      → IsRefreshed (take_assignment src cla end s)
  unfolding take_assignment
  end-IsRefreshed src cla failed s e h = h
  end-IsRefreshed src cla further_eds s e h = record {
    distinct = h.distinct;
    named = h.named;
    refreshed = h.refreshed;
  }
  end-IsRefreshed src cla (processed ups) s e h =
      let (id, known) = processed_named s.upstreams cla ups h.named e in
      record {
        distinct = insert-IsDistinct ups.name ups s.upstreams h.distinct;
        named = insert-IsNamed ext.gen_id Known ups s.upstreams id known h.named;
        refreshed = inserted s ups h id known;
      }

  one-IsRefreshed :
      (src : String) (res : Any) (s : Assignments)
      → IsRefreshed s
      → IsRefreshed (assignment_one ext src res s)
  unfolding assignment_one
  one-IsRefreshed src res s h = elim (Option-cases (ext.unmarshal_load_assignment res)) [
    | inl e ↦ rw (e, assignment_one) h
    | inr (cla, e) ↦
        rw (e, assignment_one)
          (end-IsRefreshed src cla (process_cluster_load_assignment ext s.upstreams cla) s refl h)
  ]

  pub loop-IsRefreshed :
      (src : String) (resources : List Any) (s : Assignments)
      → IsRefreshed s
      → IsRefreshed (assignment_loop ext src resources s)
  unfolding assignment_loop
  loop-IsRefreshed src [] s h = h
  loop-IsRefreshed src (res ∷ rest) s h =
      loop-IsRefreshed src rest (assignment_one ext src res s) (one-IsRefreshed src res s h)

  pub nothing-IsRefreshed :
      (required : StringSet) (names : List String)
      → IsDistinct old
      → IsNamed ext.gen_id Known old
      → IsRefreshed (record { required = required; names = names; upstreams = old; manifest = [] })
  unfolding latest
  nothing-IsRefreshed required names d named = record {
    distinct = d;
    named = named;
    refreshed = λ n u e. inr (refl, e);
  }
