-- ===== src/Xds/Eds/Known.antt =====
-- An EDS response to the translate of pkg/amesh/provisioner/xds.go never adds or removes a cluster.
use amesh.Prelude.{
  String, true, ◌≡◌, refl, ◌∙◌, List, [], ◌∷◌, Option, none, some, Map, lookup, insert,
  lookup-insert, is_some, eq_iff, arith, Option-cases, inl, inr,
}
use amesh.Apisix.Upstream.{Upstream}
use amesh.Xds.Envoy.{Any, ClusterLoadAssignment}
use amesh.Xds.Externals.{Externals}
use amesh.Xds.Provisioner.{XdsProvisioner}
use amesh.Xds.Eds.{
  Processed, processed, further_eds, failed, Assignments, process_cluster_load_assignment,
  take_assignment, assignment_one, assignment_loop, translate_eds,
}

-- Each upstream stands in the map under its own name.
abbrev pub IsKeyed : Map Upstream → Type 0
IsKeyed m = (k : String) (u : Upstream) → lookup k m ≡ some u → u.name ≡ k

-- The two maps have the same names.
abbrev pub IsSameNames : Map Upstream → Map Upstream → Type 0
IsSameNames m n = (k : String) → is_some (lookup k m) ≡ is_some (lookup k n)

pub insert-IsKeyed :
    (m : Map Upstream) (ups : Upstream) → IsKeyed m → IsKeyed (insert ups.name ups m)
insert-IsKeyed m ups keyed k u e =
    ground (arith, lookup-insert ups.name k ups m, keyed k u, eq_iff ups.name k)

insert-IsSameNames :
    (m : Map Upstream) (ups : Upstream)
    → is_some (lookup ups.name m) ≡ true
    → IsSameNames (insert ups.name ups m) m
insert-IsSameNames m ups known k = ground (arith, lookup-insert ups.name k ups m, eq_iff ups.name k)

module _ (ext : Externals)
    (copied : (u v : Upstream) → ext.json_copy u ≡ some v → v.name ≡ u.name) where
  -- An upstream that is processed has the name of one that is known.
  processed_known :
      (m : Map Upstream) (cla : ClusterLoadAssignment) (ups : Upstream)
      → IsKeyed m
      → process_cluster_load_assignment ext m cla ≡ processed ups
      → is_some (lookup ups.name m) ≡ true
  unfolding process_cluster_load_assignment
  processed_known m cla ups keyed e = elim (Option-cases (lookup cla.cluster_name m)) [
    | inl h ↦ absurd (ground arith)
    | inr (u, h) ↦ elim (Option-cases (ext.json_copy u)) [
      | inl c ↦ absurd (ground arith)
      | inr (v, c) ↦ ground (arith, copied u v c, keyed cla.cluster_name u h)
    ]
  ]

  take-known :
      (src : String) (cla : ClusterLoadAssignment) (end : Processed) (s : Assignments)
      → IsKeyed s.upstreams
      → ((ups : Upstream) → end ≡ processed ups → is_some (lookup ups.name s.upstreams) ≡ true)
      → IsKeyed (take_assignment src cla end s).upstreams
        × IsSameNames (take_assignment src cla end s).upstreams s.upstreams
  unfolding take_assignment
  take-known src cla failed s keyed known = (keyed, λ k. refl)
  take-known src cla further_eds s keyed known = (keyed, λ k. refl)
  take-known src cla (processed ups) s keyed known =
      (insert-IsKeyed s.upstreams ups keyed, insert-IsSameNames s.upstreams ups (known ups refl))

  one-known :
      (src : String) (cla : Option ClusterLoadAssignment) (res : Any) (s : Assignments)
      → ext.unmarshal_load_assignment res ≡ cla
      → IsKeyed s.upstreams
      → IsKeyed (assignment_one ext src res s).upstreams
        × IsSameNames (assignment_one ext src res s).upstreams s.upstreams
  unfolding assignment_one
  one-known src none res s e keyed = rw (e, assignment_one) (keyed, λ k. refl)
  one-known src (some cla) res s e keyed =
      rw (e, assignment_one)
        (take-known src cla (process_cluster_load_assignment ext s.upstreams cla) s keyed
          (λ ups h. processed_known s.upstreams cla ups keyed h))

  loop-known :
      (src : String) (resources : List Any) (s : Assignments)
      → IsKeyed s.upstreams
      → IsKeyed (assignment_loop ext src resources s).upstreams
        × IsSameNames (assignment_loop ext src resources s).upstreams s.upstreams
  unfolding assignment_loop
  loop-known src [] s keyed = (keyed, λ k. refl)
  loop-known src (res ∷ rest) s keyed =
      let (one_keyed, one_same) =
        one-known src (ext.unmarshal_load_assignment res) res s refl keyed in
      let (all_keyed, all_same) = loop-known src rest (assignment_one ext src res s) one_keyed in
      (all_keyed, λ k. all_same k ∙ one_same k)

  -- If copying an upstream through JSON keeps its name and each upstream stands under its own name,
  -- then after an EDS response each still does, and the map has the same names as before: an
  -- assignment to an unknown cluster is dropped.
  pub translate_eds-known :
      (resources : List Any) (p : XdsProvisioner)
      → IsKeyed p.upstreams
      → IsKeyed (translate_eds ext resources p).state.upstreams
        × IsSameNames (translate_eds ext resources p).state.upstreams p.upstreams
  unfolding translate_eds
  translate_eds-known resources p keyed =
      loop-known p.src resources
        (record { required = []; names = []; upstreams = p.upstreams; manifest = [] }) keyed
