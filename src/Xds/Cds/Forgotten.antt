-- ===== src/Xds/Cds/Forgotten.antt =====
-- Two CDS responses to the translate of pkg/amesh/provisioner/xds.go with no EDS response between
-- them: the second one takes the stored upstreams for ones that were never there.
use amesh.Prelude.{
  String, true, ◌≡◌, refl, List, [], ◌∷◌, some, Map, insert, lookup, lookup-insert, none, ◌≢◌,
  eq_iff, All, arith, Option-cases, inl, inr,
}
use amesh.Apisix.Upstream.{Upstream}
use amesh.Apisix.Compare.{compare_routes, compare_upstreams}
use amesh.Manifest.{diff_from, size, generate_incremental_events}
use amesh.Xds.Envoy.{Any, Cluster}
use amesh.Xds.Externals.{Externals}
use amesh.Xds.Cluster.{Assigned, assigned, require_further_eds, translate_cluster}
use amesh.Xds.Provisioner.{XdsProvisioner, is_eds}
use amesh.Xds.Cds.{
  Clusters, with_nodes, old_with_nodes, take_cluster, cluster_end, cluster_one, cluster_loop,
  translate_cds,
}
use amesh.Xds.Cds.Reported.{translate_cluster_named}

with_nodes-insert :
    (k : String) (u : Upstream) (m : Map Upstream)
    → u.nodes ≡ []
    → with_nodes m ≡ []
    → with_nodes (insert k u m) ≡ []
unfolding with_nodes insert
with_nodes-insert k u [] empty h = ground arith
with_nodes-insert k u ((j, v) ∷ m) empty h = ground (arith, with_nodes-insert k u m empty)

module _ (ext : Externals) (p : XdsProvisioner) where
  -- Every cluster of the resources has its endpoints apart.
  abbrev pub AreEds : List Any → Type 0
  AreEds = All (λ res. (c : Cluster) → ext.unmarshal_cluster res ≡ some c → is_eds c ≡ true)

  end_empty :
      (c : Cluster) (a : Assigned Upstream) (s : Clusters)
      → translate_cluster ext.gen_id c ≡ a
      → is_eds c ≡ true
      → with_nodes s.new_ups ≡ []
      → with_nodes (cluster_end p c a s).new_ups ≡ []
  unfolding cluster_end take_cluster
  end_empty c require_further_eds s e is h = h
  end_empty c (assigned ups) s e is h = rw is (
      with_nodes-insert ups.name ups s.new_ups ((translate_cluster_named ext.gen_id c ups e).2 is)
        h)

  one_empty :
      (res : Any) (s : Clusters)
      → ((c : Cluster) → ext.unmarshal_cluster res ≡ some c → is_eds c ≡ true)
      → with_nodes s.new_ups ≡ []
      → with_nodes (cluster_one ext p res s).new_ups ≡ []
  unfolding cluster_one
  one_empty res s is h = elim (Option-cases (ext.unmarshal_cluster res)) [
    | inl e ↦ rw (e, cluster_one) h
    | inr (c, e) ↦
        rw (e, cluster_one) (end_empty c (translate_cluster ext.gen_id c) s refl (is c e) h)
  ]

  loop_empty :
      (resources : List Any) (s : Clusters)
      → AreEds resources
      → with_nodes s.new_ups ≡ []
      → with_nodes (cluster_loop ext p resources s).new_ups ≡ []
  unfolding cluster_loop
  loop_empty [] s are h = h
  loop_empty (res ∷ rest) s are h =
      loop_empty rest (cluster_one ext p res s) are.1 (one_empty res s are.0 h)

  old_with_nodes-none :
      (m : Map Upstream) (name : String) → with_nodes m ≡ [] → old_with_nodes m name ≡ []
  unfolding with_nodes old_with_nodes lookup
  old_with_nodes-none [] name h = refl
  old_with_nodes-none ((j, u) ∷ m) name h = ground (arith, old_with_nodes-none m name)

  end_manifest :
      (c : Cluster) (a : Assigned Upstream) (s : Clusters)
      → is_eds c ≡ true
      → with_nodes p.upstreams ≡ []
      → s.manifest ≡ []
      → (cluster_end p c a s).manifest ≡ []
  unfolding cluster_end take_cluster
  end_manifest c require_further_eds s is none_have h = h
  end_manifest c (assigned ups) s is none_have h =
      rw (is, h, old_with_nodes-none p.upstreams c.name none_have) refl

  loop_manifest :
      (resources : List Any) (s : Clusters)
      → AreEds resources
      → with_nodes p.upstreams ≡ []
      → s.manifest ≡ []
      → (cluster_loop ext p resources s).manifest ≡ []
  unfolding cluster_loop cluster_one
  loop_manifest [] s are none_have h = h
  loop_manifest (res ∷ rest) s are none_have h =
      loop_manifest rest (cluster_one ext p res s) are.1 none_have
        (elim (Option-cases (ext.unmarshal_cluster res)) [
          | inl e ↦ rw (e, cluster_one) h
          | inr (c, e) ↦
              rw (e, cluster_one)
                (end_manifest c (translate_cluster ext.gen_id c) s (are.0 c e) none_have h)
        ])

  -- No cluster of the resources has the name.
  abbrev pub AreOthers : String → List Any → Type 0
  AreOthers k = All (λ res. (c : Cluster) → ext.unmarshal_cluster res ≡ some c → c.name ≢ k)

  end_other :
      (k : String) (c : Cluster) (a : Assigned Upstream) (s : Clusters)
      → translate_cluster ext.gen_id c ≡ a
      → c.name ≢ k
      → lookup k s.new_ups ≡ none
      → lookup k (cluster_end p c a s).new_ups ≡ none
  unfolding cluster_end take_cluster
  end_other k c require_further_eds s e other h = h
  end_other k c (assigned ups) s e other h =
      let (named, id, _) = translate_cluster_named ext.gen_id c ups e in
      ground (arith, lookup-insert ups.name k ups s.new_ups, eq_iff ups.name k)

  loop_other :
      (k : String) (resources : List Any) (s : Clusters)
      → AreOthers k resources
      → lookup k s.new_ups ≡ none
      → lookup k (cluster_loop ext p resources s).new_ups ≡ none
  unfolding cluster_loop cluster_one
  loop_other k [] s others h = h
  loop_other k (res ∷ rest) s others h =
      loop_other k rest (cluster_one ext p res s) others.1
        (elim (Option-cases (ext.unmarshal_cluster res)) [
          | inl e ↦ rw (e, cluster_one) h
          | inr (c, e) ↦
              rw (e, cluster_one)
                (end_other k c (translate_cluster ext.gen_id c) s refl (others.0 c e) h)
        ])

-- If a CDS response has only EDS clusters and the next response is again a CDS response with only
-- EDS clusters, then, whatever upstreams with nodes were stored before, the second one makes no
-- event, so also none that deletes an upstream, and yet the provisioner keeps no upstream of a name
-- that the second one does not list.
pub translate_cds_forgotten :
    (ext : Externals) (p : XdsProvisioner) (resources again : List Any)
    → AreEds ext p resources
    → AreEds ext p again
    → let first = translate_cds ext resources p in
      let second = translate_cds ext again first.state in
      (second.events ≡ [])
      × ((k : String) → AreOthers ext p k again → lookup k second.state.upstreams ≡ none)
unfolding translate_cds cluster_loop with_nodes generate_incremental_events diff_from compare_routes
    compare_upstreams size
translate_cds_forgotten ext p resources again are later =
    let begin : Clusters = record { required = []; manifest = []; new_ups = [] } in
    let first = translate_cds ext resources p in
    let forgotten = loop_empty ext p resources begin are refl in
    (
      rw (loop_manifest ext first.state again begin later forgotten refl, forgotten) refl,
      λ k others. loop_other ext first.state k again begin others (unfold lookup in refl),
    )
