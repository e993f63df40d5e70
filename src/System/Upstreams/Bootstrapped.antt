-- ===== src/System/Upstreams/Bootstrapped.antt =====
-- An EDS cluster on its way into the storage: a CDS response that names it and the EDS response with
-- its endpoints, through translate of pkg/amesh/provisioner/xds.go and storeEvents of
-- pkg/amesh/agent.go.
use amesh.Prelude.{
  String, true, ◌≡◌, ◌≢◌, ◌∙◌, List, [], ◌∷◌, some, Map, lookup, insert, lookup-insert,
  lookup-insert_self, arith, text-cases, Option-cases, inl, inr, ap,
}
use mathlib.Core.List.{Memᴰ}
use amesh.Apisix.Route.{Route}
use amesh.Apisix.Upstream.{Upstream}
use amesh.Apisix.Compare.Latest.{latest}
use amesh.Manifest.{upstream_key}
use amesh.Agent.{Storage, Contract, Agent, store_events}
use amesh.Agent.Loop.{data_storage-store_events}
use amesh.Xds.Envoy.{Any, Cluster, ClusterLoadAssignment}
use amesh.Xds.Externals.{Externals}
use amesh.Xds.Cluster.{
  Assigned, assigned, require_further_eds, locality_loop, new_upstream, cluster_nodes,
  translate_cluster_load_assignments, translate_cluster,
}
use amesh.Xds.Provisioner.{XdsProvisioner, is_eds}
use amesh.Xds.Cds.{Clusters, take_cluster, cluster_end, cluster_one, cluster_loop, translate_cds}
use amesh.Xds.Cds.Reported.{AreListed}
use amesh.Xds.Eds.{translate_eds}
use amesh.Xds.Eds.Arrived.{decoded}
use amesh.System.Upstreams.Carried.{IsServing, cds-Carries}
use amesh.System.Upstreams.Arrived.{translate_eds-arrived}

abbrev IsKnown : String → Map Upstream → Type 0
IsKnown n m = (u : Upstream) × (lookup n m ≡ some u)

insert-IsKnown :
    (n : String) (ups : Upstream) (m : Map Upstream)
    → IsKnown n m
    → IsKnown n (insert ups.name ups m)
insert-IsKnown n ups m (u, h) = elim (text-cases ups.name n) [
  | inl (same, e) ↦ (ups, ground (arith, lookup-insert ups.name n ups m))
  | inr (other, e) ↦ (u, ground (arith, lookup-insert ups.name n ups m))
]

take_cluster-new_ups :
    (old : Map Upstream) (c : Cluster) (ups : Upstream) (s : Clusters)
    → (take_cluster old c ups s).new_ups ≡ insert ups.name ups s.new_ups
unfolding take_cluster
take_cluster-new_ups old c ups s = ground arith

-- An EDS cluster is translated to an upstream of its name.
translate_cluster-eds :
    (gen_id : String → String) (c : Cluster)
    → is_eds c ≡ true
    → translate_cluster gen_id c ≡ assigned (new_upstream gen_id c)
unfolding translate_cluster translate_cluster_load_assignments cluster_nodes is_eds
translate_cluster-eds gen_id c is = ground arith

module _ (ext : Externals) (p : XdsProvisioner) where
  end-IsKnown :
      (n : String) (c : Cluster) (a : Assigned Upstream) (s : Clusters)
      → IsKnown n s.new_ups
      → IsKnown n (cluster_end p c a s).new_ups
  unfolding cluster_end
  end-IsKnown n c require_further_eds s known = known
  end-IsKnown n c (assigned ups) s known =
      rw take_cluster-new_ups (insert-IsKnown n ups s.new_ups known)

  one-IsKnown :
      (n : String) (res : Any) (s : Clusters)
      → IsKnown n s.new_ups
      → IsKnown n (cluster_one ext p res s).new_ups
  unfolding cluster_one
  one-IsKnown n res s known = elim (Option-cases (ext.unmarshal_cluster res)) [
    | inl e ↦ rw (e, cluster_one) known
    | inr (c, e) ↦ rw (e, cluster_one) (end-IsKnown n c (translate_cluster ext.gen_id c) s known)
  ]

  loop-IsKnown :
      (n : String) (resources : List Any) (s : Clusters)
      → IsKnown n s.new_ups
      → IsKnown n (cluster_loop ext p resources s).new_ups
  unfolding cluster_loop
  loop-IsKnown n [] s known = known
  loop-IsKnown n (res ∷ rest) s known =
      loop-IsKnown n rest (cluster_one ext p res s) (one-IsKnown n res s known)

  one_named :
      (c : Cluster) (res : Any) (s : Clusters)
      → ext.unmarshal_cluster res ≡ some c
      → is_eds c ≡ true
      → IsKnown c.name (cluster_one ext p res s).new_ups
  unfolding cluster_one cluster_end new_upstream
  one_named c res s e is =
      rw (e, cluster_one, translate_cluster-eds ext.gen_id c is)
        (
          new_upstream ext.gen_id c,
          ap (λ m. lookup c.name m)
                (take_cluster-new_ups p.upstreams c (new_upstream ext.gen_id c) s)
              ∙ lookup-insert_self c.name (new_upstream ext.gen_id c) s.new_ups,
        )

  -- A cluster that is named is known afterwards.
  loop_named :
      (c : Cluster) (res : Any) (resources : List Any) (s : Clusters)
      → Memᴰ res resources
      → ext.unmarshal_cluster res ≡ some c
      → is_eds c ≡ true
      → IsKnown c.name (cluster_loop ext p resources s).new_ups
  unfolding cluster_loop
  loop_named c res [] s m e is = elim m [ ]
  loop_named c res (other ∷ rest) s (Memᴰ.head same) e is =
      loop-IsKnown c.name rest (cluster_one ext p other s) (one_named c other s (rw (← same) e) is)
  loop_named c res (other ∷ rest) s (Memᴰ.tail m) e is =
      loop_named c res rest (cluster_one ext p other s) m e is

module _ (ext : Externals) {S : Type 0} (storage : Storage S) (contract : Contract S storage)
    (encode_route : Route → String) (encode_upstream : Upstream → String)
    (route_ok : (r : Route) → ext.marshal.route r ≡ some (encode_route r))
    (upstream_ok : (u : Upstream) → ext.marshal.upstream u ≡ some (encode_upstream u))
    (Known : String → Type 0)
    (injective : (a b : String) → Known a → Known b → ext.gen_id a ≡ ext.gen_id b → a ≡ b)
    (copied : (u v : Upstream) → ext.json_copy u ≡ some v → (v.name ≡ u.name) × (v.id ≡ u.id))
    (copies : (u : Upstream) → (v : Upstream) × (ext.json_copy u ≡ some v)) where
  open contract use {read}

  -- Assume that no two of the known names, which those of the provisioner's upstreams and of the
  -- clusters of the CDS response are, have the same id, that every upstream can be copied through
  -- JSON and keeps its name and id, that all resources can be encoded, and that the storage serves
  -- the upstreams of the provisioner, as it does when there is none yet. If a CDS response names an
  -- EDS cluster and the EDS response after it has an assignment to this cluster, of which the last
  -- one has a usable endpoint, then once the events of both are stored, an upstream with the nodes
  -- of this assignment is read under the key of the cluster's id.
  pub endpoints_stored :
      (timestamp : String) (clusters assignments : List Any) (p : XdsProvisioner) (g : Agent S)
      (res : Any) (c : Cluster) (cla : ClusterLoadAssignment)
      → IsServing ext storage contract encode_route encode_upstream route_ok upstream_ok Known
          injective copied p g.data_storage
      → AreListed ext Known clusters
      → Memᴰ res clusters
      → ext.unmarshal_cluster res ≡ some c
      → is_eds c ≡ true
      → latest (λ cla. cla.cluster_name) c.name (decoded ext assignments) ≡ some cla
      → locality_loop cla.endpoints ≢ []
      → let first = translate_cds ext clusters p in
        let second = translate_eds ext assignments first.state in
        (u : Upstream) × (u.nodes ≡ locality_loop cla.endpoints)
        × (read
              (upstream_key (ext.gen_id c.name))
              (store_events storage ext.marshal timestamp second.events
                (store_events storage ext.marshal timestamp first.events g)).data_storage
            ≡ some (encode_upstream u))
  endpoints_stored timestamp clusters assignments p g res c cla h listed m e is last usable =
      let first = translate_cds ext clusters p in
      let stored = store_events storage ext.marshal timestamp first.events g in
      let (before, known) = known_after in
      let (u, _, nodes, found) =
        translate_eds-arrived ext storage contract encode_route encode_upstream route_ok upstream_ok
          Known injective copied copies timestamp c.name assignments first.state stored before cla
          (rw data_storage-store_events (
            cds-Carries ext storage contract encode_route encode_upstream route_ok upstream_ok Known
              injective copied clusters p listed g.data_storage h))
          known last usable in
      (u, nodes, found)
    where
      known_after : IsKnown c.name (translate_cds ext clusters p).state.upstreams
      known_after =
          unfold translate_cds in
          loop_named ext p c res clusters (record { required = []; manifest = []; new_ups = [] }) m
            e is
