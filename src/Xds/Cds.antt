-- ===== src/Xds/Cds.antt =====
-- The branch of translate in pkg/amesh/provisioner/xds.go for clusters (CDS).
pub mod Reported
pub mod Forgotten
use amesh.Prelude.{
  String, List, [], ◌∷◌, ◌++◌, Option, none, some, Map, lookup, insert, if◌then◌else◌,
}
use amesh.StringSet.{StringSet, add}
use amesh.Apisix.Upstream.{Upstream}
use amesh.Manifest.{empty_manifest, generate_incremental_events}
use amesh.Xds.Envoy.{Any, Cluster}
use amesh.Xds.Externals.{Externals}
use amesh.Xds.Cluster.{Assigned, assigned, require_further_eds, translate_cluster}
use amesh.Xds.Provisioner.{XdsProvisioner, Translated, require, is_eds, has_nodes, send_eds}

-- the variables of the loop: p.edsRequiredClusters, newManifest.Upstreams and newUps
pub record Clusters : Type 0 where
  pub required : StringSet
  pub manifest : List Upstream
  pub new_ups : Map Upstream

-- the old upstream of an EDS cluster, if it has nodes
unfoldable pub old_with_nodes : Map Upstream → String → List Upstream
old_with_nodes upstreams name = elim (lookup name upstreams) [
  | none ↦ []
  | some ups ↦ if has_nodes ups then ups ∷ [] else []
]

-- what a translated cluster does to the variables
unfoldable pub take_cluster : Map Upstream → Cluster → Upstream → Clusters → Clusters
unfolding old_with_nodes is_eds
take_cluster upstreams c ups s =
    if is_eds c
    then record {
      required = add c.name s.required;
      manifest = s.manifest ++ old_with_nodes upstreams c.name;
      new_ups = insert ups.name ups s.new_ups;
    }
    else record s {
      manifest = s.manifest ++ (if has_nodes ups then ups ∷ [] else []);
      new_ups = insert ups.name ups s.new_ups;
    }

-- for _, ups := range p.upstreams { if len(ups.Nodes) > 0 { append } }
unfoldable pub with_nodes : Map Upstream → List Upstream
with_nodes [] = []
with_nodes ((_, ups) ∷ m) = let rest = with_nodes m in if has_nodes ups then ups ∷ rest else rest

-- what the end of the translation of a cluster does to the variables
unfoldable pub cluster_end : XdsProvisioner → Cluster → Assigned Upstream → Clusters → Clusters
unfolding take_cluster
cluster_end p c require_further_eds s = record s { required = require p.src c.name s.required }
cluster_end p c (assigned ups) s = take_cluster p.upstreams c ups s

module _ (ext : Externals) where
  -- processClusterV3, which nothing calls; none is the error of the decoder
  unfoldable pub process_cluster : Any → Option (Assigned Upstream)
  process_cluster res = elim (ext.unmarshal_cluster res) [
    | none ↦ none
    | some c ↦ some (translate_cluster ext.gen_id c)
  ]

  -- one round of the loop: a resource that does not decode is passed over
  unfoldable pub cluster_one : XdsProvisioner → Any → Clusters → Clusters
  unfolding cluster_end
  cluster_one p res s = elim (ext.unmarshal_cluster res) [
    | none ↦ s
    | some c ↦ cluster_end p c (translate_cluster ext.gen_id c) s
  ]

  unfoldable pub cluster_loop : XdsProvisioner → List Any → Clusters → Clusters
  cluster_loop p [] s = s
  cluster_loop p (res ∷ rest) s = cluster_loop p rest (cluster_one p res s)

  unfoldable pub translate_cds : List Any → XdsProvisioner → Translated
  unfolding cluster_loop with_nodes
  translate_cds resources p =
      let s = cluster_loop p resources (record { required = []; manifest = []; new_ups = [] }) in
      record {
        state = record p { upstreams = s.new_ups; eds_required_clusters = s.required };
        resource_names = [];
        events =
            generate_incremental_events ext.marshal
              (some (record empty_manifest { upstreams = s.manifest }))
              (some (record empty_manifest { upstreams = with_nodes p.upstreams }));
        requests = send_eds s.required;
      }
