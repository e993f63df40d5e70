-- ===== src/Xds/Eds.antt =====
-- The branch of translate in pkg/amesh/provisioner/xds.go for load assignments (EDS), with
-- processClusterLoadAssignmentV3 of translator.go.
pub mod Known
pub mod Arrived
pub mod Refreshed
use amesh.Prelude.{pos, String, List, [], ◌∷◌, ◌++◌, none, some, Map, lookup, insert}
use amesh.StringSet.{StringSet}
use amesh.Apisix.Upstream.{Upstream}
use amesh.Manifest.{Event, upstream, event_update, upstream_key}
use amesh.Xds.Envoy.{Any, ClusterLoadAssignment, DiscoveryRequest}
use amesh.Xds.Externals.{Externals}
use amesh.Xds.Cluster.{assigned, require_further_eds, translate_cluster_load_assignment}
use amesh.Xds.Provisioner.{XdsProvisioner, Translated, require, send_eds}

-- The three ends of processing an assignment.
pub data Processed : Type 0 where
  processed : Upstream → Processed
  further_eds : Processed
  failed : Processed

-- the variables of the loop: requireFurtherEds, the names, p.upstreams and newManifest.Upstreams
pub record Assignments : Type 0 where
  pub required : StringSet
  pub names : List String
  pub upstreams : Map Upstream
  pub manifest : List Upstream

-- An update event for each upstream, also without nodes.
unfoldable pub refresh_events : List Upstream → List Event
refresh_events [] = []
refresh_events (ups ∷ rest) =
    record {
      type = event_update;
      key = upstream_key ups.id;
      object = some (upstream ups);
      tombstone = none;
      revision = pos 0;
    }
    ∷ refresh_events rest

unfoldable pub send_further : StringSet → List DiscoveryRequest
send_further [] = []
send_further (e ∷ required) = send_eds (e ∷ required)

-- what the end of processing an assignment does to the variables
unfoldable pub take_assignment :
    String → ClusterLoadAssignment → Processed → Assignments → Assignments
take_assignment src cla failed s = s
take_assignment src cla further_eds s = record s {
  required = require src cla.cluster_name s.required;
}
take_assignment src cla (processed ups) s = record s {
  names = s.names ++ cla.cluster_name ∷ [];
  upstreams = insert ups.name ups s.upstreams;
  manifest = s.manifest ++ ups ∷ [];
}

module _ (ext : Externals) where
  unfoldable pub process_cluster_load_assignment : Map Upstream → ClusterLoadAssignment → Processed
  process_cluster_load_assignment upstreams cla = elim (lookup cla.cluster_name upstreams) [
    | none ↦ failed
    | some ups ↦ elim (translate_cluster_load_assignment (some cla)) [
      | require_further_eds ↦ further_eds
      | assigned nodes ↦ elim (ext.json_copy ups) [
        | none ↦ failed
        | some new_ups ↦ processed (record new_ups { nodes = nodes })
      ]
    ]
  ]

  -- one round of the loop
  unfoldable pub assignment_one : String → Any → Assignments → Assignments
  unfolding process_cluster_load_assignment take_assignment
  assignment_one src res s = elim (ext.unmarshal_load_assignment res) [
    | none ↦ s
    | some cla ↦ take_assignment src cla (process_cluster_load_assignment s.upstreams cla) s
  ]

  unfoldable pub assignment_loop : String → List Any → Assignments → Assignments
  assignment_loop src [] s = s
  assignment_loop src (res ∷ rest) s = assignment_loop src rest (assignment_one src res s)

  unfoldable pub translate_eds : List Any → XdsProvisioner → Translated
  unfolding assignment_loop send_further
  translate_eds resources p =
      let s =
        assignment_loop p.src resources
          (record { required = []; names = []; upstreams = p.upstreams; manifest = [] }) in
      record {
        state = record p { upstreams = s.upstreams };
        resource_names = s.names;
        events = refresh_events s.manifest;
        requests = send_further s.required;
      }
