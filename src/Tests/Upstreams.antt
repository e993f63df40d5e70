-- ===== src/Tests/Upstreams.antt =====
-- Tests of the conditions of a route, the nodes of an assignment and an EDS response.
use amesh.Prelude.{◌≡◌, List, [], ◌∷◌, map, none, some, lookup, insert, false, arith}
use amesh.Xds.Envoy.{Any, HeaderMatcher, exact_match, present_match}
use amesh.Xds.Externals.{Externals}
use amesh.Xds.Match.{header_vars}
use amesh.Xds.Match.Vars.{all_known, IsComplete, header_vars-IsComplete}
use amesh.Xds.Cluster.{assigned, translate_cluster_load_assignment}
use amesh.Xds.Cluster.Nodes.{Zone, to_locality, zone_nodes, translate_cluster_load_assignment-zones}
use amesh.Xds.Provisioner.{XdsProvisioner}
use amesh.Xds.Eds.{translate_eds}
use amesh.Xds.Eds.Known.{IsKeyed, IsSameNames, insert-IsKeyed, translate_eds-known}
use amesh.Tests.Resources.{plain_upstream}
use amesh.Tests.Running.{sample, new_provisioner}

abbrev methods : List HeaderMatcher
methods =
    record { name = ":method"; specifier = exact_match "GET"; invert_match = false }
    ∷ record { name = "X-User"; specifier = present_match; invert_match = false }
    ∷ []

header_vars-IsComplete_example : IsComplete (all_known methods) methods (header_vars methods)
header_vars-IsComplete_example = header_vars-IsComplete methods

abbrev pub local : Zone
local = record {
  weight = some 3;
  spots =
      record { host = "10.0.0.1"; port = 80; weight = none }
      ∷ record { host = "10.0.0.2"; port = 8080; weight = some 7 }
      ∷ [];
}

translate_cluster_load_assignment-zones_example :
    translate_cluster_load_assignment
      (some (record { cluster_name = "shop"; endpoints = map to_locality (local ∷ []) }))
    ≡ assigned (zone_nodes (local ∷ []))
translate_cluster_load_assignment-zones_example =
    translate_cluster_load_assignment-zones "shop" local [] (ground arith)

-- A decoder that takes every resource for an assignment to one cluster.
abbrev pub with_assignments : Externals
with_assignments = record sample {
  unmarshal_load_assignment =
      λ a. some (record { cluster_name = "shop"; endpoints = map to_locality (local ∷ []) });
}

abbrev with_cluster : XdsProvisioner
with_cluster = record new_provisioner { upstreams = ("shop", plain_upstream "shop" []) ∷ [] }

with_cluster-IsKeyed : IsKeyed with_cluster.upstreams
unfolding lookup insert
with_cluster-IsKeyed = insert-IsKeyed [] (plain_upstream "shop" []) (λ k u h. absurd (ground arith))

abbrev assignments : List Any
assignments = record { type_url = "assignment"; value = "shop" } ∷ []

translate_eds-known_example :
    IsKeyed (translate_eds with_assignments assignments with_cluster).state.upstreams
    × IsSameNames
        (translate_eds with_assignments assignments with_cluster).state.upstreams
        with_cluster.upstreams
translate_eds-known_example =
    translate_eds-known with_assignments (λ u v e. ground arith) assignments with_cluster
      with_cluster-IsKeyed
