-- ===== src/Tests/Acks.antt =====
-- Tests of the acknowledgements and of the comparison of nodes.
use amesh.Prelude.{pos, String, true, ◌≡◌, ◌↔◌, List, [], ◌∷◌, some, length, All}
use amesh.Apisix.Upstream.{Node}
use amesh.Apisix.Nodes.{is_same_nodes}
use amesh.Apisix.Nodes.Same.{IsAmong, is_same_nodes_iff}
use amesh.Amesh.{get_plugins}
use amesh.Xds.Envoy.{other_url, DiscoveryResponse, DiscoveryRequest}
use amesh.Xds.Match.{get_cluster_name, get_url, get_parameters_match_vars, get_headers_match_vars}
use amesh.Xds.Patch.{patch_amesh_plugins}
use amesh.Xds.Split.{translate_route_plugins}
use amesh.Xds.VirtualHost.{translate_route_configuration}
use amesh.Xds.Rds.{translate_rds}
use amesh.Xds.Provisioner.{XdsProvisioner}
use amesh.Xds.Translate.{translate, translate_round}
use amesh.Xds.Loop.{translate_loop}
use amesh.Xds.Loop.Acks.{AreAnswers, translate_loop-AreAnswers}
use amesh.Tests.Resources.{node}
use amesh.Tests.Running.{IsOk, value_of, value_of_lem, sample, new_provisioner, routes_response}

-- An accepted response and one of an unknown type.
abbrev responses : List DiscoveryResponse
responses =
    routes_response
    ∷ record { type_url = other_url "x"; version_info = "2"; nonce = "b"; resources = [] }
    ∷ []

answered : IsOk (translate_loop sample responses "" new_provisioner)
unfolding translate_loop translate translate_round translate_rds translate_route_configuration
    get_cluster_name get_url get_parameters_match_vars get_headers_match_vars patch_amesh_plugins
    get_plugins translate_route_plugins
answered = tt

abbrev answers : List DiscoveryRequest × String × XdsProvisioner
answers = value_of (translate_loop sample responses "" new_provisioner) answered

translate_loop-AreAnswers_example :
    AreAnswers sample new_provisioner answers.2 "" responses answers.0
translate_loop-AreAnswers_example =
    translate_loop-AreAnswers sample responses "" new_provisioner answers.2 answers.0 answers.1
      (value_of_lem _ answered)

abbrev two_nodes : List Node
two_nodes = node "10.0.0.1" (pos 80) ∷ node "10.0.0.2" (pos 80) ∷ []

abbrev swapped_nodes : List Node
swapped_nodes = node "10.0.0.2" (pos 80) ∷ node "10.0.0.1" (pos 80) ∷ []

is_same_nodes_example :
    (is_same_nodes (some two_nodes) (some swapped_nodes) ≡ true)
    ↔ ((length two_nodes ≡ length swapped_nodes) × All (IsAmong two_nodes) swapped_nodes)
is_same_nodes_example = is_same_nodes_iff two_nodes swapped_nodes
