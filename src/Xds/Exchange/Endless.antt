-- ===== src/Xds/Exchange/Endless.antt =====
-- A service without pods: the answer to the request for its endpoints makes translate of
-- pkg/amesh/provisioner/xds.go ask for them again.
use amesh.Prelude.{ℕ, zero, suc, String, false, ◌≡◌, refl, [], ◌∷◌, some, lookup, insert, ok}
use amesh.StringSet.{add, strings}
use amesh.Apisix.Upstream.{Upstream}
use amesh.Xds.Envoy.{load_assignment_url, Any, ClusterLoadAssignment, DiscoveryResponse}
use amesh.Xds.Externals.{Externals}
use amesh.Xds.Cluster.{translate_cluster_load_assignment}
use amesh.Xds.Provisioner.{XdsProvisioner, request, require, ignore_eds, send_eds}
use amesh.Xds.Eds.{
  process_cluster_load_assignment, take_assignment, assignment_one, assignment_loop, send_further,
  refresh_events, translate_eds,
}
use amesh.Xds.Translate.{ack_request, answer, translate, translate_round}
use amesh.Xds.Exchange.{Exchange, taken, Turn, turn, Turns, none_taken, turn_taken}

module _ (ext : Externals) (res : Any) (cla : ClusterLoadAssignment) (ups : Upstream)
    (version nonce : String) (decoded : ext.unmarshal_load_assignment res ≡ some cla)
    (empty : cla.endpoints ≡ []) where
  -- the answer of the control plane: the assignment without endpoints
  abbrev pub empty_answer : DiscoveryResponse
  empty_answer = record {
    type_url = load_assignment_url;
    version_info = version;
    nonce = nonce;
    resources = res ∷ [];
  }

  -- the exchange in which only the endpoints of the cluster are asked for
  abbrev pub asking : XdsProvisioner → Exchange
  asking p = record {
    provisioner = p;
    ver_info = version;
    unanswered = request load_assignment_url (cla.cluster_name ∷ []) ∷ [];
  }

  round_again :
      (p : XdsProvisioner)
      → lookup cla.cluster_name p.upstreams ≡ some ups
      → ignore_eds p.src cla.cluster_name ≡ false
      → translate_round ext empty_answer version p
        ≡ ok (record {
          state = p;
          ver_info = version;
          ack = ack_request ext empty_answer version [];
          events = [] ∷ [];
          requests = request load_assignment_url (cla.cluster_name ∷ []) ∷ [];
        })
  unfolding translate_round translate answer translate_eds assignment_loop assignment_one
      translate_cluster_load_assignment refresh_events require send_eds add insert
  round_again p known asked =
      rw
        (
          decoded, assignment_one, known, process_cluster_load_assignment, empty,
          translate_cluster_load_assignment, take_assignment, asked, require, send_further,
          send_eds, add, strings,
        )
        refl

  asking_again :
      (p : XdsProvisioner)
      → lookup cla.cluster_name p.upstreams ≡ some ups
      → ignore_eds p.src cla.cluster_name ≡ false
      → Turn ext (λ resp. resp ≡ empty_answer) (asking p) (asking p)
  unfolding taken
  asking_again p known asked =
      turn [] [] (request load_assignment_url (cla.cluster_name ∷ [])) empty_answer _ refl refl refl
        (round_again p known asked)

  -- If the agent has asked for the endpoints of a known cluster that it does not ignore, and the
  -- control plane has an assignment without endpoints to answer with, then the exchange need not
  -- end: for each number of answers there is a run that is as long, and the same request is open
  -- after it.
  pub asking-Turns :
      (n : ℕ) (p : XdsProvisioner)
      → lookup cla.cluster_name p.upstreams ≡ some ups
      → ignore_eds p.src cla.cluster_name ≡ false
      → Turns ext (λ resp. resp ≡ empty_answer) n (asking p) (asking p)
  asking-Turns zero p known asked = none_taken
  asking-Turns (suc n) p known asked =
      turn_taken (asking-Turns n p known asked) (asking_again p known asked)
