-- ===== src/Xds/Exchange.antt =====
-- The exchange with the control plane: the requests that translate of pkg/amesh/provisioner/xds.go
-- puts on sendCh and the responses to them, each taken by a round of translateLoop. The control
-- plane answers a request with a response of the same type, in any order, and does not answer an
-- acknowledgement. The timer of run that asks for the clusters again is left out.
pub mod Bound
pub mod Endless
use amesh.Prelude.{ℕ, zero, suc, ◌+◌, String, ◌≡◌, List, [], ◌∷◌, ◌++◌, ok, none}
use amesh.Xds.Envoy.{
  TypeUrl, route_url, cluster_url, load_assignment_url, listener_url, secret_url, other_url,
  DiscoveryResponse, DiscoveryRequest,
}
use amesh.Xds.Externals.{Externals}
use amesh.Xds.Provisioner.{XdsProvisioner, first_send}
use amesh.Xds.Translate.{Round, translate_round}

-- The requests that are not answered yet, and what translateLoop has at hand.
pub record Exchange : Type 0 where
  pub provisioner : XdsProvisioner
  pub ver_info : String
  pub unanswered : List DiscoveryRequest

-- the exchange when a connection has been made
unfoldable pub opened : String → XdsProvisioner → Exchange
unfolding first_send
opened ver_info p = record { provisioner = p; ver_info = ver_info; unanswered = first_send }

module _ (ext : Externals) where
  -- the exchange after a round on the answer to a request between the others
  unfoldable pub taken : List DiscoveryRequest → List DiscoveryRequest → Round ext → Exchange
  taken before after r = record {
    provisioner = r.state;
    ver_info = r.ver_info;
    unanswered = (before ++ after) ++ r.requests;
  }

  module _ (IsSent : DiscoveryResponse → Type 0) where
    -- A response that the control plane sends answers one of the requests.
    pub data Turn (x : Exchange) : Exchange → Type 0 where
      turn :
          (before after : List DiscoveryRequest) (q : DiscoveryRequest) (resp : DiscoveryResponse)
          (r : Round ext)
          → x.unanswered ≡ before ++ q ∷ after
          → resp.type_url ≡ q.type_url
          → IsSent resp
          → translate_round ext resp x.ver_info x.provisioner ≡ ok r
          → Turn x (taken before after r)

    pub data Turns : ℕ → Exchange → Exchange → Type 0 where
      none_taken : {x : Exchange} → Turns zero x x
      turn_taken : {n : ℕ} {x y z : Exchange} → Turns n x y → Turn y z → Turns (suc n) x z

-- How many answers a request of this type can lead to: a listener's routes are asked for next, a
-- cluster's endpoints too.
abbrev pub rank : TypeUrl → ℕ
rank listener_url = 2
rank cluster_url = 2
rank route_url = 1
rank load_assignment_url = 1
rank secret_url = 1
rank (other_url url) = 1

abbrev pub weight : List DiscoveryRequest → ℕ
weight [] = 0
weight (q ∷ qs) = rank q.type_url + weight qs
