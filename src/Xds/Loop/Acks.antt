-- ===== src/Xds/Loop/Acks.antt =====
-- Every response is answered once, in order.
use amesh.Prelude.{
  String, ◌≡◌, refl, ap, List, [], ◌∷◌, none, some, Result, ok, err, panic, ok_injective, bind-ok,
  ◌⊎◌, inl, inr,
}
use amesh.Xds.Envoy.{DiscoveryResponse, DiscoveryRequest}
use amesh.Xds.Externals.{Externals}
use amesh.Xds.Provisioner.{XdsProvisioner, Translated}
use amesh.Xds.Translate.{Round, ack_request, nack_request, answer, translate, translate_round}
use amesh.Xds.Loop.{translate_loop}

-- The request answers the response, which finds the provisioner p and leaves it as q, after a
-- response of the version given was the last accepted, of whatever type: it has the type and the
-- nonce of the response. If translate succeeds it accepts, with the version of the response and the
-- names that translate returns; if translate fails it refuses, with that error, without names and
-- with the version of the last accepted response, and the provisioner stays.
pub record IsAnswer (ext : Externals) (p q : XdsProvisioner) (ver_info : String)
    (resp : DiscoveryResponse) (ack : DiscoveryRequest) : Type 0 where
  pub same_type : ack.type_url ≡ resp.type_url
  pub same_nonce : ack.response_nonce ≡ resp.nonce
  pub outcome :
      ((t : Translated) × (translate ext resp p ≡ ok t)
        × (q ≡ t.state)
        × (ack.error_detail ≡ none)
        × (ack.version_info ≡ resp.version_info)
        × (ack.resource_names ≡ t.resource_names))
      ⊎ ((message : String) × (translate ext resp p ≡ err message)
          × (q ≡ p)
          × (ack.error_detail ≡ some message)
          × (ack.version_info ≡ ver_info)
          × (ack.resource_names ≡ []))

-- Each request answers its response, and its version and the provisioner that it leaves are those
-- that the next response finds, down to the provisioner given last.
abbrev pub AreAnswers :
    Externals
    → XdsProvisioner
    → XdsProvisioner
    → String
    → List DiscoveryResponse
    → List DiscoveryRequest
    → Type 0
AreAnswers ext p q ver_info [] [] = p ≡ q
AreAnswers ext p q ver_info (resp ∷ rest) (ack ∷ acks) =
    (r : XdsProvisioner) × IsAnswer ext p r ver_info resp ack
    × AreAnswers ext r q ack.version_info rest acks
AreAnswers _ _ _ _ _ _ = ⊥

module _ (ext : Externals) where
  answer-IsAnswer :
      (resp : DiscoveryResponse) (ver_info : String) (p : XdsProvisioner) (r : Round ext)
      (m : Result Translated)
      → translate ext resp p ≡ m
      → answer ext resp ver_info p m ≡ ok r
      → IsAnswer ext p r.state ver_info resp r.ack × (r.ver_info ≡ r.ack.version_info)
  unfolding answer ack_request nack_request
  answer-IsAnswer resp ver_info p r (ok t) f e = rw (← ok_injective e) (
    record { same_type = refl; same_nonce = refl; outcome = inl (t, f, refl, refl, refl, refl) },
    refl,
  )
  answer-IsAnswer resp ver_info p r (err message) f e = rw (← ok_injective e) (
    record {
      same_type = refl;
      same_nonce = refl;
      outcome = inr (message, f, refl, refl, refl, refl);
    },
    refl,
  )
  answer-IsAnswer resp ver_info p r panic f e = absurd (cc e)

  -- If no response makes the goroutine panic, there is one request for each response, in their
  -- order, with its type and nonce. It accepts just when translate succeeds on the provisioner that
  -- the responses before leave, with the version of its response and the names of the translation,
  -- and otherwise refuses with the error of translate, without names and with the version of the
  -- request before it, of whatever type that was; a refused response leaves the provisioner as it is.
  pub translate_loop-AreAnswers :
      (resps : List DiscoveryResponse) (ver_info : String) (p q : XdsProvisioner)
      (acks : List DiscoveryRequest) (v : String)
      → translate_loop ext resps ver_info p ≡ ok (acks, v, q)
      → AreAnswers ext p q ver_info resps acks
  unfolding translate_loop translate_round
  translate_loop-AreAnswers [] ver_info p q acks v e =
      rw (← ap (λ t. t.0) (ok_injective e)) (ap (λ t. t.2) (ok_injective e))
  translate_loop-AreAnswers (resp ∷ rest) ver_info p q acks v e =
      let (r, e1, f1) = bind-ok (translate_round ext resp ver_info p) _ e in
      let ((more, w, o), e2, f2) = bind-ok (translate_loop ext rest r.ver_info r.state) _ f1 in
      let (first, same) = answer-IsAnswer resp ver_info p r (translate ext resp p) refl e1 in
      let left : o ≡ q = ap (λ t. t.2) (ok_injective f2) in
      rw (← ap (λ t. t.0) (ok_injective f2)) (
        r.state,
        first,
        rw (← same, ← left) (translate_loop-AreAnswers rest r.ver_info r.state o more w e2),
      )
