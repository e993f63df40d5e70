-- ===== src/Xds/Lds/Secrets.antt =====
-- The secrets of the xDS provisioner: a nil map that nothing makes.
use amesh.Prelude.{
  String, ◌≡◌, ◌≢◌, refl, List, [], ◌∷◌, none, panic, Option-cases, inl, inr, ◌⊎◌, arith,
}
use amesh.Xds.Envoy.{Any}
use amesh.Xds.Externals.{Externals}
use amesh.Xds.Provisioner.{XdsProvisioner}
use amesh.Xds.Lds.{store_secret, secret_loop, translate_sds}

module _ (ext : Externals) where
  -- One of the resources decodes.
  abbrev pub HasSecret : List Any → Type 0
  HasSecret [] = ⊥
  HasSecret (res ∷ rest) = (ext.unmarshal_secret res ≢ none) ⊎ HasSecret rest

  secret_loop-panic :
      (names : List String) (resources : List Any)
      → HasSecret resources
      → secret_loop ext none names resources ≡ panic
  unfolding secret_loop store_secret
  secret_loop-panic names [] h = absurd h
  secret_loop-panic names (res ∷ rest) (inl decodes) =
      elim (Option-cases (ext.unmarshal_secret res)) [
        | inl e ↦ absurd (decodes e)
        | inr (secret, e) ↦ ground arith
      ]
  secret_loop-panic names (res ∷ rest) (inr h) = elim (Option-cases (ext.unmarshal_secret res)) [
    | inl e ↦ ground (arith, secret_loop-panic names rest h)
    | inr (secret, e) ↦ ground arith
  ]

  -- While the map of secrets is nil, a response in which any secret decodes makes the goroutine
  -- panic.
  pub translate_sds-panic :
      (resources : List Any) (p : XdsProvisioner)
      → p.secrets ≡ none
      → HasSecret resources
      → translate_sds ext resources p ≡ panic
  unfolding translate_sds
  translate_sds-panic resources p e h = rw (e, secret_loop-panic [] resources h) refl
