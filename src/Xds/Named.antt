-- ===== src/Xds/Named.antt =====
-- The map upstreams of xdsProvisioner in pkg/amesh/provisioner/xds.go: each upstream stands under
-- its own name, and its id is made of the name.
use amesh.Prelude.{
  String, true, ◌≡◌, ◌≢◌, refl, List, [], ◌∷◌, none, some, Map, lookup, insert, lookup-insert,
  eq_iff, All, arith, text-cases, inl, inr,
}
use amesh.Apisix.Upstream.{Upstream}
use amesh.Apisix.Compare.Latest.{latest}
use amesh.Xds.Provisioner.{has_nodes}
use amesh.Xds.Cds.{with_nodes}

-- No key stands in the map twice.
abbrev pub IsDistinct {ℓ} : {V : Type ℓ} → Map V → Type ℓ
IsDistinct [] = Unit
IsDistinct ((k, v) ∷ m) = (lookup k m ≡ none) × IsDistinct m

pub insert-IsDistinct {ℓ} :
    {V : Type ℓ} (k : String) (v : V) (m : Map V) → IsDistinct m → IsDistinct (insert k v m)
unfolding insert lookup
insert-IsDistinct k v [] h = (refl, tt)
insert-IsDistinct k v ((j, w) ∷ m) h = elim (text-cases j k) [
  | inl (same, e) ↦ rw same h
  | inr (other, e) ↦
      rw other (ground (arith, lookup-insert k j v m, eq_iff k j, h.0), insert-IsDistinct k v m h.1)
]

-- Known is any set of names that has those of the map.
module _ (gen_id : String → String) (Known : String → Type 0) where
  abbrev pub IsNamed : Map Upstream → Type 0
  IsNamed m =
      (n : String) (u : Upstream) → lookup n m ≡ some u → (u.name ≡ n) × (u.id ≡ gen_id n) × Known n

  pub insert-IsNamed :
      (ups : Upstream) (m : Map Upstream)
      → ups.id ≡ gen_id ups.name
      → Known ups.name
      → IsNamed m
      → IsNamed (insert ups.name ups m)
  insert-IsNamed ups m i known named n u e = elim (text-cases ups.name n) [
    | inl (same, eq) ↦
        let own : u ≡ ups = ground (arith, lookup-insert ups.name n ups m) in
        rw (own, ← eq) (refl, i, known)
    | inr (other, ne) ↦ named n u (ground (arith, lookup-insert ups.name n ups m))
  ]

  -- Upstreams of one cluster say nothing of another one.
  pub latest-other :
      (k : String) (i : String) (us : List Upstream)
      → All (λ u. u.id ≡ i) us
      → i ≢ k
      → latest (λ u. u.id) k us ≡ none
  unfolding latest
  latest-other k i [] h ne = refl
  latest-other k i (u ∷ us) h ne = ground (arith, latest-other k i us h.1 ne, h.0, eq_iff u.id k)

  -- What the upstreams with nodes say of an id is what the map says of its name.
  pub lookup-latest :
      (k : String) (m : Map Upstream) (u : Upstream)
      → IsDistinct m
      → IsNamed m
      → latest (λ u. u.id) k (with_nodes m) ≡ some u
      → (lookup u.name m ≡ some u) × (has_nodes u ≡ true)
  unfolding latest with_nodes lookup
  lookup-latest k [] u d named e = absurd (cc e)
  lookup-latest k ((n, v) ∷ m) u d named e =
      ground (arith, lookup-latest k m u d.1 rest, named n v, eq_iff n n, eq_iff n u.name, d.0)
    where
      rest : IsNamed m
      rest n' u' e' = unfold lookup in ground (arith, named n' u', eq_iff n n', d.0)
