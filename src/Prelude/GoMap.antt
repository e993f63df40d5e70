-- ===== src/Prelude/GoMap.antt =====
-- Go's `map[string]V` as an association list. The order of a range over a map is unspecified in Go;
-- here it is the order of the list, so a statement about every map covers every order.
use Prim.Native.String.{String}
use mathlib.Core.Path.{◌≡◌, refl}
use mathlib.Core.Bool.{Bool, true, false}
use mathlib.Core.Option.{Option, none, some}
use mathlib.Core.List.{List, [], ◌∷◌}
use native.Mathlib.Omega.{arith}
use text.Mathlib.Text.{◌==◌}
use text.Mathlib.TextEquality.{eq_iff}
use text.Mathlib.TextPositions.{eq_refl}
use amesh.Prelude.Tests.{if◌then◌else◌}

abbrev pub Map {ℓ} : Type ℓ → Type ℓ
Map V = List (String × V)

abbrev pub is_some {ℓ} : {A : Type ℓ} → Option A → Bool
is_some none = false
is_some (some a) = true

module _ {ℓ} {V : Type ℓ} where
  -- value, ok := m[name]
  unfoldable pub lookup : String → Map V → Option V
  lookup name [] = none
  lookup name ((other, value) ∷ m) =
      let later = lookup name m in if other == name then some value else later

  -- m[name] = value: a key that is there keeps its place
  unfoldable pub insert : String → V → Map V → Map V
  insert name value [] = (name, value) ∷ []
  insert name value ((other, old) ∷ m) =
      let later = insert name value m in
      if other == name then (other, value) ∷ m else (other, old) ∷ later

  -- delete(m, k)
  unfoldable pub delete : String → Map V → Map V
  delete k [] = []
  delete k ((j, v) ∷ m) = let rest = delete k m in if j == k then rest else (j, v) ∷ rest

  pub lookup-insert :
      (written asked : String) (value : V) (m : Map V)
      → lookup asked (insert written value m)
        ≡ (if written == asked then some value else lookup asked m)
  unfolding insert lookup
  lookup-insert written asked value [] = refl
  lookup-insert written asked value ((other, old) ∷ m) = ground (
    lookup-insert written asked value m,
    eq_iff other asked,
    eq_iff other written,
    eq_iff written asked,
    arith,
  )

  pub lookup-delete :
      (k j : String) (m : Map V) → lookup j (delete k m) ≡ (if k == j then none else lookup j m)
  unfolding lookup delete
  lookup-delete k j [] = ground arith
  lookup-delete k j ((i, v) ∷ m) =
      ground (arith, lookup-delete k j m, eq_iff i k, eq_iff i j, eq_iff k j)

  pub lookup-insert_self : (k : String) (v : V) (m : Map V) → lookup k (insert k v m) ≡ some v
  lookup-insert_self k v m = simp (lookup-insert, eq_refl)

-- The keys, in the order of the range.
abbrev pub keys {ℓ} : {V : Type ℓ} → Map V → List String
keys [] = []
keys ((k, v) ∷ m) = k ∷ keys m

pub ruleset map_laws = (lookup-insert, lookup-delete, eq_refl)
