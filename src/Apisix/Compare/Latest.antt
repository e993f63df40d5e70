-- ===== src/Apisix/Compare/Latest.antt =====
-- What a slice of resources says of an id: the last resource that has it. The maps that the
-- comparison of pkg/apisix/utils/utils.go builds are this view.
use amesh.Prelude.{
  String, false, ◌≡◌, refl, List, [], ◌∷◌, ◌++◌, Option, none, some, Map, lookup, insert,
  lookup-insert, inl, inr, is_some, ◌==◌, eq_iff, Option-cases, arith, if◌then◌else◌,
}
use amesh.Apisix.Compare.{index_all, added_loop, old_loop, is_changed}

abbrev pub or_else {ℓ} : {A : Type ℓ} → Option A → Option A → Option A
or_else none d = d
or_else (some a) d = some a

module _ {ℓ} {A : Type ℓ} (key : A → String) where
  unfoldable pub latest : String → List A → Option A
  latest k [] = none
  latest k (x ∷ xs) = or_else (latest k xs) (if key x == k then some x else none)

  pub latest-append :
      (k : String) (xs ys : List A) → latest k (xs ++ ys) ≡ or_else (latest k ys) (latest k xs)
  unfolding latest
  latest-append k [] ys = ground arith
  latest-append k (x ∷ xs) ys = ground (arith, latest-append k xs ys)

  pub latest-key : (k : String) (xs : List A) (x : A) → latest k xs ≡ some x → key x ≡ k
  unfolding latest
  latest-key k [] x h = cc
  latest-key k (y ∷ xs) x h = ground (arith, eq_iff (key y) k, latest-key k xs x)

  -- Indexing a slice keeps, for each id, the last resource with it.
  pub lookup-index_all :
      (k : String) (m : Map A) (xs : List A)
      → lookup k (index_all key m xs) ≡ or_else (latest k xs) (lookup k m)
  unfolding index_all latest
  lookup-index_all k m [] = refl
  lookup-index_all k m (x ∷ xs) =
      ground (arith, lookup-index_all k (insert (key x) x m) xs, lookup-insert (key x) k x m)

  pub lookup-index_empty : (k : String) (xs : List A) → lookup k (index_all key [] xs) ≡ latest k xs
  unfolding lookup
  lookup-index_empty k xs = ground (arith, lookup-index_all k [] xs)

  -- `added` has, for each id that the map lacks, the last resource with it.
  pub latest-added_loop :
      (k : String) (m : Map A) (xs : List A)
      → latest k (added_loop key m xs) ≡ (if is_some (lookup k m) then none else latest k xs)
  unfolding added_loop latest
  latest-added_loop k m [] = ground arith
  latest-added_loop k m (x ∷ xs) = ground (arith, latest-added_loop k m xs, eq_iff (key x) k)

module _ {ℓ} {A : Type ℓ} (key : A → String) (marshal : A → Option String) where
  -- `deleted` has the ids of the slice that the map lacks.
  pub latest-deleted :
      (k : String) (m : Map A) (xs : List A)
      → latest key k (old_loop key marshal m xs).0
        ≡ (if is_some (lookup k m) then none else latest key k xs)
  unfolding old_loop latest
  latest-deleted k m [] = ground arith
  latest-deleted k m (x ∷ xs) = ground (arith, latest-deleted k m xs, eq_iff (key x) k)

module _ {ℓ} {A : Type ℓ} (key : A → String) (marshal : A → Option String) (m : Map A)
    (keyed : (k : String) (x : A) → lookup k m ≡ some x → key x ≡ k) where
  -- What `updated` has for an id is what the map has for it.
  pub latest-updated :
      (k : String) (xs : List A) (y : A)
      → latest key k (old_loop key marshal m xs).1 ≡ some y
      → lookup k m ≡ some y
  unfolding old_loop latest
  latest-updated k [] y h = cc
  latest-updated k (x ∷ xs) y h = elim (Option-cases (lookup (key x) m)) [
    | inl e ↦ ground (arith, latest-updated k xs y)
    | inr (rn, e) ↦ ground (arith, latest-updated k xs y, keyed (key x) rn, eq_iff (key rn) k)
  ]

  -- If `updated` has nothing for an id of both, its last old resource is unchanged.
  pub latest-unchanged :
      (k : String) (xs : List A) (x y : A)
      → latest key k (old_loop key marshal m xs).1 ≡ none
      → latest key k xs ≡ some x
      → lookup k m ≡ some y
      → is_changed marshal x y ≡ false
  unfolding old_loop latest
  latest-unchanged k [] x y n h l = cc
  latest-unchanged k (z ∷ xs) x y n h l = elim (Option-cases (lookup (key z) m)) [
    | inl e ↦ ground (arith, latest-unchanged k xs x y, eq_iff (key z) k)
    | inr (rn, e) ↦
        ground
          (arith, latest-unchanged k xs x y, keyed (key z) rn, eq_iff (key z) k, eq_iff (key rn) k)
  ]
