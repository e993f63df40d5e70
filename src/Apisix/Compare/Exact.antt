-- ===== src/Apisix/Compare/Exact.antt =====
-- The comparison of two slices of resources is exact: what it reports for an id, in terms of the
-- last old and the last new resource with that id.
use amesh.Prelude.{
  String, ◌≡◌, ◌≢◌, refl, ap, List, [], ◌∷◌, Option, none, some, lookup, is_some, if◌then◌else◌,
}
use mathlib.Core.List.{Memᴰ}
use amesh.Apisix.Compare.Updated.{changed-differs, unchanged-equal, old_loop-IsFrom}
use amesh.Apisix.Compare.{
  Changes, index_all, added_loop, old_loop, compare_loops, compare_resources,
}
use amesh.Apisix.Compare.Latest.{
  latest, latest-key, lookup-index_empty, latest-added_loop, latest-deleted, latest-updated,
  latest-unchanged,
}

module _ {ℓ} {A : Type ℓ} (key : A → String) where
  added_loop_empty : (xs : List A) → added_loop key [] xs ≡ xs
  unfolding added_loop lookup
  added_loop_empty [] = refl
  added_loop_empty (x ∷ xs) = ap (◌∷◌ x) (added_loop_empty xs)

module _ {ℓ} {A : Type ℓ} (key : A → String) (marshal : A → Option String) where
  old_loop_empty : (xs : List A) → old_loop key marshal [] xs ≡ (xs, [])
  unfolding old_loop lookup
  old_loop_empty [] = refl
  old_loop_empty (x ∷ xs) = rw (old_loop_empty xs)

  -- The early returns for a nil slice give what the loops would give.
  pub compare_resources-eq-compare_loops :
      (old new : List A) → compare_resources key marshal old new ≡ compare_loops key marshal old new
  unfolding compare_resources compare_loops
  compare_resources-eq-compare_loops [] new = rw added_loop_empty
  compare_resources-eq-compare_loops (x ∷ xs) [] = rw old_loop_empty
  compare_resources-eq-compare_loops (x ∷ xs) (y ∷ ys) = refl

  -- What the three results hold for each id.
  pub record IsExact (old new : List A) (c : Changes A) : Type ℓ where
    pub added :
        (k : String)
        → latest key k c.added ≡ (if is_some (latest key k old) then none else latest key k new)
    pub deleted :
        (k : String)
        → latest key k c.deleted ≡ (if is_some (latest key k new) then none else latest key k old)
    pub updated_new :
        (k : String) (y : A) → latest key k c.updated ≡ some y → latest key k new ≡ some y
    pub changed :
        (k : String) (y : A)
        → latest key k c.updated ≡ some y
        → (x : A) × Memᴰ x old
          × (key x ≡ k)
          × ((text : String) → marshal x ≡ some text → marshal y ≢ some text)
    pub unchanged :
        (k : String) (x y : A)
        → latest key k c.updated ≡ none
        → latest key k old ≡ some x
        → latest key k new ≡ some y
        → (text : String) × (marshal x ≡ some text) × (marshal y ≡ some text)

  index-keyed :
      (new : List A) (k : String) (x : A) → lookup k (index_all key [] new) ≡ some x → key x ≡ k
  index-keyed new k x h = latest-key key k new x (rw (← lookup-index_empty key k new) h)

  compare_loops-IsExact : (old new : List A) → IsExact old new (compare_loops key marshal old new)
  unfolding compare_loops
  compare_loops-IsExact old new = record {
    added = λ k. rw (latest-added_loop, lookup-index_empty);
    deleted = λ k. rw (latest-deleted, lookup-index_empty);
    updated_new = λ k y h.
        rw (← lookup-index_empty key k new)
          (latest-updated key marshal (index_all key [] new) (index-keyed new) k old y h);
    changed = λ k y h.
        let (x, mem, same, changed) =
          old_loop-IsFrom key marshal (index_all key [] new) (index-keyed new) k old y h in
        (x, mem, same, changed-differs marshal x y changed);
    unchanged = λ k x y n h l. unchanged-equal marshal x y (
        latest-unchanged key marshal (index_all key [] new) (index-keyed new) k old x y n h
          (rw lookup-index_empty l));
  }

  -- For every two slices and every id: `added` has the last new resource where the old slice lacks
  -- the id, `deleted` the last old one where the new slice lacks it; what `updated` has is the last
  -- new resource, and some old resource with the id has another encoding than this one, or one of
  -- them has none; and where `updated` has nothing for an id of both, the last old and the last new
  -- resource have the same encoding.
  pub compare_resources-IsExact :
      (old new : List A) → IsExact old new (compare_resources key marshal old new)
  compare_resources-IsExact old new =
      rw compare_resources-eq-compare_loops (compare_loops-IsExact old new)
