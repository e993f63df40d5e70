-- ===== src/StringSet/Sorted.antt =====
-- Sets that Equals of pkg/amesh/util/string_set.go finds equal have one sorted slice.
use mathlib.Core.Path.{ap₂}
use amesh.Prelude.{
  String, Bool, true, false, ◌≡◌, refl, sym, ◌∙◌, List, [], ◌∷◌, lookup, is_some, keys, ◌==◌,
  eq_iff, eq_refl, arith, inl, inr, Bool-cases, if◌then◌else◌,
}
use amesh.Prelude.Text.{text_le}
use amesh.Prelude.Order.{text_le_total, text_le_trans, text_le_antisym}
use amesh.StringSet.{
  StringSet, all_in, equals, strings, insert_sorted, sort_strings, ordered_strings,
}

-- The text is one of the list.
unfoldable pub has : String → List String → Bool
has k [] = false
has k (x ∷ xs) = let later = has k xs in if x == k then true else later

abbrev pub IsDistinct : List String → Type 0
IsDistinct [] = Unit
IsDistinct (x ∷ xs) = (has x xs ≡ false) × IsDistinct xs

abbrev pub IsAbove : String → List String → Type 0
IsAbove x xs = (k : String) → has k xs ≡ true → text_le x k ≡ true

abbrev pub IsSorted : List String → Type 0
IsSorted [] = Unit
IsSorted (x ∷ xs) = IsAbove x xs × IsSorted xs

has-insert_sorted :
    (k e : String) (xs : List String)
    → has k (insert_sorted e xs) ≡ (if e == k then true else has k xs)
unfolding has insert_sorted
has-insert_sorted k e [] = refl
has-insert_sorted k e (x ∷ xs) = ground (arith, has-insert_sorted k e xs)

has-sort_strings : (k : String) (xs : List String) → has k (sort_strings xs) ≡ has k xs
unfolding has sort_strings
has-sort_strings k [] = refl
has-sort_strings k (x ∷ xs) =
    ground (arith, has-sort_strings k xs, has-insert_sorted k x (sort_strings xs))

insert_sorted-IsDistinct :
    (e : String) (xs : List String)
    → has e xs ≡ false
    → IsDistinct xs
    → IsDistinct (insert_sorted e xs)
unfolding has insert_sorted
insert_sorted-IsDistinct e [] h d = (refl, tt)
insert_sorted-IsDistinct e (x ∷ xs) h d = elim (Bool-cases (text_le e x)) [
  | inl le ↦ rw le (h, d)
  | inr le ↦ rw le (
    ground (arith, d.0, has-insert_sorted x e xs, eq_iff x e, eq_iff e x),
    insert_sorted-IsDistinct e xs (ground arith) d.1,
  )
]

insert_sorted-IsSorted :
    (e : String) (xs : List String) → IsSorted xs → IsSorted (insert_sorted e xs)
unfolding has insert_sorted
insert_sorted-IsSorted e [] h = (λ k m. absurd (cc m), tt)
insert_sorted-IsSorted e (x ∷ xs) h = elim (Bool-cases (text_le e x)) [
  | inl le ↦ rw le (λ k m. ground (arith, h.0 k, text_le_trans e x k, eq_iff x k), h)
  | inr le ↦ rw le (
    λ k m. ground (arith, h.0 k, has-insert_sorted k e xs, text_le_total e x, eq_iff e k),
    insert_sorted-IsSorted e xs h.1,
  )
]

sort_strings-IsSorted : (xs : List String) → IsSorted (sort_strings xs)
unfolding sort_strings
sort_strings-IsSorted [] = tt
sort_strings-IsSorted (x ∷ xs) =
    insert_sorted-IsSorted x (sort_strings xs) (sort_strings-IsSorted xs)

sort_strings-IsDistinct : (xs : List String) → IsDistinct xs → IsDistinct (sort_strings xs)
unfolding sort_strings
sort_strings-IsDistinct [] d = tt
sort_strings-IsDistinct (x ∷ xs) d =
    insert_sorted-IsDistinct x (sort_strings xs) (has-sort_strings x xs ∙ d.0)
      (sort_strings-IsDistinct xs d.1)

same_head :
    (x y : String) (xs ys : List String)
    → IsAbove x xs
    → IsAbove y ys
    → ((k : String) → has k (x ∷ xs) ≡ has k (y ∷ ys))
    → x ≡ y
unfolding has
same_head x y xs ys hx hy same = elim (Bool-cases (x == y)) [
  | inl e ↦ (eq_iff x y).0 e
  | inr e ↦
      text_le_antisym x y (hx y (ground (arith, same y, eq_refl y)))
        (hy x (ground (arith, same x, eq_refl x, eq_iff y x, eq_iff x y)))
]

-- A sorted list without repetition is determined by what it has.
sorted_unique :
    (xs ys : List String)
    → IsSorted xs
    → IsSorted ys
    → IsDistinct xs
    → IsDistinct ys
    → ((k : String) → has k xs ≡ has k ys)
    → xs ≡ ys
unfolding has
sorted_unique [] [] sx sy dx dy same = refl
sorted_unique [] (y ∷ ys) sx sy dx dy same = absurd (ground (arith, same y, eq_refl y))
sorted_unique (x ∷ xs) [] sx sy dx dy same = absurd (ground (arith, same x, eq_refl x))
sorted_unique (x ∷ xs) (y ∷ ys) sx sy dx dy same = ap₂ ◌∷◌ head (
    sorted_unique xs ys sx.1 sy.1 dx.1 dy.1
      (λ k. ground (arith, same k, dx.0, dy.0, head, eq_iff x k, eq_iff y k)))
  where
    head : x ≡ y
    head = same_head x y xs ys sx.0 sy.0 same

pub has-keys : (k : String) (set : StringSet) → is_some (lookup k set) ≡ has k (keys set)
unfolding has lookup
has-keys k [] = refl
has-keys k ((j, v) ∷ set) = ground (arith, has-keys k set)

all_in_lem :
    (k : String) (es : List String) (set : StringSet)
    → all_in es set ≡ true
    → has k es ≡ true
    → has k (keys set) ≡ true
unfolding has all_in
all_in_lem k [] set h m = absurd (cc m)
all_in_lem k (e ∷ es) set h m = ground (arith, all_in_lem k es set, has-keys e set, eq_iff e k)

equals-has :
    (set set2 : StringSet) (k : String)
    → equals set set2 ≡ true
    → has k (keys set) ≡ has k (keys set2)
unfolding equals
equals-has set set2 k h = ground (arith, all_in_lem k (keys set2) set, all_in_lem k (keys set) set2)

-- Two sets that Equals finds equal, each without a repeated key, have the same sorted slice, in
-- whatever order their maps are.
equals-ordered_strings :
    (set set2 : StringSet)
    → IsDistinct (keys set)
    → IsDistinct (keys set2)
    → equals set set2 ≡ true
    → ordered_strings set ≡ ordered_strings set2
unfolding ordered_strings strings
equals-ordered_strings set set2 d d2 h =
    sorted_unique (sort_strings (keys set)) (sort_strings (keys set2))
      (sort_strings-IsSorted (keys set)) (sort_strings-IsSorted (keys set2))
      (sort_strings-IsDistinct (keys set) d) (sort_strings-IsDistinct (keys set2) d2)
      (λ k.
        has-sort_strings k (keys set)
        ∙ equals-has set set2 k h
        ∙ sym (has-sort_strings k (keys set2)))

-- The sorted slice of a set is sorted and has exactly the elements of the set.
pub ordered_strings-IsSorted :
    (set : StringSet)
    → IsSorted (ordered_strings set)
      × ((k : String) → has k (ordered_strings set) ≡ is_some (lookup k set))
unfolding ordered_strings strings
ordered_strings-IsSorted set =
    (sort_strings-IsSorted (keys set), λ k. has-sort_strings k (keys set) ∙ sym (has-keys k set))
