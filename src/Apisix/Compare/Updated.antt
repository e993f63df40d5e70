-- ===== src/Apisix/Compare/Updated.antt =====
-- What the comparison of pkg/apisix/utils/utils.go reports as updated: resources that differ from an
-- old one with their id.
use amesh.Prelude.{
  String, true, false, ◌≡◌, ◌≢◌, refl, sym, ◌∙◌, List, [], ◌∷◌, Option, none, some, Map, lookup,
  arith, eq_iff, inl, inr, Bool-cases, Option-cases, if◌then◌else◌,
}
use mathlib.Core.List.{Memᴰ}
use amesh.Apisix.Compare.{old_loop, is_changed}
use amesh.Apisix.Compare.Latest.{latest}

module _ {ℓ} {A : Type ℓ} (marshal : A → Option String) where
  -- What is changed has no encoding in common.
  pub changed-differs :
      (x y : A)
      → is_changed marshal x y ≡ true
      → (text : String) → marshal x ≡ some text
      → marshal y ≢ some text
  unfolding is_changed
  changed-differs x y h text e f = ground (arith, eq_iff text text)

  pub unchanged-equal :
      (x y : A)
      → is_changed marshal x y ≡ false
      → (text : String) × (marshal x ≡ some text) × (marshal y ≡ some text)
  unfolding is_changed
  unchanged-equal x y h = elim (Option-cases (marshal x)) [
    | inl e ↦ absurd (ground arith)
    | inr (s, e) ↦ elim (Option-cases (marshal y)) [
      | inl f ↦ absurd (ground arith)
      | inr (t, f) ↦ (s, e, ground (arith, eq_iff s t))
    ]
  ]

module _ {ℓ} {A : Type ℓ} (key : A → String) (marshal : A → Option String) where
  -- what a round of the loop puts before what the later rounds update
  abbrev updated_by : Option A → A → List A → List A
  updated_by none z later = later
  updated_by (some rn) z later = if is_changed marshal z rn then rn ∷ later else later

  -- an old resource with the key that the new one changes
  abbrev IsFrom : List A → String → A → Type ℓ
  IsFrom old k y = (x : A) × Memᴰ x old × (key x ≡ k) × (is_changed marshal x y ≡ true)

  IsFrom-tail : (k : String) (z y : A) (xs : List A) → IsFrom xs k y → IsFrom (z ∷ xs) k y
  IsFrom-tail k z y xs (x, mem, same, changed) = (x, Memᴰ.tail mem, same, changed)

  round-IsFrom :
      (k : String) (z y : A) (xs later : List A) (found : Option A)
      → ((rn : A) → found ≡ some rn → key rn ≡ key z)
      → (latest key k later ≡ some y → IsFrom xs k y)
      → latest key k (updated_by found z later) ≡ some y
      → IsFrom (z ∷ xs) k y
  unfolding latest
  round-IsFrom k z y xs later none keyed ih h = IsFrom-tail k z y xs (ih h)
  round-IsFrom k z y xs later (some rn) keyed ih h = elim (Bool-cases (is_changed marshal z rn)) [
    | inr e ↦ IsFrom-tail k z y xs (ih (rw e at h))
    | inl e ↦ elim (Option-cases (latest key k later)) [
      | inr (u, l) ↦ IsFrom-tail k z y xs (ih (ground arith))
      | inl l ↦
          let own : (rn ≡ y) × (key rn ≡ k) = (ground arith, ground (arith, eq_iff (key rn) k)) in
          (z, Memᴰ.head refl, sym (keyed rn refl) ∙ own.1, rw (← own.0) e)
    ]
  ]

  old_loop-updated_by :
      (m : Map A) (z : A) (xs : List A)
      → (old_loop key marshal m (z ∷ xs)).1
        ≡ updated_by (lookup (key z) m) z (old_loop key marshal m xs).1
  unfolding old_loop
  old_loop-updated_by m z xs = ground arith

  -- What the loop updates comes from an old resource with the id that is changed.
  pub old_loop-IsFrom :
      (m : Map A)
      → ((k : String) (x : A) → lookup k m ≡ some x → key x ≡ k)
      → (k : String) (xs : List A) (y : A) → latest key k (old_loop key marshal m xs).1 ≡ some y
      → IsFrom xs k y
  unfolding old_loop latest
  old_loop-IsFrom m keyed k [] y h = absurd (cc h)
  old_loop-IsFrom m keyed k (z ∷ xs) y h =
      round-IsFrom k z y xs (old_loop key marshal m xs).1 (lookup (key z) m)
        (λ rn. keyed (key z) rn) (old_loop-IsFrom m keyed k xs y) (rw old_loop-updated_by at h)
