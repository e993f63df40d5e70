-- ===== src/Prelude/Order.antt =====
-- The order of texts by their bytes, in which sort.Strings sorts, is total.
use Prim.Native.Nat.{Ordering, compare as compare_ℕ}
use Prim.Native.Char.{Char, code}
use Prim.Native.String.{String, compare, then as first_of}
use Prim.Native.String.compare.{nil-nil, nil-cons, cons-nil, cons-cons}
use mathlib.Core.Path.{◌≡◌, refl, ap, ap₂, ◌∙◌}
use mathlib.Core.Bool.{true, false}
use native.Mathlib.Omega.{arith}
use text.Mathlib.Text.{is_le}
use text.Mathlib.TextEquality.{Char-path}
use amesh.Prelude.Tests.{ltb, eqb, if◌then◌else◌}
use amesh.Prelude.Text.{text_le}

then_le :
    (o r : Ordering)
    → is_le (first_of o r) ≡ (
        if elim o [ Ordering.lt ↦ true | _ ↦ false ]
        then true
        else if elim o [ Ordering.eq ↦ true | _ ↦ false ]
        then is_le r
        else false)
then_le Ordering.lt r = refl
then_le Ordering.eq r = refl
then_le Ordering.gt r = refl

-- The first character decides, unless both texts start with it.
text_le-cons :
    (c d : Char) (s t : String)
    → text_le (String.◌∷◌ c s) (String.◌∷◌ d t) ≡ (
        if ltb (code c) (code d)
        then true
        else if eqb (code c) (code d)
        then text_le s t
        else false)
text_le-cons c d s t =
    ap is_le (cons-cons c d s t) ∙ then_le (compare_ℕ (code c) (code d)) (compare s t)

text_le-nil : (c : Char) (s : String) → text_le (String.◌∷◌ c s) String.[] ≡ false
text_le-nil c s = ap is_le (cons-nil c s)

nil-text_le : (s : String) → text_le String.[] s ≡ true
nil-text_le String.[] = ap is_le nil-nil
nil-text_le (String.◌∷◌ c s) = ap is_le (nil-cons c s)

pub text_le_total : (s t : String) → text_le s t ≡ false → text_le t s ≡ true
text_le_total String.[] t h = absurd (ground (arith, nil-text_le t))
text_le_total (String.◌∷◌ c s) String.[] h = nil-text_le _
text_le_total (String.◌∷◌ c s) (String.◌∷◌ d t) h =
    ground (arith, text_le-cons c d s t, text_le-cons d c t s, text_le_total s t)

pub text_le_refl : (s : String) → text_le s s ≡ true
text_le_refl s = ground (arith, text_le_total s s)

pub text_le_trans : (s t u : String) → text_le s t ≡ true → text_le t u ≡ true → text_le s u ≡ true
text_le_trans String.[] t u h k = nil-text_le u
text_le_trans (String.◌∷◌ c s) String.[] u h k = absurd (ground (arith, text_le-nil c s))
text_le_trans (String.◌∷◌ c s) (String.◌∷◌ d t) String.[] h k =
    absurd (ground (arith, text_le-nil d t))
text_le_trans (String.◌∷◌ c s) (String.◌∷◌ d t) (String.◌∷◌ e u) h k =
    ground
      (arith, text_le-cons c d s t, text_le-cons d e t u, text_le-cons c e s u, text_le_trans s t u)

pub text_le_antisym : (s t : String) → text_le s t ≡ true → text_le t s ≡ true → s ≡ t
text_le_antisym String.[] String.[] h k = refl
text_le_antisym String.[] (String.◌∷◌ d t) h k = absurd (ground (arith, text_le-nil d t))
text_le_antisym (String.◌∷◌ c s) String.[] h k = absurd (ground (arith, text_le-nil c s))
text_le_antisym (String.◌∷◌ c s) (String.◌∷◌ d t) h k =
    ap₂ String.◌∷◌ (Char-path c d (ground (arith, text_le-cons c d s t, text_le-cons d c t s))) (
      text_le_antisym s t (ground (arith, text_le-cons c d s t, text_le-cons d c t s))
        (ground (arith, text_le-cons c d s t, text_le-cons d c t s)))
