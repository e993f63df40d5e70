-- ===== src/Apisix/Var/Comparable.antt =====
-- ToComparableString of pkg/apisix/base.go as a key: when two conditions share their text.
use Prim.Native.Char.{Char, char, code}
use Prim.Native.String.{◌++◌ as ◌+++◌}
use text.Mathlib.TextLemmas.{
  nil-append, cons-append, append_assoc, append_cancel_left, head-eq_of_cons-eq, tail-eq_of_cons-eq,
  nil≢cons,
}
use mathlib.Core.Path.{ap₂}
use amesh.Prelude.{
  ℕ, String, false, ◌≡◌, refl, sym, ap, ◌∙◌, ◌≢◌, inl, inr, Bool-cases, List, [], ◌∷◌, eqb, arith,
  All,
}
use amesh.Prelude.Text.{replace_char}
use amesh.Apisix.Var.{texts, escape, to_comparable_string}

abbrev dot : Char
dot = char b'.' tt

-- The text has no character with the code.
abbrev pub HasNo : ℕ → String → Type 0
HasNo d String.[] = Unit
HasNo d (String.◌∷◌ c s) = (eqb (code c) d ≡ false) × HasNo d s

replace_char-append :
    (d : ℕ) (t s u : String)
    → replace_char d t (s +++ u) ≡ replace_char d t s +++ replace_char d t u
unfolding replace_char
replace_char-append d t String.[] u = rw (nil-append, nil-append)
replace_char-append d t (String.◌∷◌ c s) u = elim (Bool-cases (eqb (code c) d)) [
  | inl h ↦ rw (cons-append, h, replace_char-append d t s u, append_assoc)
  | inr h ↦ rw (cons-append, h, replace_char-append d t s u, cons-append)
]

replace_char_free : (d : ℕ) (t s : String) → HasNo d s → replace_char d t s ≡ s
unfolding replace_char
replace_char_free d t String.[] h = refl
replace_char_free d t (String.◌∷◌ c s) h = rw (h.0, replace_char_free d t s h.1)

dots : (z : String) → ".." +++ ("." +++ z) ≡ "." +++ (".." +++ z)
dots z = sym (append_assoc ".." "." z) ∙ append_assoc "." ".." z

-- A dot at the end of an element reads like a dot at the start of the next one: the two conditions
-- have one text.
to_comparable_string_collision :
    (x y : String)
    → to_comparable_string (texts ((x +++ ".") ∷ y ∷ []))
      ≡ to_comparable_string (texts (x ∷ ("." +++ y) ∷ []))
unfolding to_comparable_string escape replace_char
to_comparable_string_collision x y =
    rw (replace_char-append, replace_char-append) (simp (append_assoc, nil-append) (rw dots))

dot_cons : (r : String) → "." +++ r ≡ String.◌∷◌ dot r
dot_cons r = cons-append dot "" r ∙ ap (String.◌∷◌ dot) (nil-append r)

-- Two texts without a dot are told apart in front of a dot.
cut_at_dot :
    (s t r q : String)
    → HasNo b'.' s
    → HasNo b'.' t
    → s +++ ("." +++ r) ≡ t +++ ("." +++ q)
    → (s ≡ t) × (r ≡ q)
cut_at_dot String.[] String.[] r q hs ht e =
    (refl, append_cancel_left "." r q (rw (nil-append, nil-append) at e))
cut_at_dot String.[] (String.◌∷◌ c t) r q hs ht e =
    let first = head-eq_of_cons-eq (rw (nil-append, dot_cons r, cons-append) at e) in
    absurd (ground (arith, ap code first))
cut_at_dot (String.◌∷◌ c s) String.[] r q hs ht e =
    let first = head-eq_of_cons-eq (rw (cons-append, nil-append, dot_cons q) at e) in
    absurd (ground (arith, ap code first))
cut_at_dot (String.◌∷◌ c s) (String.◌∷◌ d t) r q hs ht e =
    let e' = rw (cons-append c s, cons-append d t) at e in
    let rest = cut_at_dot s t r q hs.1 ht.1 (tail-eq_of_cons-eq e') in
    (ap₂ String.◌∷◌ (head-eq_of_cons-eq e') rest.0, rest.1)

to_comparable_string-cons :
    (x : String) (xs : List String)
    → HasNo b'.' x
    → to_comparable_string (texts (x ∷ xs)) ≡ x +++ ("." +++ to_comparable_string (texts xs))
unfolding to_comparable_string escape
to_comparable_string-cons x xs h = rw (replace_char_free b'.' ".." x h, append_assoc)

no_empty_text : (x r : String) → "" ≢ x +++ ("." +++ r)
no_empty_text String.[] r e = nil≢cons (rw (nil-append, dot_cons) at e)
no_empty_text (String.◌∷◌ c x) r e = nil≢cons (rw cons-append at e)

-- Conditions whose elements are texts without dots have the same comparable text only if they are
-- equal.
to_comparable_string_injective :
    (xs ys : List String)
    → All (HasNo b'.') xs
    → All (HasNo b'.') ys
    → to_comparable_string (texts xs) ≡ to_comparable_string (texts ys)
    → xs ≡ ys
unfolding to_comparable_string
to_comparable_string_injective [] [] hx hy e = refl
to_comparable_string_injective [] (y ∷ ys) hx hy e =
    absurd (no_empty_text y _ (rw (to_comparable_string-cons y ys hy.0, to_comparable_string) at e))
to_comparable_string_injective (x ∷ xs) [] hx hy e =
    absurd (no_empty_text x _ (sym (rw (to_comparable_string-cons x xs hx.0) at e)))
to_comparable_string_injective (x ∷ xs) (y ∷ ys) hx hy e =
    let cut =
      cut_at_dot x y _ _ hx.0 hy.0
        (rw (to_comparable_string-cons x xs hx.0, to_comparable_string-cons y ys hy.0) at e) in
    ap₂ ◌∷◌ cut.0 (to_comparable_string_injective xs ys hx.1 hy.1 cut.1)
