-- ===== src/Prelude/Text.antt =====
-- What the code uses of the packages strings and sort. Texts are compared by their bytes.
use Prim.Native.Nat.{ℕ, zero, suc, ◌+◌, ◌-◌, ◌<◌, Ordering, compare as compare_ℕ}
use Prim.Native.Char.{Char, char, code, IsScalar}
use Prim.Native.String.{String, ◌++◌, count, compare}
use mathlib.Core.Path.{◌≡◌, refl}
use mathlib.Core.Logic.{dite}
use mathlib.Core.Bool.{Bool, ◌||◌}
use mathlib.Core.List.{List, [], ◌∷◌}
use native.Mathlib.Decide.{dec_lt}
use native.Mathlib.Omega.{arith}
use text.Mathlib.Text.{starts_with, is_le}
use amesh.Prelude.Tests.{eqb, if◌then◌else◌}

-- s <= t
abbrev pub text_le : String → String → Bool
text_le s t = is_le (compare s t)

-- strings.HasPrefix(s, t)
abbrev pub has_prefix : String → String → Bool
has_prefix s t = starts_with s t

-- s without its first n characters
unfoldable pub drop_chars : ℕ → String → String
drop_chars zero s = s
drop_chars (suc n) String.[] = String.[]
drop_chars (suc n) (String.◌∷◌ c s) = drop_chars n s

-- strings.TrimPrefix(s, t)
unfoldable pub trim_prefix : String → String → String
unfolding drop_chars
trim_prefix s t = if has_prefix s t then drop_chars (count t) s else s

-- strings.Contains(s, t)
unfoldable pub contains : String → String → Bool
contains String.[] t = has_prefix String.[] t
contains (String.◌∷◌ c s) t = has_prefix (String.◌∷◌ c s) t || contains s t

-- the text before the first character with the given code: `s[:pos]` with `pos` of strings.Index,
-- and the whole text if there is none
unfoldable pub before : ℕ → String → String
before d String.[] = String.[]
before d (String.◌∷◌ c s) =
    let rest = before d s in if eqb (code c) d then String.[] else String.◌∷◌ c rest

-- strings.Replace(s, string(d), t, -1) for a single character
unfoldable pub replace_char : ℕ → String → String → String
replace_char d t String.[] = String.[]
replace_char d t (String.◌∷◌ c s) =
    let rest = replace_char d t s in if eqb (code c) d then t ++ rest else String.◌∷◌ c rest

-- the loop of strings.Replace(s, t, "", -1): `skip` characters of an occurrence are left to drop
unfoldable pub remove_loop : String → ℕ → String → String
remove_loop t skip String.[] = String.[]
remove_loop t (suc skip) (String.◌∷◌ c s) = remove_loop t skip s
remove_loop t zero (String.◌∷◌ c s) =
    let dropped = remove_loop t (count t - 1) s in
    let kept = String.◌∷◌ c (remove_loop t zero s) in
    if has_prefix (String.◌∷◌ c s) t then dropped else kept

-- strings.Replace(s, t, "", -1), for a text t that is not empty
unfoldable pub remove_all : String → String → String
unfolding remove_loop
remove_all s t = remove_loop t zero s

abbrev add_front : Char → List String → List String
add_front c [] = String.◌∷◌ c String.[] ∷ []
add_front c (p ∷ ps) = String.◌∷◌ c p ∷ ps

-- strings.Split(s, string(d)) for a single character
unfoldable pub split_char : ℕ → String → List String
split_char d String.[] = String.[] ∷ []
split_char d (String.◌∷◌ c s) =
    let parts = split_char d s in if eqb (code c) d then String.[] ∷ parts else add_front c parts

-- strings.Join(parts, sep)
unfoldable pub join : String → List String → String
join sep [] = ""
join sep (x ∷ []) = x
join sep (x ∷ y ∷ rest) = x ++ (sep ++ join sep (y ∷ rest))

abbrev BelowScalar : ℕ → Type 0
BelowScalar n = compare_ℕ n 55296 ≡ Ordering.lt

BelowScalar-of_lt : (n : ℕ) → n < 55296 → BelowScalar n
BelowScalar-of_lt n h = ground arith

pub IsScalar-of_lt : (n : ℕ) → n < 55296 → IsScalar n
IsScalar-of_lt n h = rw (BelowScalar-of_lt n h) tt

lower_char : Char → Char
unfolding dec_lt
lower_char c =
    dite (dec_lt (code c) 91)
      (λ h.
        dite (dec_lt 64 (code c))
          (λ _. char (code c + 32) (IsScalar-of_lt (code c + 32) (omega arith))) (λ _. c))
      (λ _. c)

-- strings.ToLower on ASCII; other characters are left alone
unfoldable pub to_lower : String → String
unfolding lower_char
to_lower String.[] = String.[]
to_lower (String.◌∷◌ c s) = String.◌∷◌ (lower_char c) (to_lower s)

lower_test : to_lower "X-User-42" ≡ "x-user-42"
unfolding to_lower
lower_test = refl

replace_test : replace_char b'.' ".." "a.b." ≡ "a..b.."
unfolding replace_char
replace_test = refl

remove_test : remove_all "x.svc.cluster.local#y.svc.cluster.local" ".svc.cluster.local" ≡ "x#y"
unfolding remove_all
remove_test = refl
