-- ===== src/Prelude/Split.antt =====
-- strings.Split on texts that were put together with the separator between them.
use Prim.Native.Char.{Char, code}
use Prim.Native.String.{◌++◌ as ◌+++◌}
use Prim.Native.String.append.{nil, cons}
use amesh.Prelude.Tests.{eqb, eqb_iff}
use Prim.Native.Nat.{ℕ}
use Prim.Native.String.{String}
use mathlib.Core.Path.{◌≡◌, refl}
use mathlib.Core.Bool.{Bool, false, ◌||◌}
use mathlib.Core.List.{[], ◌∷◌}
use native.Mathlib.Omega.{arith}
use amesh.Prelude.Text.{split_char}

-- The text has a character with the code.
unfoldable pub has_char : ℕ → String → Bool
has_char d String.[] = false
has_char d (String.◌∷◌ c s) = eqb (code c) d || has_char d s

pub split_char-last : (d : ℕ) (s : String) → has_char d s ≡ false → split_char d s ≡ s ∷ []
unfolding split_char has_char
split_char-last d String.[] h = refl
split_char-last d (String.◌∷◌ c s) h = ground (arith, split_char-last d s)

pub split_char-append :
    (separator : Char) (s rest : String)
    → has_char (code separator) s ≡ false
    → split_char (code separator) (s +++ (String.◌∷◌ separator "" +++ rest))
      ≡ s ∷ split_char (code separator) rest
unfolding split_char has_char
split_char-append separator String.[] rest h =
    rw (nil (String.◌∷◌ separator "" +++ rest), cons separator "" rest, nil rest)
      (ground (arith, eqb_iff (code separator) (code separator)))
split_char-append separator (String.◌∷◌ c s) rest h =
    ground (arith, split_char-append separator s rest, cons c s (String.◌∷◌ separator "" +++ rest))
