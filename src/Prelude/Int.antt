-- ===== src/Prelude/Int.antt =====
-- Signed integers, and the conversions of Go between its fixed widths.
use Prim.Native.Nat.{ℕ, ◌-◌, ◌%◌, ◌^◌, ◌<◌}
use mathlib.Core.Path.{◌≡◌}
use mathlib.Core.Bool.{Bool, false}
use native.Mathlib.Omega.{arith}
use amesh.Prelude.Tests.{ltb, eqb, if◌then◌else◌}

-- `negsuc n` is -(n + 1).
pub data ℤ : Type 0 where
  pos : ℕ → ℤ
  negsuc : ℕ → ℤ

abbrev pub eqb_ℤ : ℤ → ℤ → Bool
eqb_ℤ (pos a) (pos b) = eqb a b
eqb_ℤ (negsuc a) (negsuc b) = eqb a b
eqb_ℤ _ _ = false

-- `int32(x)` of a `uint32`: the upper half of the range turns negative.
unfoldable pub int32 : ℕ → ℤ
int32 x = let low = x % 2 ^ 32 in if ltb low (2 ^ 31) then pos low else negsuc (2 ^ 32 - low - 1)

pub int32_lem : (x : ℕ) → x < 2 ^ 31 → int32 x ≡ pos x
unfolding int32
int32_lem x h = ground arith
