-- ===== src/Prelude/Tests.antt =====
-- Boolean tests on native numbers, the conditional, case analysis, and the result of a Go function
-- that returns a value and an error.
use Prim.Native.Nat.{ℕ, compare, Ordering}
use Prim.Native.String.{String}
use mathlib.Core.Path.{◌≡◌, refl}
use mathlib.Core.Logic.{◌↔◌, ◌⊎◌, inl, inr, ◌≢◌}
use mathlib.Core.Bool.{Bool, true, false}
use mathlib.Core.Option.{Option, none, some}
use native.Mathlib.Omega.{arith}
use text.Mathlib.Text.{◌==◌}
use text.Mathlib.TextEquality.{eq_iff}

abbrev pub ltb : ℕ → ℕ → Bool
ltb a b = elim (compare a b) [ Ordering.lt ↦ true | _ ↦ false ]

abbrev pub leb : ℕ → ℕ → Bool
leb a b = elim (compare a b) [ Ordering.gt ↦ false | _ ↦ true ]

-- Equality of numbers; `==` is that of texts.
abbrev pub eqb : ℕ → ℕ → Bool
eqb a b = elim (compare a b) [ Ordering.eq ↦ true | _ ↦ false ]

infix 1 if◌then◌else◌
abbrev pub if◌then◌else◌ {ℓ} : {A : Type ℓ} → Bool → A → A → A
if true then x else y = x
if false then x else y = y

pub eqb_iff : (a b : ℕ) → (eqb a b ≡ true) ↔ (a ≡ b)
eqb_iff a b = ground arith

pub Bool-cases : (b : Bool) → (b ≡ true) ⊎ (b ≡ false)
Bool-cases true = inl refl
Bool-cases false = inr refl

pub Option-cases {ℓ} : {A : Type ℓ} (o : Option A) → (o ≡ none) ⊎ ((a : A) × (o ≡ some a))
Option-cases none = inl refl
Option-cases (some a) = inr (a, refl)

-- Two texts are equal or not, with the answer of the test.
pub text-cases : (s t : String) → ((s == t) ≡ true) × (s ≡ t) ⊎ ((s == t) ≡ false) × (s ≢ t)
text-cases s t = elim (Bool-cases (s == t)) [
  | inl h ↦ inl (h, (eq_iff s t).0 h)
  | inr h ↦ inr (h, λ e. ground (arith, eq_iff s t))
]

-- `(T, error)`, where the error is its message, or a panic of the goroutine.
pub data Result {ℓ} (A : Type ℓ) : Type ℓ where
  ok : A → Result A
  err : String → Result A
  panic : Result A

infixl 5 ◌>>=◌
abbrev pub ◌>>=◌ {ℓ κ} : {X : Type ℓ} {Y : Type κ} → Result X → (X → Result Y) → Result Y
panic >>= continue = panic
err message >>= continue = err message
ok x >>= continue = continue x

pub ok_injective {ℓ} : {A : Type ℓ} {a b : A} → ok a ≡ ok b → a ≡ b
ok_injective e = cc

-- A chain succeeds only if its first part does.
pub bind-ok {ℓ κ} :
    {X : Type ℓ} {Y : Type κ} (first : Result X) (continue : X → Result Y) {out : Y}
    → (first >>= continue) ≡ ok out
    → (x : X) × (first ≡ ok x) × (continue x ≡ ok out)
bind-ok panic continue h = absurd cc
bind-ok (err message) continue h = absurd cc
bind-ok (ok x) continue h = (x, refl, h)

-- The three ends of a function.
pub Result-cases {ℓ} :
    {X : Type ℓ} (end : Result X)
    → (end ≡ panic) ⊎ ((message : String) × (end ≡ err message)) ⊎ ((x : X) × (end ≡ ok x))
Result-cases panic = inl refl
Result-cases (err message) = inr (inl (message, refl))
Result-cases (ok x) = inr (inr (x, refl))
