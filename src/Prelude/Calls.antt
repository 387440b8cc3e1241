-- ===== src/Prelude/Calls.antt =====
-- Rust calls that return a `Result` and can panic, and the arithmetic of `u32` and `u64`.
use Prim.Native.Nat.{ℕ, ◌+◌, ◌-◌, ◌*◌, ◌/◌, ◌^◌, ◌<◌, ◌≤◌}
use mathlib.Core.Path.{◌≡◌, refl}
use mathlib.Core.Logic.{◌⊎◌, inl, inr}
use mathlib.Core.Bool.{Bool}
use mathlib.Core.Option.{Option, none, some}
use native.Mathlib.Omega.{arith}
use package.watershed_delineation.Prelude.Tests.{ltb, leb, ◌==◌, if◌then◌else◌}
use package.watershed_delineation.Prelude.Outcomes.{Outcome, Result, ok, err}

pub data Call {ℓ κ} (E : Type κ) (A : Type ℓ) : Type (ℓ ⊔ κ) where
  done : A → Call E A
  fails : E → Call E A
  panics : Call E A
  out_of_fuel : Call E A

infixl 5 ◌>>=◌
abbrev pub ◌>>=◌ {ℓ κ ι} :
    {E : Type κ} {A : Type ℓ} {B : Type ι} → Call E A → (A → Call E B) → Call E B
done a >>= f = f a
fails e >>= f = fails e
panics >>= f = panics
out_of_fuel >>= f = out_of_fuel

-- `ok_or_else` and `?`.
abbrev pub or_fail {ℓ κ} : {E : Type κ} {A : Type ℓ} → E → Option A → Call E A
or_fail e (some a) = done a
or_fail e none = fails e

-- `unwrap`, and the arithmetic of a build with overflow checks.
abbrev pub or_panics {ℓ κ} : {E : Type κ} {A : Type ℓ} → Option A → Call E A
or_panics (some a) = done a
or_panics none = panics

-- A call that cannot fail, and a `Result` under `?` and `map_err`.
abbrev pub of_outcome {ℓ κ} : {E : Type κ} {A : Type ℓ} → Outcome A → Call E A
of_outcome (Outcome.returns a) = done a
of_outcome Outcome.panics = panics
of_outcome Outcome.out_of_fuel = out_of_fuel

abbrev pub of_result {ℓ κ ι} :
    {E : Type κ} {X : Type ι} {A : Type ℓ} → (X → E) → Result A X → Call E A
of_result f (ok a) = done a
of_result f (err e) = fails (f e)

-- The checked operations on `w` bits.
abbrev pub checked_add : ℕ → ℕ → ℕ → Option ℕ
checked_add w a b = if ltb (a + b) (2 ^ w) then some (a + b) else none

abbrev pub checked_mul : ℕ → ℕ → ℕ → Option ℕ
checked_mul w a b = if ltb (a * b) (2 ^ w) then some (a * b) else none

abbrev pub checked_sub : ℕ → ℕ → Option ℕ
checked_sub a b = if leb b a then some (a - b) else none

abbrev pub checked_div : ℕ → ℕ → Option ℕ
checked_div a b = if b == 0 then none else some (a / b)

abbrev pub and_then {ℓ κ} : {A : Type ℓ} {B : Type κ} → Option A → (A → Option B) → Option B
and_then none f = none
and_then (some a) f = f a

pub checked_add-some : (w a b : ℕ) → a + b < 2 ^ w → checked_add w a b ≡ some (a + b)
checked_add-some w a b h = ground arith

pub checked_mul-some : (w a b : ℕ) → a * b < 2 ^ w → checked_mul w a b ≡ some (a * b)
checked_mul-some w a b h = ground arith

pub checked_sub-some : (a b : ℕ) → b ≤ a → checked_sub a b ≡ some (a - b)
checked_sub-some a b h = ground arith

pub checked_div-some : (a b : ℕ) → 0 < b → checked_div a b ≡ some (a / b)
checked_div-some a b h = ground arith

pub Call-cases {ℓ κ} :
    {E : Type κ} {A : Type ℓ} (c : Call E A)
    → ((a : A) × (c ≡ done a)) ⊎ ((e : E) × (c ≡ fails e)) ⊎ (c ≡ panics) ⊎ (c ≡ out_of_fuel)
Call-cases (done a) = inl (a, refl)
Call-cases (fails e) = inr (inl (e, refl))
Call-cases panics = inr (inr (inl refl))
Call-cases out_of_fuel = inr (inr (inr refl))

-- A test that must hold, and the error otherwise.
abbrev pub require {κ} : {E : Type κ} → Bool → E → Call E (Unit {0})
require t e = if t then done tt else fails e

pub Result-cases {ℓ κ} :
    {A : Type ℓ} {X : Type κ} (r : Result A X) → ((a : A) × (r ≡ ok a)) ⊎ ((x : X) × (r ≡ err x))
Result-cases (ok a) = inl (a, refl)
Result-cases (err x) = inr (x, refl)
