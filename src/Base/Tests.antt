-- ===== src/Base/Tests.antt =====
-- Boolean tests on the native numbers, and the conditional.
use Prim.Native.Nat.{ℕ, compare, Ordering}
use mathlib.Core.Path.{◌≡◌, refl, ap, fun_ext}
use mathlib.Core.Logic.{◌≢◌, ◌↔◌, ◌⊎◌, inl, inr}
use mathlib.Core.Bool.{Bool, true, false}
use native.Mathlib.Omega.{arith}

abbrev pub ltb : ℕ → ℕ → Bool
ltb a b = elim (compare a b) [ Ordering.lt ↦ true | _ ↦ false ]

abbrev pub leb : ℕ → ℕ → Bool
leb a b = elim (compare a b) [ Ordering.gt ↦ false | _ ↦ true ]

infix 50 ◌==◌
abbrev pub ◌==◌ : ℕ → ℕ → Bool
a == b = elim (compare a b) [ Ordering.eq ↦ true | _ ↦ false ]

infix 1 if◌then◌else◌
abbrev pub if◌then◌else◌ {ℓ} : {A : Type ℓ} → Bool → A → A → A
if true then x else y = x
if false then x else y = y

-- A Rust `bool as c_int`.
abbrev pub as_int : Bool → ℕ
as_int true = 1
as_int false = 0

pub ==_iff : (a b : ℕ) → ((a == b) ≡ true) ↔ (a ≡ b)
==_iff a b = ground arith

-- To split on a computed value and keep the equation.
pub Bool-cases : (b : Bool) → (b ≡ true) ⊎ (b ≡ false)
Bool-cases true = inl refl
Bool-cases false = inr refl

-- A function with another value at one place.
abbrev pub put : {A : Type 0} → (ℕ → A) → ℕ → A → ℕ → A
put cells a v b = if a == b then v else cells b

pub put_same : (cells : ℕ → ℕ) (a : ℕ) → put cells a (cells a) ≡ cells
put_same cells a = fun_ext (λ b. elim (Bool-cases (a == b)) [
  | inl e ↦ let e' : a ≡ b = ground (arith, e) in ground (arith, e, ap cells e')
  | inr e ↦ ground (arith, e)
])

pub put_at : {A : Type 0} (f : ℕ → A) (a : ℕ) (v : A) → put f a v a ≡ v
put_at f a v = let e : (a == a) ≡ true = ground arith in ap (λ b. if b then v else f a) e

pub put_other : {A : Type 0} (f : ℕ → A) (a : ℕ) (v : A) (b : ℕ) → b ≢ a → put f a v b ≡ f b
put_other f a v b h =
    let e : (a == b) ≡ false = ground (arith, h) in ap (λ c. if c then v else f b) e
