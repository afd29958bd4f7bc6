-- ===== src/Base/Flags.antt =====
-- Flags that a program combines with `|` and a function reads with `&`: the bits of the word are the
-- flags in the list.
use Prim.Native.Nat.{ℕ, zero, suc, ◌*◌, ◌/◌, ◌%◌, ◌^◌, bit_and, bit_or, min, max, ◌≤◌}
use mathlib.Core.Path.{◌≡◌, ap, sym, ◌∙◌}
use mathlib.Core.Bool.{Bool, false, ◌||◌, ◌&&◌, not}
use mathlib.Core.List.{List, [], ◌∷◌}
use mathlib.Core.Logic.{◌≢◌, inl, inr}
use native.Mathlib.Nat.{pow-suc, one-le-pow}
use native.Mathlib.Omega.{arith}
use mytilus.Base.Bits.{
  bit_and_step, test_bit, test_bit-or, test_bit-lt, test_bit-zero, test_bit-and, test_bit-power,
}
use mytilus.Base.Masks.{bit_and-zero}
use mytilus.Base.Tests.{◌==◌, if◌then◌else◌, as_int, Bool-cases}

-- Masking with a power of two picks a bit.
pub bit_and-power : (a i : ℕ) → bit_and a (2 ^ i) ≡ test_bit a i * 2 ^ i
unfolding test_bit
bit_and-power a zero = omega (arith, bit_and_step a 1, bit_and-zero (a / 2))
bit_and-power a (suc i) =
    let half : 2 ^ suc i / 2 ≡ 2 ^ i = omega (arith, pow-suc 2 i) in
    let even : 2 ^ suc i % 2 ≡ 0 = omega (arith, pow-suc 2 i) in
    let step : bit_and a (2 ^ suc i) ≡ bit_and (a / 2) (2 ^ i) * 2 =
      ground (arith, bit_and_step a (2 ^ suc i), half, even) in
    let double : test_bit (a / 2) i * 2 ^ suc i ≡ test_bit (a / 2) i * 2 ^ i * 2 =
      omega (arith, ap (λ (t : ℕ). test_bit (a / 2) i * t) (pow-suc 2 i)) in
    omega (arith, step, double, bit_and-power (a / 2) i)

-- The word of a list of flags.
unfoldable pub combine : {F : Type 0} → (F → ℕ) → List F → ℕ
combine value [] = 0
combine value (f ∷ fs) = bit_or (value f) (combine value fs)

-- Whether some flag of the list has a property.
unfoldable pub some_flag : {F : Type 0} → (F → Bool) → List F → Bool
some_flag p [] = false
some_flag p (f ∷ fs) = p f || some_flag p fs

pub combine-bit :
    {F : Type 0} (value : F → ℕ) (p : F → Bool) (k : ℕ)
    → ((f : F) → test_bit (value f) k ≡ as_int (p f))
    → (fs : List F) → test_bit (combine value fs) k ≡ as_int (some_flag p fs)
unfolding combine some_flag
combine-bit value p k h [] = test_bit-zero k
combine-bit value p k h (f ∷ fs) =
    ground (arith, test_bit-or (value f) (combine value fs) k, h f, combine-bit value p k h fs)

-- A test with the mask of one bit.
pub combine-masked :
    {F : Type 0} (value : F → ℕ) (p : F → Bool) (k : ℕ)
    → ((f : F) → test_bit (value f) k ≡ as_int (p f))
    → (fs : List F) → (bit_and (combine value fs) (2 ^ k) == 0) ≡ not (some_flag p fs)
combine-masked value p k h fs =
    ground (arith, bit_and-power (combine value fs) k, combine-bit value p k h fs, one-le-pow k 2)

-- Masking with bits that are all in the word gives the mask.
bit_and_within_below :
    (n w m : ℕ) → m ≤ n → ((k : ℕ) → test_bit m k ≤ test_bit w k) → bit_and w m ≡ m
unfolding test_bit
bit_and_within_below zero w m l h = let none : m ≡ 0 = omega (arith, l) in rw none (bit_and-zero w)
bit_and_within_below (suc n) w m l h = ground (
  arith,
  bit_and_step w m,
  bit_and_within_below n (w / 2) (m / 2) (omega arith) (λ k. h (suc k)),
  h 0,
)

-- Testing for two bits at once.
pub bit_and-both :
    (w i j : ℕ)
    → (bit_and w (bit_or (2 ^ i) (2 ^ j)) == bit_or (2 ^ i) (2 ^ j))
      ≡ (test_bit w i == 1 && test_bit w j == 1)
bit_and-both w i j =
    let mask = bit_or (2 ^ i) (2 ^ j) in
    let bits : (k : ℕ) → test_bit mask k ≡ max (if i == k then 1 else 0) (if j == k then 1 else 0) =
      λ k. ground (arith, test_bit-or (2 ^ i) (2 ^ j) k, test_bit-power i k, test_bit-power j k) in
    elim (Bool-cases (test_bit w i == 1 && test_bit w j == 1)) [
      | inl both ↦
          let within : (k : ℕ) → test_bit mask k ≤ test_bit w k = λ k. elim (Bool-cases (i == k)) [
            | inl e ↦ let e' : k ≡ i = ground (arith, e) in rw e' (ground (arith, both, bits i))
            | inr e ↦ elim (Bool-cases (j == k)) [
              | inl d ↦ let d' : k ≡ j = ground (arith, d) in rw d' (ground (arith, both, bits j))
              | inr d ↦ ground (arith, bits k, e, d)
            ]
          ] in
          let whole = bit_and_within_below mask w mask (omega arith) within in
          ground (arith, both, whole)
      | inr missing ↦
          let apart : bit_and w mask ≢ mask = λ e.
            let at : (k : ℕ) → min (test_bit w k) (test_bit mask k) ≡ test_bit mask k =
              λ k. sym (test_bit-and w mask k) ∙ ap (λ (x : ℕ). test_bit x k) e in
            ground (arith, missing, at i, at j, bits i, bits j, test_bit-lt w i, test_bit-lt w j) in
          ground (arith, missing, apart)
    ]
