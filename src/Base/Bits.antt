-- ===== src/Base/Bits.antt =====
-- Bit operations at variables: one equation for the lowest digit, and the bits one by one.
-- `test_bit a k` is the bit of weight 2 ^ k, a number 0 or 1.
use Prim.Native.Nat.{
  ℕ, zero, suc, ◌+◌, ◌*◌, ◌/◌, ◌%◌, ◌^◌, ◌≤◌, ◌<◌, min, max, bit_and, bit_or, digits, bitwise,
  bit_and-bitwise, bit_or-bitwise,
}
use mathlib.Core.Path.{◌≡◌, refl}
use native.Mathlib.Nat.{pow-suc}
use native.Mathlib.Omega.{arith}
use mytilus.Base.Tests.{◌==◌, if◌then◌else◌}

-- Two runs of `digits` agree once each has as much fuel as the number is large.
enough_fuel :
    (end : ℕ → ℕ) (op : ℕ → ℕ → ℕ) (x y left right : ℕ)
    → x ≤ left
    → x ≤ right
    → digits end op left x y ≡ digits end op right x y
enough_fuel end op zero y zero zero l r = refl
enough_fuel end op zero y zero (suc right) l r = refl
enough_fuel end op zero y (suc left) zero l r = refl
enough_fuel end op zero y (suc left) (suc right) l r = refl
enough_fuel end op (suc x) y zero right l r = absurd (omega arith)
enough_fuel end op (suc x) y (suc left) zero l r = absurd (omega arith)
enough_fuel end op (suc x) y (suc left) (suc right) l r =
    let upper = enough_fuel end op (suc x / 2) (y / 2) left right (omega arith) (omega arith) in
    rw upper

last_digit :
    (end : ℕ → ℕ) (op : ℕ → ℕ → ℕ) (x y : ℕ)
    → bitwise end op (suc x) y ≡ bitwise end op (suc x / 2) (y / 2) * 2 + op (suc x % 2) (y % 2)
last_digit end op x y =
    let short = enough_fuel end op (suc x / 2) (y / 2) x (suc x / 2) (omega arith) (omega arith) in
    omega (arith, short)

pub bit_and_step : (x y : ℕ) → bit_and x y ≡ bit_and (x / 2) (y / 2) * 2 + min (x % 2) (y % 2)
bit_and_step zero y = simp bit_and-bitwise (omega arith)
bit_and_step (suc x) y = simp bit_and-bitwise (last_digit (λ _. 0) min x y)

pub bit_or_step : (x y : ℕ) → bit_or x y ≡ bit_or (x / 2) (y / 2) * 2 + max (x % 2) (y % 2)
bit_or_step zero y = simp bit_or-bitwise (omega arith)
bit_or_step (suc x) y = simp bit_or-bitwise (last_digit (λ w. w) max x y)

unfoldable pub test_bit : ℕ → ℕ → ℕ
test_bit a zero = a % 2
test_bit a (suc k) = test_bit (a / 2) k

pub test_bit-or : (a b k : ℕ) → test_bit (bit_or a b) k ≡ max (test_bit a k) (test_bit b k)
unfolding test_bit
test_bit-or a b zero = omega (arith, bit_or_step a b)
test_bit-or a b (suc k) =
    let half : bit_or a b / 2 ≡ bit_or (a / 2) (b / 2) = omega (arith, bit_or_step a b) in
    rw half (test_bit-or (a / 2) (b / 2) k)

pub test_bit-and : (a b k : ℕ) → test_bit (bit_and a b) k ≡ min (test_bit a k) (test_bit b k)
unfolding test_bit
test_bit-and a b zero = omega (arith, bit_and_step a b)
test_bit-and a b (suc k) =
    let half : bit_and a b / 2 ≡ bit_and (a / 2) (b / 2) = omega (arith, bit_and_step a b) in
    rw half (test_bit-and (a / 2) (b / 2) k)

pub test_bit-zero : (k : ℕ) → test_bit 0 k ≡ 0
unfolding test_bit
test_bit-zero zero = refl
test_bit-zero (suc k) = test_bit-zero k

pub test_bit-lt : (a k : ℕ) → test_bit a k < 2
unfolding test_bit
test_bit-lt a zero = omega arith
test_bit-lt a (suc k) = test_bit-lt (a / 2) k

-- A power of two has one bit.
pub test_bit-power : (i k : ℕ) → test_bit (2 ^ i) k ≡ (if i == k then 1 else 0)
unfolding test_bit
test_bit-power zero zero = refl
test_bit-power zero (suc k) = ground (arith, test_bit-zero k)
test_bit-power (suc i) zero = ground (arith, pow-suc 2 i)
test_bit-power (suc i) (suc k) =
    let half : 2 ^ suc i / 2 ≡ 2 ^ i = omega (arith, pow-suc 2 i) in
    rw half (ground (arith, test_bit-power i k))
