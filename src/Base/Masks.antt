-- ===== src/Base/Masks.antt =====
-- `&` with a mask of low bits and `|` of disjoint fields, as arithmetic.
use Prim.Native.Nat.{
  ℕ, zero, suc, ◌+◌, ◌-◌, ◌*◌, ◌/◌, ◌%◌, ◌^◌, ◌≤◌, ◌<◌, bit_and, bit_or, bit_or-bitwise,
}
use mathlib.Core.Path.{◌≡◌, refl, ap, sym, subst}
use mathlib.Core.Bool.{Bool, true, ◌&&◌}
use native.Mathlib.Nat.{pow-suc, one-le-pow, mod-add-div, mod-lt}
use native.Mathlib.Omega.{arith}
use mytilus.Base.Bits.{bit_and_step, bit_or_step}

-- A remainder is fixed by a quotient and its range.
mod-eq : (q p r : ℕ) → r < p → (p * q + r) % p ≡ r
mod-eq q p r h = grind arith

mod_double : (a p : ℕ) → 0 < p → a % (2 * p) ≡ a / 2 % p * 2 + a % 2
mod_double a p h =
    let q = a / 2 / p in
    let r = a / 2 % p * 2 + a % 2 in
    let whole : a / 2 ≡ p * (a / 2 / p) + a / 2 % p = omega (arith, mod-add-div (a / 2) p) in
    let split : a ≡ 2 * p * (a / 2 / p) + (a / 2 % p * 2 + a % 2) = omega (arith, whole) in
    subst (λ x. x % (2 * p) ≡ a / 2 % p * 2 + a % 2) (sym split)
      (mod-eq (a / 2 / p) (2 * p) (a / 2 % p * 2 + a % 2) (omega (arith, mod-lt (a / 2) h)))

zero-bit_and : (a n : ℕ) → a ≤ n → bit_and a 0 ≡ 0
zero-bit_and zero n h = refl
zero-bit_and (suc a) zero h = absurd (omega arith)
zero-bit_and (suc a) (suc n) h =
    omega (arith, bit_and_step (suc a) 0, zero-bit_and (suc a / 2) n (omega arith))

zero-bit_or : (a n : ℕ) → a ≤ n → bit_or a 0 ≡ a
zero-bit_or zero n h = refl
zero-bit_or (suc a) zero h = absurd (omega arith)
zero-bit_or (suc a) (suc n) h =
    omega (arith, bit_or_step (suc a) 0, zero-bit_or (suc a / 2) n (omega arith))

pub bit_and-zero : (a : ℕ) → bit_and a 0 ≡ 0
bit_and-zero a = zero-bit_and a a (omega arith)

zero_or : (b : ℕ) → bit_or 0 b ≡ b
zero_or b = simp bit_or-bitwise refl

pub bit_or-zero : (a : ℕ) → bit_or a 0 ≡ a
bit_or-zero a = zero-bit_or a a (omega arith)

-- A mask of `k` low bits is the remainder by `2 ^ k`.
pub bit_and_mask : (k a : ℕ) → bit_and a (2 ^ k - 1) ≡ a % 2 ^ k
bit_and_mask zero a = omega (arith, zero-bit_and a a (omega arith))
bit_and_mask (suc k) a = ground (
  arith,
  bit_and_step a (2 ^ suc k - 1),
  pow-suc 2 k,
  one-le-pow k 2,
  mod_double a (2 ^ k),
  bit_and_mask k (a / 2),
)

-- `(q << k) | r` is a sum when `r` fits `k` bits.
pub bit_or_fields : (k q r : ℕ) → r < 2 ^ k → bit_or (q * 2 ^ k) r ≡ q * 2 ^ k + r
bit_or_fields zero q r fits = ground (arith, zero-bit_or q q)
bit_or_fields (suc k) q r fits =
    let double : q * 2 ^ suc k ≡ 2 * (q * 2 ^ k) =
      omega (arith, ap (λ (t : ℕ). q * t) (pow-suc 2 k)) in
    ground (arith, double, pow-suc 2 k, bit_or_step (q * 2 ^ suc k) r, bit_or_fields k q (r / 2))

bit_or_comm_below : (n a b : ℕ) → a ≤ n → b ≤ n → bit_or a b ≡ bit_or b a
bit_or_comm_below zero zero zero p q = refl
bit_or_comm_below zero zero (suc b) p q = absurd (omega arith)
bit_or_comm_below zero (suc a) b p q = absurd (omega arith)
bit_or_comm_below (suc n) zero b p q = omega (arith, zero_or b, bit_or-zero b)
bit_or_comm_below (suc n) (suc a) zero p q = omega (arith, zero_or (suc a), bit_or-zero (suc a))
bit_or_comm_below (suc n) (suc a) (suc b) p q = omega (
  arith,
  bit_or_step (suc a) (suc b),
  bit_or_step (suc b) (suc a),
  bit_or_comm_below n (suc a / 2) (suc b / 2) (omega arith) (omega arith),
)

pub bit_or_comm : (a b : ℕ) → bit_or a b ≡ bit_or b a
bit_or_comm a b = bit_or_comm_below (a + b) a b (omega arith) (omega arith)

-- Over a small range, check every value by evaluation.
unfoldable pub all_below : ℕ → (ℕ → Bool) → Bool
all_below zero p = true
all_below (suc n) p = p n && all_below n p

pub all_below_sound :
    (bound : ℕ) (test : ℕ → Bool) (k : ℕ) → all_below bound test ≡ true → k < bound → test k ≡ true
unfolding all_below
all_below_sound zero test k checked below = absurd (omega arith)
all_below_sound (suc bound) test k checked below =
    let earlier = all_below_sound bound test k in ground (arith, earlier)
