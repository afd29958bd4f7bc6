-- ===== src/Sigset/Words.antt =====
-- The words of crates/mytilus-signal/src/sigset.rs as numbers below 2 ^ 64, bit by bit.
use native.Mathlib.Nat.{pow-suc, pow-le-pow_right}
use mytilus.Base.{
  ℕ, zero, suc, ◌+◌, ◌*◌, ◌/◌, ◌%◌, ◌^◌, ◌<◌, ◌≤◌, ◌≡◌, Bool, if◌then◌else◌, bit_and, bit_or,
  bit_and_step, bit_or_step, test_bit, arith, Bool-cases, inl, inr,
}
use mytilus.Sigset.{sigaddset, sigdelset, bit_index, signal_index, validate_sig, complement}

-- The number below 2 ^ n whose bits are the values of a function.
pub word_of : ℕ → (ℕ → Bool) → ℕ
word_of zero f = 0
word_of (suc n) f = (if f 0 then 1 else 0) + 2 * word_of n (λ k. f (suc k))

pub word_of-bound : (n : ℕ) (f : ℕ → Bool) → word_of n f < 2 ^ n
unfolding word_of
word_of-bound zero f = omega arith
word_of-bound (suc n) f = ground (arith, pow-suc 2 n, word_of-bound n (λ k. f (suc k)))

pub test_bit-word_of :
    (n k : ℕ) (f : ℕ → Bool) → k < n → test_bit (word_of n f) k ≡ (if f k then 1 else 0)
unfolding word_of test_bit
test_bit-word_of zero k f l = absurd (omega arith)
test_bit-word_of (suc n) zero f l = ground arith
test_bit-word_of (suc n) (suc k) f l =
    let half : word_of (suc n) f / 2 ≡ word_of n (λ k. f (suc k)) = ground arith in
    rw half (test_bit-word_of n k (λ k. f (suc k)) (omega arith))

-- Numbers below 2 ^ n with the same bits are equal.
pub same_bits :
    (n a b : ℕ) → a < 2 ^ n → b < 2 ^ n → ((k : ℕ) → k < n → test_bit a k ≡ test_bit b k) → a ≡ b
unfolding test_bit
same_bits zero a b la lb h = omega arith
same_bits (suc n) a b la lb h =
    let rest =
      same_bits n (a / 2) (b / 2) (omega (arith, pow-suc 2 n)) (omega (arith, pow-suc 2 n))
        (λ k l. h (suc k) (omega arith)) in
    omega (arith, rest, h 0 (omega arith))

none : (a : ℕ) → a < 2 ^ 0 → a ≡ 0
none a l = omega arith

pub or_bound : (n a b : ℕ) → a < 2 ^ n → b < 2 ^ n → bit_or a b < 2 ^ n
or_bound zero a b la lb = rw (none a la, none b lb) (omega arith)
or_bound (suc n) a b la lb =
    let rest =
      or_bound n (a / 2) (b / 2) (omega (arith, pow-suc 2 n)) (omega (arith, pow-suc 2 n)) in
    ground (arith, bit_or_step a b, pow-suc 2 n, rest)

pub and_bound : (n a b : ℕ) → a < 2 ^ n → b < 2 ^ n → bit_and a b < 2 ^ n
and_bound zero a b la lb = rw (none a la, none b lb) (omega arith)
and_bound (suc n) a b la lb =
    let rest =
      and_bound n (a / 2) (b / 2) (omega (arith, pow-suc 2 n)) (omega (arith, pow-suc 2 n)) in
    ground (arith, bit_and_step a b, pow-suc 2 n, rest)

power_bound : (i : ℕ) → i < 64 → 2 ^ i < 2 ^ 64
power_bound i l =
    let positive : 0 < 2 = omega arith in
    let next : suc i ≤ 64 = omega (arith, l) in
    omega (arith, pow-suc 2 i, pow-le-pow_right positive next)

pub sigaddset-bound : (errno set sig : ℕ) → set < 2 ^ 64 → (sigaddset errno set sig).bits < 2 ^ 64
unfolding sigaddset bit_index
sigaddset-bound errno set sig small =
    let i = signal_index sig % 64 in
    let power : 2 ^ i < 2 ^ 64 = power_bound i (omega arith) in
    elim (Bool-cases (validate_sig sig)) [
      | inl e ↦ rw e small
      | inr e ↦ rw e (or_bound 64 set (2 ^ i) small power)
    ]

pub sigdelset-bound : (errno set sig : ℕ) → set < 2 ^ 64 → (sigdelset errno set sig).bits < 2 ^ 64
unfolding sigdelset bit_index
sigdelset-bound errno set sig small =
    let i = signal_index sig % 64 in
    let power = power_bound i (omega arith) in
    elim (Bool-cases (validate_sig sig)) [
      | inl e ↦ rw e small
      | inr e ↦ rw e (and_bound 64 set (complement (2 ^ i)) small (omega (arith, power)))
    ]
