-- ===== src/Prng/Lcg.antt =====
-- crates/mytilus-prng/src/lib.rs: srand, rand, rand_r and the two linear congruential steps.
use mytilus.Base.{ℕ, ◌+◌, ◌-◌, ◌*◌, ◌/◌, ◌%◌, ◌^◌, ◌<◌, ◌≡◌, bit_and, bit_xor, arith, bit_and_mask}

-- RAND_SEED after the call.
unfoldable pub srand : ℕ → ℕ
srand s = (s + 2 ^ 64 - 1) % 2 ^ 64

unfoldable pub lcg64 : ℕ → ℕ
lcg64 x = (6_364_136_223_846_793_005 * x % 2 ^ 64 + 1) % 2 ^ 64

unfoldable pub lcg31 : ℕ → ℕ
lcg31 x = bit_and ((1_103_515_245 * x % 2 ^ 32 + 12_345) % 2 ^ 32) 0x7fff_ffff

-- The result and RAND_SEED after the call.
unfoldable pub rand : ℕ → ℕ × ℕ
rand seed =
    let seed' = (6_364_136_223_846_793_005 * seed % 2 ^ 64 + 1) % 2 ^ 64 in (seed' / 2 ^ 33, seed')

unfoldable pub temper : ℕ → ℕ
temper x0 =
    let x1 = bit_xor x0 (x0 / 2 ^ 11) in
    let x2 = bit_xor x1 (bit_and (x1 * 2 ^ 7 % 2 ^ 32) 0x9d2c_5680) in
    let x3 = bit_xor x2 (bit_and (x2 * 2 ^ 15 % 2 ^ 32) 0xefc6_0000) in bit_xor x3 (x3 / 2 ^ 18)

-- The result and `*seed` after the call.
unfoldable pub rand_r : ℕ → ℕ × ℕ
unfolding temper
rand_r seed = let s = (seed * 1_103_515_245 % 2 ^ 32 + 12_345) % 2 ^ 32 in (temper s / 2, s)

-- The step of rand backwards: 13877824140714322085 is the inverse of the multiplier.
pub unrand : ℕ → ℕ
unrand s = (s + 2 ^ 64 - 1) * 13_877_824_140_714_322_085 % 2 ^ 64

-- rand returns a number below 2 ^ 31 and keeps the seed a 64-bit word, and no two seeds have the
-- same successor: the seed before the call can be had back from the one after it.
pub rand_lem :
    (seed : ℕ)
    → seed < 2 ^ 64
    → ((rand seed).0 < 2 ^ 31) × ((rand seed).1 < 2 ^ 64) × (unrand (rand seed).1 ≡ seed)
unfolding rand unrand
rand_lem seed h = (omega arith, omega arith, omega arith)

pub lcg31-eq : (x : ℕ) → lcg31 x ≡ (1_103_515_245 * x + 12_345) % 2 ^ 31
unfolding lcg31
lcg31-eq x = omega (arith, bit_and_mask 31 ((1_103_515_245 * x % 2 ^ 32 + 12_345) % 2 ^ 32))
