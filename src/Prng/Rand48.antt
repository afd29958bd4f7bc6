-- ===== src/Prng/Rand48.antt =====
-- crates/mytilus-prng/src/lib.rs: the 48-bit family.
-- Three 16-bit words stand for `xi`, four for `lc`, and both together for the static `__seed48`.
-- erand48 is modelled up to the bits of the double that it builds; the subtraction of 1.0 is not.
use mytilus.Base.{
  ℕ, ◌+◌, ◌-◌, ◌*◌, ◌/◌, ◌%◌, ◌^◌, ◌≤◌, ◌<◌, ◌≡◌, bit_and, bit_or, arith, refl, ◌∙◌, ap₂,
  bit_and_mask, bit_or_fields, bit_or_comm, ltb, ◌⊎◌, if◌then◌else◌,
}
pub mod Sequence

pub record Xi : Type 0 where
  pub x0 : ℕ
  pub x1 : ℕ
  pub x2 : ℕ

pub record Lc : Type 0 where
  pub a0 : ℕ
  pub a1 : ℕ
  pub a2 : ℕ
  pub c : ℕ

-- `__seed48` and the static PREV of seed48.
pub record Seed48 : Type 0 where
  pub xi : Xi
  pub lc : Lc
  pub prev : Xi

abbrev pub initial : Seed48
initial = record {
  xi = record { x0 = 0; x1 = 0; x2 = 0 };
  lc = record { a0 = 0xe66d; a1 = 0xdeec; a2 = 0x5; c = 0xb };
  prev = record { x0 = 0; x1 = 0; x2 = 0 };
}

-- `lo | (mid << 16) | (hi << 32)` on u64.
abbrev join : ℕ → ℕ → ℕ → ℕ
join lo mid hi = bit_or (bit_or lo (mid * 2 ^ 16 % 2 ^ 64)) (hi * 2 ^ 32 % 2 ^ 64)

-- The result and `xi` after the call.
unfoldable pub rand48_step : Xi → Lc → ℕ × Xi
rand48_step xi lc =
    let x = join xi.x0 xi.x1 xi.x2 in
    let a = join lc.a0 lc.a1 lc.a2 in
    let x' = (a * x % 2 ^ 64 + lc.c) % 2 ^ 64 in
    (
      bit_and x' 0xffff_ffff_ffff,
      record { x0 = x' % 2 ^ 16; x1 = x' / 2 ^ 16 % 2 ^ 16; x2 = x' / 2 ^ 32 % 2 ^ 16 },
    )

-- The bits of the double in [1, 2) from which erand48 subtracts 1.0.
unfoldable pub erand48_bits : Xi → Seed48 → ℕ × Xi
unfolding rand48_step
erand48_bits s st =
    let (step, s') = rand48_step s st.lc in
    (bit_or 0x3ff0_0000_0000_0000 (step * 2 ^ 4 % 2 ^ 64), s')

unfoldable pub nrand48 : Xi → Seed48 → ℕ × Xi
unfolding rand48_step
nrand48 s st = let (step, s') = rand48_step s st.lc in (step / 2 ^ 17, s')

-- `(step >> 16) as i32 as c_long`: the sign of the low 32 bits is extended to 64.
unfoldable pub jrand48 : Xi → Seed48 → ℕ × Xi
unfolding rand48_step
jrand48 s st =
    let (step, s') = rand48_step s st.lc in
    let low = step / 2 ^ 16 % 2 ^ 32 in
    (if ltb low (2 ^ 31) then low else low + (2 ^ 64 - 2 ^ 32), s')

-- The calls without an argument work on the first three words of `__seed48`.
unfoldable pub drand48_bits : Seed48 → ℕ × Seed48
unfolding erand48_bits
drand48_bits st = let (r, s) = erand48_bits st.xi st in (r, record st { xi = s })

unfoldable pub lrand48 : Seed48 → ℕ × Seed48
unfolding nrand48
lrand48 st = let (r, s) = nrand48 st.xi st in (r, record st { xi = s })

unfoldable pub mrand48 : Seed48 → ℕ × Seed48
unfolding jrand48
mrand48 st = let (r, s) = jrand48 st.xi st in (r, record st { xi = s })

-- seed48 returns a pointer to PREV.
unfoldable pub seed48 : Xi → Seed48 → Seed48
seed48 s st = record st { prev = st.xi; xi = s }

-- The low and the next 16 bits of the 64-bit pattern of `seed`.
unfoldable pub srand48 : ℕ → Seed48 → Seed48
unfolding seed48
srand48 seed st =
    seed48 (record { x0 = 0x330e; x1 = seed % 2 ^ 16; x2 = seed / 2 ^ 16 % 2 ^ 16 }) st

unfoldable pub lcong48 : Xi → Lc → Seed48 → Seed48
lcong48 xi lc st = record st { xi = xi; lc = lc }

abbrev pub IsXi : Xi → Type 0
IsXi x = (x.x0 < 2 ^ 16) × (x.x1 < 2 ^ 16) × (x.x2 < 2 ^ 16)

abbrev pub IsLc : Lc → Type 0
IsLc l = (l.a0 < 2 ^ 16) × (l.a1 < 2 ^ 16) × (l.a2 < 2 ^ 16) × (l.c < 2 ^ 16)

-- The 48-bit numbers that the words stand for.
abbrev pub xi_value : Xi → ℕ
xi_value x = x.x0 + x.x1 * 2 ^ 16 + x.x2 * 2 ^ 32

abbrev pub multiplier : Lc → ℕ
multiplier l = l.a0 + l.a1 * 2 ^ 16 + l.a2 * 2 ^ 32

join-eq :
    (lo mid hi : ℕ)
    → lo < 2 ^ 16
    → mid < 2 ^ 16
    → hi < 2 ^ 16
    → join lo mid hi ≡ lo + mid * 2 ^ 16 + hi * 2 ^ 32
join-eq lo mid hi p q r =
    let e : mid * 2 ^ 16 % 2 ^ 64 ≡ mid * 2 ^ 16 = omega arith in
    let e' : hi * 2 ^ 32 % 2 ^ 64 ≡ hi * 2 ^ 32 = omega arith in
    rw
      (
        e,
        e',
        bit_or_comm lo (mid * 2 ^ 16),
        bit_or_fields 16 mid lo p,
        bit_or_comm (mid * 2 ^ 16 + lo) (hi * 2 ^ 32),
        bit_or_fields 32 hi (mid * 2 ^ 16 + lo) (omega arith),
      )
      (omega arith)

mod_48 : (y c : ℕ) → (y % 2 ^ 64 + c) % 2 ^ 64 % 2 ^ 48 ≡ (y + c) % 2 ^ 48
mod_48 y c = omega arith

-- One step is multiplication by the multiplier and addition of the addend modulo 2 ^ 48: the
-- result and the words of xi after the call both hold that number.
pub rand48_step-mod :
    (xi : Xi) (lc : Lc)
    → IsXi xi
    → IsLc lc
    → ((rand48_step xi lc).0 ≡ (multiplier lc * xi_value xi + lc.c) % 2 ^ 48)
      × (xi_value (rand48_step xi lc).1 ≡ (rand48_step xi lc).0)
      × IsXi (rand48_step xi lc).1
unfolding rand48_step
rand48_step-mod xi lc hx hl =
    let x = join xi.x0 xi.x1 xi.x2 in
    let a = join lc.a0 lc.a1 lc.a2 in
    let ex = join-eq xi.x0 xi.x1 xi.x2 hx.0 hx.1 hx.2 in
    let ea = join-eq lc.a0 lc.a1 lc.a2 hl.0 hl.1 hl.2 in
    let mask = bit_and_mask 48 ((a * x % 2 ^ 64 + lc.c) % 2 ^ 64) in
    (
      mask ∙ mod_48 (a * x) lc.c ∙ ap₂ (λ s t. (s * t + lc.c) % 2 ^ 48) ea ex,
      omega (arith, mask),
      omega arith,
    )

pub or_exponent : (y : ℕ) → y < 2 ^ 52 → bit_or 0x3ff0_0000_0000_0000 y ≡ 0x3ff0_0000_0000_0000 + y
or_exponent y h = bit_or_fields 52 0x3ff y h

-- lrand48 returns a number below 2 ^ 31, mrand48 the 64-bit pattern of a number from -2 ^ 31 to
-- 2 ^ 31 - 1, and drand48 subtracts 1.0 from the bits of a double that is at least 1.0 and below
-- 2.0; each moves the words of `__seed48` by one step and leaves the rest of it.
pub rand48_ranges :
    (st : Seed48)
    → IsXi st.xi
    → IsLc st.lc
    → ((lrand48 st).0 < 2 ^ 31)
      × (((mrand48 st).0 < 2 ^ 31)
          ⊎ ((2 ^ 64 - 2 ^ 31 ≤ (mrand48 st).0) × ((mrand48 st).0 < 2 ^ 64)))
      × (0x3ff0_0000_0000_0000 ≤ (drand48_bits st).0)
      × ((drand48_bits st).0 < 0x4000_0000_0000_0000)
      × ((lrand48 st).1 ≡ record st { xi = (rand48_step st.xi st.lc).1 })
      × ((mrand48 st).1 ≡ (lrand48 st).1)
      × ((drand48_bits st).1 ≡ (lrand48 st).1)
unfolding lrand48 mrand48 drand48_bits nrand48 jrand48 erand48_bits
rand48_ranges st hx hl =
    let step = (rand48_step st.xi st.lc).0 in
    let small : step < 2 ^ 48 = omega (arith, rand48_step-mod st.xi st.lc hx hl) in
    let bits = or_exponent (step * 2 ^ 4 % 2 ^ 64) (omega arith) in
    (omega arith, ground arith, omega (arith, bits), omega (arith, bits), refl, refl, refl)

-- srand48 makes the state the low 32 bits of the seed above 0x330e, and keeps the state before the
-- call where seed48 returns it.
pub srand48_lem :
    (seed : ℕ) (st : Seed48)
    → (xi_value (srand48 seed st).xi ≡ 0x330e + seed % 2 ^ 32 * 2 ^ 16)
      × ((srand48 seed st).prev ≡ st.xi)
      × ((srand48 seed st).lc ≡ st.lc)
unfolding srand48
srand48_lem seed st = (omega arith, refl, refl)
