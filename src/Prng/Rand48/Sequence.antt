-- ===== src/Prng/Rand48/Sequence.antt =====
-- crates/mytilus-prng/src/lib.rs: a program that calls srand48 and then drand48, lrand48 and mrand48, in any order.
use mytilus.Base.{
  ℕ, ◌+◌, ◌-◌, ◌*◌, ◌/◌, ◌%◌, ◌^◌, ◌≡◌, List, [], ◌∷◌, arith, refl, ap, ap₂, ◌∙◌, ltb,
  if◌then◌else◌,
}
use mytilus.Prng.Rand48.{
  Seed48, rand48_step, drand48_bits, lrand48, mrand48, erand48_bits, nrand48, jrand48, srand48,
  IsXi, IsLc, xi_value, multiplier, rand48_step-mod, or_exponent, srand48_lem,
}

pub data Draw : Type 0 where
  drand : Draw
  lrand : Draw
  mrand : Draw

pub draw : Draw → Seed48 → ℕ × Seed48
draw drand st = drand48_bits st
draw lrand st = lrand48 st
draw mrand st = mrand48 st

-- The results of the calls.
pub draw_all : List Draw → Seed48 → List ℕ
draw_all [] st = []
draw_all (d ∷ ds) st = (draw d st).0 ∷ draw_all ds (draw d st).1

-- What a call makes of a 48-bit number: the bits of 1 + x / 2 ^ 48 as a double, the 31 high bits, or the 32
-- high bits as the 64-bit pattern of a signed number.
pub part : Draw → ℕ → ℕ
part drand x = 0x3ff0_0000_0000_0000 + x * 2 ^ 4
part lrand x = x / 2 ^ 17
part mrand x = let high = x / 2 ^ 16 in if ltb high (2 ^ 31) then high else high + (2 ^ 64 - 2 ^ 32)

-- The linear congruential sequence modulo 2 ^ 48 behind x, as each call reads it.
pub parts : ℕ → ℕ → List Draw → ℕ → List ℕ
parts a c [] x = []
parts a c (d ∷ ds) x = let x' = (a * x + c) % 2 ^ 48 in part d x' ∷ parts a c ds x'

draw-part :
    (d : Draw) (st : Seed48)
    → IsXi st.xi
    → IsLc st.lc
    → let x' = (multiplier st.lc * xi_value st.xi + st.lc.c) % 2 ^ 48 in
      ((draw d st).0 ≡ part d x') × ((draw d st).1 ≡ record st { xi = (rand48_step st.xi st.lc).1 })
unfolding draw part drand48_bits lrand48 mrand48 erand48_bits nrand48 jrand48
draw-part drand st hx hl =
    let (step, words, inside) = rand48_step-mod st.xi st.lc hx hl in
    let bits = or_exponent ((rand48_step st.xi st.lc).0 * 2 ^ 4 % 2 ^ 64) (omega arith) in
    (omega (arith, step, bits), refl)
draw-part lrand st hx hl =
    let (step, words, inside) = rand48_step-mod st.xi st.lc hx hl in (omega (arith, step), refl)
draw-part mrand st hx hl =
    let (step, words, inside) = rand48_step-mod st.xi st.lc hx hl in
    let high : (rand48_step st.xi st.lc).0 / 2 ^ 16 % 2 ^ 32
        ≡ (multiplier st.lc * xi_value st.xi + st.lc.c) % 2 ^ 48 / 2 ^ 16 =
      omega (arith, step) in
    (ap (λ (h : ℕ). if ltb h (2 ^ 31) then h else h + (2 ^ 64 - 2 ^ 32)) high, refl)

pub draw_all-parts :
    (ds : List Draw) (st : Seed48)
    → IsXi st.xi
    → IsLc st.lc
    → draw_all ds st ≡ parts (multiplier st.lc) st.lc.c ds (xi_value st.xi)
unfolding draw_all parts
draw_all-parts [] st hx hl = refl
draw_all-parts (d ∷ ds) st hx hl =
    let (step, words, inside) = rand48_step-mod st.xi st.lc hx hl in
    let (result, moved) = draw-part d st hx hl in
    let next : Seed48 = record st { xi = (rand48_step st.xi st.lc).1 } in
    let rest = draw_all-parts ds next inside hl in
    ap₂ (λ r rs. r ∷ rs) result
      (ap (draw_all ds) moved ∙ rest ∙ ap (parts (multiplier st.lc) st.lc.c ds) (words ∙ step))

seeded-IsXi : (seed : ℕ) (st : Seed48) → IsXi (srand48 seed st).xi
unfolding srand48
seeded-IsXi seed st = (omega arith, omega arith, omega arith)

-- Behind srand48, drand48, lrand48 and mrand48, called any number of times in any order, read one
-- linear congruential sequence: it starts with 0x330e below the low 32 bits of the seed, every call
-- takes the next number of the sequence modulo 2 ^ 48, with the multiplier and the addend that the
-- state holds, and returns its own part of it.
pub seeded-parts :
    (ds : List Draw) (seed : ℕ) (st : Seed48)
    → IsLc st.lc
    → draw_all ds (srand48 seed st)
      ≡ parts (multiplier st.lc) st.lc.c ds (0x330e + seed % 2 ^ 32 * 2 ^ 16)
unfolding srand48
seeded-parts ds seed st hl =
    let (start, kept, same) = srand48_lem seed st in
    draw_all-parts ds (srand48 seed st) (seeded-IsXi seed st) hl
    ∙ ap (parts (multiplier st.lc) st.lc.c ds) start
