-- ===== src/Prng/Cycles.antt =====
-- How many calls pass before the seed of rand, rand_r, lcg31 and lrand48 of crates/mytilus-prng/src/lib.rs is the same again.
use mytilus.Base.{ℕ, zero, suc, ◌+◌, ◌*◌, ◌%◌, ◌^◌, ◌<◌, ◌≡◌, ◌↔◌, ◌∙◌, arith, refl, ap, sym}
use mytilus.Prng.Lcg.{rand, rand_r, lcg31, lcg31-eq}
use mytilus.Prng.Period.{orbit, period}
use mytilus.Prng.Rand48.{
  Xi, Seed48, initial, rand48_step, rand48_step-mod, nrand48, lrand48, IsLc, IsXi, xi_value,
  multiplier,
}

-- A number of calls after which a seed of w bits is the same again.
abbrev pub IsWhole : ℕ → ℕ → Type 0
IsWhole w n = (m : ℕ) × (n ≡ 2 ^ w * m)

rand_state : (y : ℕ) → (rand y).1 ≡ (6_364_136_223_846_793_005 * y + 1) % 2 ^ 64
unfolding rand
rand_state y = omega arith

rand_r_state : (y : ℕ) → (rand_r y).1 ≡ (1_103_515_245 * y + 12_345) % 2 ^ 32
unfolding rand_r
rand_r_state y = omega arith

rand-period : (n x : ℕ) → x < 2 ^ 64 → (orbit (λ s. (rand s).1) n x ≡ x) ↔ IsWhole 64 n
rand-period n x l =
    period 64 1_591_034_055_961_698_251 0 (λ s. (rand s).1) (λ y h. rand_state y) n x l

rand_r-period : (n x : ℕ) → x < 2 ^ 32 → (orbit (λ s. (rand_r s).1) n x ≡ x) ↔ IsWhole 32 n
rand_r-period n x l = period 32 275_878_811 6_172 (λ s. (rand_r s).1) (λ y h. rand_r_state y) n x l

lcg31-period : (n x : ℕ) → x < 2 ^ 31 → (orbit lcg31 n x ≡ x) ↔ IsWhole 31 n
lcg31-period n x l = period 31 275_878_811 6_172 lcg31 (λ y h. lcg31-eq y) n x l

-- The static `__seed48` with the multiplier and the addend that it has unless lcong48 sets others.
abbrev pub drawing : Xi → Xi → Seed48
drawing xi prev = record { xi = xi; lc = initial.lc; prev = prev }

-- The step on the 48-bit numbers.
abbrev step48 : ℕ → ℕ
step48 y = (multiplier initial.lc * y + initial.lc.c) % 2 ^ 48

abbrev next : Xi → Xi
next xi = (rand48_step xi initial.lc).1

initial-IsLc : IsLc initial.lc
initial-IsLc = (omega arith, omega arith, omega arith, omega arith)

value_orbit :
    (n : ℕ) (xi : Xi)
    → IsXi xi
    → IsXi (orbit next n xi) × (xi_value (orbit next n xi) ≡ orbit step48 n (xi_value xi))
unfolding orbit
value_orbit zero xi h = (h, refl)
value_orbit (suc n) xi h =
    let (inside, same) = value_orbit n xi h in
    let (result, words, inside') =
      rand48_step-mod (orbit next n xi) initial.lc inside initial-IsLc in
    (inside', words ∙ result ∙ ap step48 same)

orbit-lrand48 :
    (n : ℕ) (xi prev : Xi)
    → orbit (λ st. (lrand48 st).1) n (drawing xi prev) ≡ drawing (orbit next n xi) prev
unfolding orbit lrand48 nrand48
orbit-lrand48 zero xi prev = refl
orbit-lrand48 (suc n) xi prev = ap (λ st. (lrand48 st).1) (orbit-lrand48 n xi prev)

Xi_lem : (u v : Xi) → IsXi u → IsXi v → xi_value u ≡ xi_value v → u ≡ v
Xi_lem u v hu hv e =
    let first : u.x0 ≡ v.x0 = omega (arith, hu, hv, e) in
    let second : u.x1 ≡ v.x1 = omega (arith, hu, hv, e) in
    let third : u.x2 ≡ v.x2 = omega (arith, hu, hv, e) in
    λ i. record { x0 = first i; x1 = second i; x2 = third i }

lrand48-period :
    (n : ℕ) (xi prev : Xi)
    → IsXi xi
    → (◌≡◌ {A = Seed48} (orbit (λ st. (lrand48 st).1) n (drawing xi prev)) (drawing xi prev))
      ↔ IsWhole 48 n
lrand48-period n xi prev h =
    let (inside, same) = value_orbit n xi h in
    let (only, back) =
      period 48 6_303_725_979 5 step48 (λ y l. refl) n (xi_value xi) (omega (arith, h)) in
    (
      (λ e. only (sym same ∙ ap (λ st. xi_value st.xi) (sym (orbit-lrand48 n xi prev) ∙ e))),
      (λ whole.
          orbit-lrand48 n xi prev
          ∙ ap (λ u. drawing u prev) (Xi_lem (orbit next n xi) xi inside h (same ∙ back whole))),
    )

-- The seed after n calls is the seed before them exactly where n is a multiple of 2 ^ 64 for rand, of 2 ^ 32 for
-- rand_r and of 2 ^ 48 for lrand48 with the multiplier and addend of the start, whatever words and seeds of
-- their width they start from; for lcg31, the step of random on one word, of 2 ^ 31.
pub seeds_cycle :
    (n x y z : ℕ) (xi prev : Xi)
    → x < 2 ^ 64
    → y < 2 ^ 32
    → z < 2 ^ 31
    → IsXi xi
    → ((orbit (λ s. (rand s).1) n x ≡ x) ↔ IsWhole 64 n)
      × ((orbit (λ s. (rand_r s).1) n y ≡ y) ↔ IsWhole 32 n)
      × ((orbit lcg31 n z ≡ z) ↔ IsWhole 31 n)
      × ((◌≡◌ {A = Seed48} (orbit (λ st. (lrand48 st).1) n (drawing xi prev)) (drawing xi prev))
          ↔ IsWhole 48 n)
seeds_cycle n x y z xi prev hx hy hz h =
    (rand-period n x hx, rand_r-period n y hy, lcg31-period n z hz, lrand48-period n xi prev h)
