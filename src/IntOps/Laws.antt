-- ===== src/IntOps/Laws.antt =====
-- The abs and div families, the smallest number included.
use native.Mathlib.Nat.{mod-add-div', mod-lt, div-le_self, div-lt_self}
use mytilus.Base.{
  ℕ, zero, suc, ◌+◌, ◌-◌, ◌*◌, ◌/◌, ◌%◌, ◌^◌, ◌<◌, ◌≤◌, ◌≡◌, ◌≢◌, ◌⊎◌, inl, inr, Bool, true, false,
  ◌&&◌, ◌||◌, ◌==◌, arith, refl, Bool-cases,
}
use mytilus.Memory.{Run, ok, fault}
use mytilus.IntOps.{
  negative, magnitude, absolute, abs, labs, llabs, imaxabs, DivT, with_sign, differ, divide, div,
  ldiv, lldiv, imaxdiv,
}

absolute_lem :
    (half a : ℕ)
    → 0 < half
    → a < half + half
    → (absolute half a ≡ magnitude half a) × (negative half (absolute half a) ≡ (a == half))
absolute_lem half a pos small = (ground arith, ground arith)

-- abs, labs, llabs and imaxabs return the distance of their argument from 0; the result is negative
-- for the smallest number only, for which it is that number again.
pub abs-eq-magnitude :
    (a b : ℕ)
    → a < 2 ^ 32
    → b < 2 ^ 64
    → (abs a ≡ magnitude (2 ^ 31) a)
      × (negative (2 ^ 31) (abs a) ≡ (a == 2 ^ 31))
      × (labs b ≡ magnitude (2 ^ 63) b)
      × (negative (2 ^ 63) (labs b) ≡ (b == 2 ^ 63))
      × (llabs b ≡ labs b)
      × (imaxabs b ≡ labs b)
unfolding abs labs llabs imaxabs
abs-eq-magnitude a b ha hb =
    let (p, q) = absolute_lem (2 ^ 31) a (omega arith) (omega arith) in
    let (r, s) = absolute_lem (2 ^ 63) b (omega arith) (omega arith) in (p, q, r, s, refl, refl)

-- What a division that does not panic returns: quotient times divisor plus remainder is the
-- dividend, the remainder is smaller than the divisor, and the signs are those of a division that
-- truncates toward zero.
pub record IsQuotient (half num den : ℕ) (d : DivT) : Type 0 where
  pub whole : magnitude half num ≡ magnitude half d.quot * magnitude half den + magnitude half d.rem
  pub below : magnitude half d.rem < magnitude half den
  pub quot_sign : d.quot ≢ 0 → negative half d.quot ≡ differ (negative half num) (negative half den)
  pub rem_sign : d.rem ≢ 0 → negative half d.rem ≡ negative half num

-- What a division ends in.
abbrev pub Divides : ℕ → ℕ → ℕ → Run DivT → Type 0
Divides half num den r =
    (((den ≡ 0) ⊎ ((num ≡ half) × (den ≡ half + half - 1))) × (r ≡ fault))
    ⊎ ((d : DivT) × (r ≡ ok d) × IsQuotient half num den d)

magnitude_bound : (half a : ℕ) → a < half + half → magnitude half a ≤ half
magnitude_bound half a small = ground arith

-- Giving a number that fits its sign, and reading it back.
with_sign_lem :
    (half n : ℕ) (minus : Bool)
    → (n < half) ⊎ ((n ≤ half) × (minus ≡ true))
    → 0 < half
    → (magnitude half (with_sign half minus n) ≡ n)
      × (with_sign half minus n ≢ 0 → negative half (with_sign half minus n) ≡ minus)
with_sign_lem half n true fits pos = (ground arith, λ ne. ground (arith, ne))
with_sign_lem half n false fits pos = (ground arith, λ ne. ground (arith, ne))

-- The quotient of two magnitudes.
quotient_bound :
    (half x y : ℕ)
    → x ≤ half
    → 0 < half
    → 0 < y
    → ((x / y < half) ⊎ ((x / y ≡ half) × (x ≡ half) × (y ≡ 1)))
      × (x % y < y)
      × (x ≡ x / y * y + x % y)
quotient_bound half x (suc zero) small pos h =
    let e : x / 1 ≡ x = omega arith in
    let r : x % 1 ≡ 0 = omega arith in
    elim (Bool-cases (x == half)) [
      | inl top ↦ (inr (ground arith, ground arith, refl), omega arith, omega arith)
      | inr other ↦ (inl (ground arith), omega arith, omega arith)
    ]
quotient_bound half x (suc (suc y)) small pos h =
    let whole = mod-add-div' x (suc (suc y)) in
    let below = mod-lt x h in
    elim (Bool-cases (x == 0)) [
      | inl nothing ↦
          (inl (ground (arith, div-le_self x (suc (suc y)))), below, omega (arith, whole))
      | inr more ↦
          let less = div-lt_self {n = x} {k = suc (suc y)} (ground arith) (omega arith) in
          (inl (omega (arith, less)), below, omega (arith, whole))
    ]
quotient_bound half x zero small pos h = absurd (omega arith)

-- The largest quotient belongs to the smallest number divided by 1.
signs_lem :
    (half num den : ℕ)
    → 0 < half
    → num < half + half
    → den < half + half
    → (den == 0 || num == half && den == half + half - 1) ≡ false
    → magnitude half num ≡ half
    → magnitude half den ≡ 1
    → differ (negative half num) (negative half den) ≡ true
signs_lem half num den pos hn hd returns top one =
    let smallest : num ≡ half = ground (arith, top) in
    let unit : den ≡ 1 = ground (arith, one, returns, smallest) in
    let wide : 1 < half = ground (arith, smallest, unit, returns) in
    ground (arith, smallest, unit, wide)

divide_lem :
    (half num den : ℕ)
    → 0 < half
    → num < half + half
    → den < half + half
    → Divides half num den (divide half num den)
unfolding divide
divide_lem half num den pos hn hd =
    elim (Bool-cases (den == 0 || num == half && den == half + half - 1)) [
      | inl panics ↦ inl (ground (arith, panics), ground (arith, panics))
      | inr returns ↦
          let x = magnitude half num in
          let y = magnitude half den in
          let above : 0 < y = ground (arith, returns) in
          let (fits, below, whole) =
            quotient_bound half x y (magnitude_bound half num hn) pos above in
          let unlike = differ (negative half num) (negative half den) in
          let room : (x / y < half) ⊎ ((x / y ≤ half) × (unlike ≡ true)) = elim fits [
            | inl small ↦ inl small
            | inr (e, top, one) ↦
                inr (omega (arith, e), signs_lem half num den pos hn hd returns top one)
          ] in
          let (q, q_sign) = with_sign_lem half (x / y) unlike room pos in
          let (r, r_sign) =
            with_sign_lem half (x % y) (negative half num)
              (inl (omega (arith, below, magnitude_bound half den hd))) pos in
          inr (
            record {
              quot = with_sign half unlike (x / y);
              rem = with_sign half (negative half num) (x % y);
            },
            rw returns,
            record {
              whole = rw (q, r) whole;
              below = rw r below;
              quot_sign = q_sign;
              rem_sign = r_sign;
            },
          )
    ]

-- div and ldiv, and lldiv and imaxdiv with the latter, panic exactly for the divisor 0 and for the
-- smallest number divided by -1; otherwise they return the quotient and the remainder.
pub div-IsQuotient :
    (num den num' den' : ℕ)
    → num < 2 ^ 32
    → den < 2 ^ 32
    → num' < 2 ^ 64
    → den' < 2 ^ 64
    → Divides (2 ^ 31) num den (div num den)
      × Divides (2 ^ 63) num' den' (ldiv num' den')
      × (lldiv num' den' ≡ ldiv num' den')
      × (imaxdiv num' den' ≡ ldiv num' den')
unfolding div ldiv lldiv imaxdiv
div-IsQuotient num den num' den' h1 h2 h3 h4 = (
  divide_lem (2 ^ 31) num den (omega arith) (omega arith) (omega arith),
  divide_lem (2 ^ 63) num' den' (omega arith) (omega arith) (omega arith),
  refl,
  refl,
)
