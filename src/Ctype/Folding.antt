-- ===== src/Ctype/Folding.antt =====
-- Case folding, over all 32-bit patterns.
use mytilus.Base.{
  ℕ, ◌+◌, ◌-◌, ◌*◌, ◌/◌, ◌%◌, ◌^◌, ◌<◌, ◌≡◌, true, ◌==◌, bit_and, if◌then◌else◌, bit_and_mask,
  arith, refl, all_below, all_below_sound, ==_iff,
}
use mytilus.Ctype.{tolower, toupper, toascii}
use mytilus.Ctype.Classes.{within, bit_or-32}

-- `& 0x5f` clears the bit of weight 32 of a byte below 128.
and-95_table : all_below 128 (λ c. bit_and c 0x5f == c - c / 32 % 2 * 32) ≡ true
unfolding all_below
and-95_table = refl

and-95 : (c : ℕ) → c < 128 → bit_and c 0x5f ≡ c - c / 32 % 2 * 32
and-95 c h = (==_iff _ _).0 (all_below_sound 128 _ c and-95_table h)

-- tolower moves the upper-case letters to the lower-case ones and leaves every other pattern as it
-- is.
pub tolower-eq : (c : ℕ) → c < 2 ^ 32 → tolower c ≡ (if within b'A' b'Z' c then c + 32 else c)
unfolding tolower
tolower-eq c h = ground (arith, bit_or-32 c)

-- toupper moves the lower-case letters to the upper-case ones and leaves every other pattern as it
-- is.
pub toupper-eq : (c : ℕ) → c < 2 ^ 32 → toupper c ≡ (if within b'a' b'z' c then c - 32 else c)
unfolding toupper
toupper-eq c h = ground (arith, and-95 c)

toupper-lt : (c : ℕ) → c < 2 ^ 32 → toupper c < 2 ^ 32
toupper-lt c h = ground (arith, toupper-eq c h)

tolower-lt : (c : ℕ) → c < 2 ^ 32 → tolower c < 2 ^ 32
tolower-lt c h = ground (arith, tolower-eq c h)

-- Folding down forgets an earlier fold in either direction, and so does folding up; toascii keeps
-- the seven low bits.
pub fold_laws :
    (c : ℕ)
    → c < 2 ^ 32
    → (tolower (toupper c) ≡ tolower c)
      × (tolower (tolower c) ≡ tolower c)
      × (toupper (tolower c) ≡ toupper c)
      × (toupper (toupper c) ≡ toupper c)
      × (toascii c ≡ c % 128)
unfolding toascii
fold_laws c h =
    let up = toupper-eq c h in
    let down = tolower-eq c h in
    (
      ground (arith, up, down, tolower-eq (toupper c) (toupper-lt c h)),
      ground (arith, down, tolower-eq (tolower c) (tolower-lt c h)),
      ground (arith, up, down, toupper-eq (tolower c) (tolower-lt c h)),
      ground (arith, up, toupper-eq (toupper c) (toupper-lt c h)),
      bit_and_mask 7 c,
    )
