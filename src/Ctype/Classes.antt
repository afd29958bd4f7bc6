-- ===== src/Ctype/Classes.antt =====
-- Each classifier accepts exactly the characters of its class, over all 32-bit patterns.
use native.Mathlib.Nat.{pow-suc}
use mytilus.Base.{
  ℕ, zero, suc, test_bit, Bool-cases, inl, inr, true, false, ap, ap₂, ◌∙◌, ◌+◌, ◌-◌, ◌*◌, ◌/◌, ◌%◌,
  ◌^◌, ◌<◌, ◌≡◌, Bool, not, ◌&&◌, ◌||◌, ◌==◌, ltb, leb, as_int, bit_and, bit_or, bit_or_step,
  bit_and_step, bit_and_mask, bit_or-zero, arith, refl,
}
use mytilus.Ctype.{
  isalpha, isdigit, isspace, isupper, islower, isalnum, isxdigit, isgraph, isprint, ispunct,
  iscntrl, isblank, isascii,
}

-- `c` lies between `lo` and `hi`, both included.
abbrev pub within : ℕ → ℕ → ℕ → Bool
within lo hi c = leb lo c && leb c hi

abbrev pub is_letter : ℕ → Bool
is_letter c = within b'A' b'Z' c || within b'a' b'z' c

abbrev pub is_digit : ℕ → Bool
is_digit c = within b'0' b'9' c

bit_or_power : (a k : ℕ) → bit_or a (2 ^ k) ≡ a + (1 - test_bit a k) * 2 ^ k
unfolding test_bit
bit_or_power a zero = omega (arith, bit_or_step a 1, bit_or-zero (a / 2))
bit_or_power a (suc k) =
    let half : 2 ^ suc k / 2 ≡ 2 ^ k = omega (arith, pow-suc 2 k) in
    let even : 2 ^ suc k % 2 ≡ 0 = omega (arith, pow-suc 2 k) in
    let next : bit_or (a / 2) (2 ^ suc k / 2) ≡ a / 2 + (1 - test_bit (a / 2) k) * 2 ^ k =
      rw half (bit_or_power (a / 2) k) in
    let double : (1 - test_bit (a / 2) k) * 2 ^ suc k ≡ 2 * ((1 - test_bit (a / 2) k) * 2 ^ k) =
      omega (arith, ap (λ (t : ℕ). (1 - test_bit (a / 2) k) * t) (pow-suc 2 k)) in
    omega (arith, bit_or_step a (2 ^ suc k), even, next, double)

bit_five : (c : ℕ) → test_bit c 5 ≡ c / 32 % 2
unfolding test_bit
bit_five c =
    let e1 : c / 2 / 2 ≡ c / 4 = omega arith in
    let e2 : c / 4 / 2 ≡ c / 8 = omega arith in
    let e3 : c / 8 / 2 ≡ c / 16 = omega arith in
    let e4 : c / 16 / 2 ≡ c / 32 = omega arith in
    ap (λ (x : ℕ). x / 2 / 2 / 2 % 2) e1
    ∙ ap (λ (x : ℕ). x / 2 / 2 % 2) e2
    ∙ ap (λ (x : ℕ). x / 2 % 2) e3
    ∙ ap (λ (x : ℕ). x % 2) e4

-- Setting the bit of weight 32.
pub bit_or-32 : (c : ℕ) → bit_or c 32 ≡ c + 32 - c / 32 % 2 * 32
bit_or-32 c = omega (arith, bit_or_power c 5, bit_five c)

bit_and_double : (a m q : ℕ) → bit_and (a / 2) m ≡ q → bit_and a (2 * m) ≡ 2 * q
bit_and_double a m q e =
    let half : 2 * m / 2 ≡ m = omega arith in
    let next : bit_and (a / 2) (2 * m / 2) ≡ q = rw half e in
    omega (arith, bit_and_step a (2 * m), next)

-- `!0x7f` selects the bits above the seven low ones.
bit_and-high : (c : ℕ) → c < 2 ^ 32 → bit_and c 0xffff_ff80 ≡ c / 128 * 128
bit_and-high c h =
    let c1 = c / 2 in
    let c2 = c1 / 2 in
    let c3 = c2 / 2 in
    let c4 = c3 / 2 in
    let c5 = c4 / 2 in
    let c6 = c5 / 2 in
    let e1 : c2 ≡ c / 4 = omega arith in
    let e2 : c / 4 / 2 ≡ c / 8 = omega arith in
    let e3 : c / 8 / 2 ≡ c / 16 = omega arith in
    let e4 : c / 16 / 2 ≡ c / 32 = omega arith in
    let e5 : c / 32 / 2 ≡ c / 64 = omega arith in
    let e6 : c / 64 / 2 ≡ c / 128 = omega arith in
    let seventh : c6 / 2 ≡ c / 128 =
      ap (λ (x : ℕ). x / 2 / 2 / 2 / 2 / 2) e1
      ∙ ap (λ (x : ℕ). x / 2 / 2 / 2 / 2) e2
      ∙ ap (λ (x : ℕ). x / 2 / 2 / 2) e3
      ∙ ap (λ (x : ℕ). x / 2 / 2) e4
      ∙ ap (λ (x : ℕ). x / 2) e5
      ∙ e6 in
    let small : c / 128 % 2 ^ 25 ≡ c / 128 = omega arith in
    let top : bit_and (c6 / 2) (2 ^ 25 - 1) ≡ c / 128 =
      bit_and_mask 25 (c6 / 2) ∙ ap (λ (x : ℕ). x % 2 ^ 25) seventh ∙ small in
    let whole = bit_and_double c 0x7fff_ffc0 _ (
      bit_and_double c1 0x3fff_ffe0 _ (
        bit_and_double c2 0x1fff_fff0 _ (
          bit_and_double c3 0x0fff_fff8 _ (
            bit_and_double c4 0x07ff_fffc _
              (bit_and_double c5 0x03ff_fffe _ (bit_and_double c6 0x01ff_ffff _ top)))))) in
    let scaled : 2 * (2 * (2 * (2 * (2 * (2 * (2 * (c / 128))))))) ≡ c / 128 * 128 = omega arith in
    whole ∙ scaled

-- `c.wrapping_sub(lo) < n` tests a range.
range_test :
    (c lo n : ℕ)
    → c < 2 ^ 32
    → lo + n < 2 ^ 32
    → ltb ((c + 2 ^ 32 - lo) % 2 ^ 32) (suc n) ≡ within lo (lo + n) c
range_test c lo n word fits = elim (Bool-cases (leb lo c)) [
  | inl l ↦ let e : (c + 2 ^ 32 - lo) % 2 ^ 32 ≡ c - lo = ground arith in ground (arith, e)
  | inr l ↦
      let e : (c + 2 ^ 32 - lo) % 2 ^ 32 ≡ c + (2 ^ 32 - lo) = ground arith in ground (arith, e)
]

-- After setting the bit, the letters up to the one at n are those of either case.
folded_lem :
    (c n w : ℕ)
    → n < 26
    → w ≡ c + 32 - c / 32 % 2 * 32
    → within b'a' (b'a' + n) w ≡ (within b'A' (b'A' + n) c || within b'a' (b'a' + n) c)
folded_lem c n w small e = elim (Bool-cases (c / 32 % 2 == 0)) [
  | inl z ↦ let at : w ≡ c + 32 = ground arith in ground (arith, at)
  | inr z ↦ let at : w ≡ c = ground arith in ground (arith, at)
]

letter_test :
    (c n : ℕ)
    → c < 2 ^ 32
    → n < 26
    → ltb ((bit_or c 32 + 2 ^ 32 - b'a') % 2 ^ 32) (suc n)
      ≡ (within b'A' (b'A' + n) c || within b'a' (b'a' + n) c)
letter_test c n word small =
    let fits : bit_or c 32 < 2 ^ 32 = omega (arith, bit_or-32 c) in
    range_test (bit_or c 32) b'a' n fits (omega arith)
    ∙ folded_lem c n (bit_or c 32) small (bit_or-32 c)

as_int-zero : (b : Bool) → not (as_int b == 0) ≡ b
as_int-zero true = refl
as_int-zero false = refl

or_assoc : (p q r : Bool) → (p || (q || r)) ≡ (p || q || r)
or_assoc true q r = refl
or_assoc false q r = refl

as_int-nonzero : (b : Bool) → (as_int b == 0) ≡ not b
as_int-nonzero true = refl
as_int-nonzero false = refl

below_test : (c n : ℕ) → ltb c (suc n) ≡ within 0 n c
below_test c n = ground arith

module _ (c : ℕ) (word : c < 2 ^ 32) where
  isalpha-eq : isalpha c ≡ as_int (is_letter c)
  unfolding isalpha
  isalpha-eq = ap as_int (letter_test c 25 word (omega arith))

  isdigit-eq : isdigit c ≡ as_int (is_digit c)
  unfolding isdigit
  isdigit-eq = ap as_int (range_test c b'0' 9 word (omega arith))

  digit_test : not (isdigit c == 0) ≡ is_digit c
  digit_test = ap (λ (x : ℕ). not (x == 0)) isdigit-eq ∙ as_int-zero (is_digit c)

  isxdigit-eq : isxdigit c ≡ as_int (is_digit c || within b'A' b'F' c || within b'a' b'f' c)
  unfolding isxdigit
  isxdigit-eq =
      ap₂ (λ (p q : Bool). as_int (p || q)) digit_test (letter_test c 5 word (omega arith))
      ∙ ap as_int (or_assoc (is_digit c) (within b'A' b'F' c) (within b'a' b'f' c))

  isalnum-eq : isalnum c ≡ as_int (is_letter c || is_digit c)
  unfolding isalnum
  isalnum-eq =
      ap₂ (λ (p q : Bool). as_int (p || q))
        (ap (λ (x : ℕ). not (x == 0)) isalpha-eq ∙ as_int-zero (is_letter c)) digit_test

  isgraph-eq : isgraph c ≡ as_int (within 0x21 0x7e c)
  unfolding isgraph
  isgraph-eq = ap as_int (range_test c 0x21 0x5d word (omega arith))

  ispunct-eq : ispunct c ≡ as_int (within 0x21 0x7e c && not (is_letter c || is_digit c))
  unfolding ispunct
  ispunct-eq =
      ap₂ (λ (p q : Bool). as_int (p && q))
        (ap (λ (x : ℕ). not (x == 0)) isgraph-eq ∙ as_int-zero (within 0x21 0x7e c))
        (ap (λ (x : ℕ). x == 0) isalnum-eq ∙ as_int-nonzero (is_letter c || is_digit c))

  isascii-eq : isascii c ≡ as_int (ltb c 0x80)
  unfolding isascii
  isascii-eq = ground (arith, bit_and-high c word)

-- The classifiers of letters and digits accept exactly the ASCII letters, digits, letters or
-- digits, and hexadecimal digits, and return 0 on every other 32-bit pattern.
pub letters_and_digits :
    (c : ℕ)
    → c < 2 ^ 32
    → (isalpha c ≡ as_int (is_letter c))
      × (isdigit c ≡ as_int (is_digit c))
      × (isalnum c ≡ as_int (is_letter c || is_digit c))
      × (isxdigit c ≡ as_int (is_digit c || within b'A' b'F' c || within b'a' b'f' c))
      × (isupper c ≡ as_int (within b'A' b'Z' c))
      × (islower c ≡ as_int (within b'a' b'z' c))
unfolding isupper islower
letters_and_digits c h = (
  isalpha-eq c h,
  isdigit-eq c h,
  isalnum-eq c h,
  isxdigit-eq c h,
  ap as_int (range_test c b'A' 25 h (omega arith)),
  ap as_int (range_test c b'a' 25 h (omega arith)),
)

-- The other classifiers accept exactly the visible characters, the printable ones, the visible
-- ones that are neither letters nor digits, the control characters, the six kinds of white space,
-- space and tab, and the codes below 128, and return 0 on every other 32-bit pattern.
pub marks_and_spaces :
    (c : ℕ)
    → c < 2 ^ 32
    → (isgraph c ≡ as_int (within 0x21 0x7e c))
      × (isprint c ≡ as_int (within 0x20 0x7e c))
      × (ispunct c ≡ as_int (within 0x21 0x7e c && not (is_letter c || is_digit c)))
      × (iscntrl c ≡ as_int (within 0 0x1f c || c == 0x7f))
      × (isspace c ≡ as_int (c == 0x20 || within 0x09 0x0d c))
      × (isblank c ≡ as_int (c == 0x20 || c == 0x09))
      × (isascii c ≡ as_int (ltb c 0x80))
unfolding isprint iscntrl isspace isblank
marks_and_spaces c h = (
  isgraph-eq c h,
  ap as_int (range_test c 0x20 0x5e h (omega arith)),
  ispunct-eq c h,
  ap as_int (ap (λ (p : Bool). p || c == 0x7f) (below_test c 0x1f)),
  ap as_int (ap (λ (p : Bool). c == 0x20 || p) (range_test c 0x09 4 h (omega arith))),
  refl,
  isascii-eq c h,
)
