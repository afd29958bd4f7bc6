-- ===== src/Str/Search/Sets.antt =====
-- A byte set holds the bytes that were put into it.
use native.Mathlib.Nat.{pow-suc, div-div-eq-div-mul}
use mytilus.Base.{
  ℕ, zero, suc, ◌+◌, ◌/◌, ◌%◌, ◌^◌, ◌<◌, ◌≡◌, Bool, false, not, ◌||◌, ◌==◌, List, [], ◌∷◌, length,
  get_or, set, bit_and, bit_or, bit_and_mask, test_bit, test_bit-or, test_bit-lt, test_bit-zero,
  test_bit-power, arith, refl, ap, ◌∙◌, length-set, get_or-set,
}
use mytilus.Memory.{Mem, ok, IsCStr}
use mytilus.Str.Search.{byteset_set, byteset_test, no_bytes, collect_loop}

abbrev pub member : List ℕ → ℕ → Bool
member [] b = false
member (c ∷ cs) b = b == c || member cs b

abbrev pub IsBytes : List ℕ → Type 0
IsBytes [] = Unit {0}
IsBytes (b ∷ bs) = (b < 256) × IsBytes bs

shift_bit : (w k : ℕ) → bit_and (w / 2 ^ k) 1 ≡ test_bit w k
unfolding test_bit
shift_bit w zero =
    let e : w / 1 ≡ w = omega arith in ap (λ (x : ℕ). bit_and x 1) e ∙ bit_and_mask 1 w
shift_bit w (suc k) =
    let e : w / 2 / 2 ^ k ≡ w / 2 ^ suc k =
      div-div-eq-div-mul w 2 (2 ^ k) ∙ ap (λ (d : ℕ). w / d) (omega (arith, pow-suc 2 k)) in
    rw e at (shift_bit (w / 2) k)

test_lem :
    (bs : List ℕ) (b : ℕ) → byteset_test bs b ≡ not (test_bit (get_or bs (b / 64) 0) (b % 64) == 0)
unfolding byteset_test
test_lem bs b = ap (λ (x : ℕ). not (x == 0)) (shift_bit (get_or bs (b / 64) 0) (b % 64))

pub byteset_test-set :
    (bs : List ℕ) (b c : ℕ)
    → length bs ≡ 4
    → b < 256
    → byteset_test (byteset_set bs b) c ≡ (c == b || byteset_test bs c)
unfolding byteset_set
byteset_test-set bs b c size small =
    let w = get_or bs (b / 64) 0 in
    let v = bit_or w (2 ^ (b % 64)) in
    let bound = test_bit-lt w (c % 64) in
    ground (
      arith,
      test_lem bs c,
      test_lem (set bs (b / 64) v) c,
      get_or-set bs (b / 64) (c / 64) v 0,
      test_bit-or w (2 ^ (b % 64)) (c % 64),
      test_bit-power (b % 64) (c % 64),
      bound,
    )

zero_words : (i : ℕ) → get_or no_bytes i 0 ≡ 0
zero_words zero = refl
zero_words (suc zero) = refl
zero_words (suc (suc zero)) = refl
zero_words (suc (suc (suc zero))) = refl
zero_words (suc (suc (suc (suc i)))) = refl

pub byteset_test_none : (c : ℕ) → byteset_test no_bytes c ≡ false
byteset_test_none c =
    let w = zero_words (c / 64) in
    test_lem no_bytes c
    ∙ ground (arith, w, ap (λ (x : ℕ). test_bit x (c % 64)) w, test_bit-zero (c % 64))

length-byteset_set : (bs : List ℕ) (b : ℕ) → length (byteset_set bs b) ≡ length bs
unfolding byteset_set
length-byteset_set bs b = length-set bs (b / 64) (bit_or (get_or bs (b / 64) 0) (2 ^ (b % 64)))

pub collect_loop-member :
    (f : ℕ) (m : Mem) (bs : List ℕ) (c : ℕ) (cs : List ℕ)
    → length cs < f
    → length bs ≡ 4
    → IsCStr m c cs
    → IsBytes cs
    → (r : List ℕ) × (collect_loop f m bs c ≡ ok r)
      × ((b : ℕ) → byteset_test r b ≡ (member cs b || byteset_test bs b))
unfolding collect_loop
collect_loop-member zero m bs c cs l size h small = absurd (omega arith)
collect_loop-member (suc f) m bs c [] l size h small = (bs, ground arith, λ b. refl)
collect_loop-member (suc f) m bs c (x ∷ cs) l size h (byte, small) =
    let (r, runs, tests) =
      collect_loop-member f m (byteset_set bs x) (c + 1) cs (omega arith)
        (length-byteset_set bs x ∙ size) h.2 small in
    (r, ground (arith, runs), λ b. ground (arith, tests b, byteset_test-set bs x b))
