-- ===== src/Prng/Random/Header.antt =====
-- The header word that savestate packs is the one that loadstate takes apart.
use mytilus.Base.{
  ℕ, ◌+◌, ◌*◌, ◌/◌, ◌%◌, ◌^◌, ◌<◌, ◌≡◌, bit_and, bit_and_mask, bit_or_fields, arith, ◌∙◌,
}
use mytilus.Prng.Random.{header}

pub header-eq :
    (n i j : ℕ) → n < 2 ^ 16 → i < 2 ^ 8 → j < 2 ^ 8 → header n i j ≡ n * 2 ^ 16 + i * 2 ^ 8 + j
unfolding header
header-eq n i j hn hi hj =
    let en : n * 2 ^ 16 % 2 ^ 32 ≡ n * 2 ^ 16 = omega arith in
    let ei : i * 2 ^ 8 % 2 ^ 32 ≡ i * 2 ^ 8 = omega arith in
    let split : n * 2 ^ 16 + i * 2 ^ 8 ≡ (n * 2 ^ 8 + i) * 2 ^ 8 = omega arith in
    rw
      (
        en,
        ei,
        bit_or_fields 16 n (i * 2 ^ 8) (omega arith),
        split,
        bit_or_fields 8 (n * 2 ^ 8 + i) j hj,
      )
      (omega arith)

pub header_fields :
    (n i j : ℕ)
    → n < 2 ^ 16
    → i < 2 ^ 8
    → j < 2 ^ 8
    → (header n i j / 2 ^ 16 ≡ n)
      × (bit_and (header n i j / 2 ^ 8) 0xff ≡ i)
      × (bit_and (header n i j) 0xff ≡ j)
header_fields n i j hn hi hj =
    let e = header-eq n i j hn hi hj in
    (
      omega (arith, e),
      bit_and_mask 8 (header n i j / 2 ^ 8) ∙ omega (arith, e),
      bit_and_mask 8 (header n i j) ∙ omega (arith, e),
    )
