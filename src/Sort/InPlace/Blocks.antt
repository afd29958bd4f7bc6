-- ===== src/Sort/InPlace/Blocks.antt =====
-- An array in memory: its elements are blocks of `width` bytes, and swap_bytes exchanges two of them.
use mytilus.Base.{
  ℕ, ◌+◌, ◌-◌, ◌*◌, ◌≤◌, ◌<◌, ◌≡◌, ◌≢◌, ◌⊎◌, inl, inr, ◌==◌, List, [], length, get_or, some, arith,
  ap, sym, subst, ◌∙◌, Bool-cases,
}
use mytilus.Memory.{Mem, ok, IsMapped}
use mytilus.Sort.Array.{at, exchange, at-exchange, length-exchange}
use mytilus.Sort.Bytes.{
  elt_address, swap_bytes, swapped, swap_bytes-swapped, elements_apart, addresses_apart,
}

-- The bytes of a block stand from `p` on.
abbrev pub IsBlock : ℕ → Mem → ℕ → List ℕ → Type 0
IsBlock width m p x = (length x ≡ width) × ((o : ℕ) → o < width → m (p + o) ≡ some (get_or x o 0))

-- From `base` on stand the elements of the list.
abbrev pub IsArray : Mem → ℕ → ℕ → List (List ℕ) → Type 0
IsArray m base width xs =
    (k : ℕ) → k < length xs → IsBlock width m (elt_address base width k) (at [] xs k)

IsBlock-IsMapped :
    (width : ℕ) (m : Mem) (p : ℕ) (x : List ℕ) → IsBlock width m p x → IsMapped m p width
IsBlock-IsMapped width m p x h i l = (get_or x i 0, h.1 i l)

-- The block at `p` after an exchange of the blocks at a and b.
module _ (m : Mem) (a b p width : ℕ) (o : ℕ) (l : o < width) where
  swapped_first : p ≡ a → swapped m a b width (p + o) ≡ m (b + o)
  swapped_first e = let e' : b + (p + o - a) ≡ b + o = omega arith in ground (arith, e', ap m e')

  swapped_second :
      p ≡ b → (a + width ≤ b) ⊎ (b + width ≤ a) → swapped m a b width (p + o) ≡ m (a + o)
  swapped_second e apart =
      let e' : a + (p + o - b) ≡ a + o = omega arith in ground (arith, e', ap m e', apart)

  swapped_other :
      (a + width ≤ p) ⊎ (p + width ≤ a)
      → (b + width ≤ p) ⊎ (p + width ≤ b)
      → swapped m a b width (p + o) ≡ m (p + o)
  swapped_other first second = ground (arith, first, second)

module _ (m : Mem) (base width : ℕ) (xs : List (List ℕ)) (array : IsArray m base width xs) (i j : ℕ)
    (ne : i ≢ j) (hi : i < length xs) (hj : j < length xs) where
  abbrev pub after_swap : Mem
  after_swap = swapped m (elt_address base width i) (elt_address base width j) width

  pub swap_bytes-runs :
      swap_bytes m (elt_address base width i) (elt_address base width j) width ≡ ok after_swap
  swap_bytes-runs =
      swap_bytes-swapped m base width i j ne (IsBlock-IsMapped width m _ _ (array i hi))
        (IsBlock-IsMapped width m _ _ (array j hj))

  -- Where the block k of the exchanged array comes from.
  IsBlock-at :
      (k s : ℕ)
      → IsBlock width m (elt_address base width s) (at [] xs s)
      → ((o : ℕ)
          → o < width
          → after_swap (elt_address base width k + o) ≡ m (elt_address base width s + o))
      → at [] (exchange [] xs i j) k ≡ at [] xs s
      → IsBlock width after_swap (elt_address base width k) (at [] (exchange [] xs i j) k)
  IsBlock-at k s block moved same =
      subst (IsBlock width after_swap (elt_address base width k)) (sym same)
        (block.0, λ o l. moved o l ∙ block.1 o l)

  pub after_swap-IsArray : IsArray after_swap base width (exchange [] xs i j)
  unfolding elt_address
  after_swap-IsArray k l =
      let a = base + i * width in
      let b = base + j * width in
      let p = base + k * width in
      let e = at-exchange [] xs i j hi hj k in
      let apart = addresses_apart base width i j ne in
      let inside : k < length xs = omega (arith, length-exchange [] xs i j) in
      elim (Bool-cases (j == k)) [
        | inl second ↦
            let same : p ≡ b = ap (λ n. base + n * width) (ground (arith, second)) in
            IsBlock-at k i (array i hi) (λ o u. swapped_second m a b p width o u same apart)
              (ground (arith, e, second))
        | inr not_second ↦ elim (Bool-cases (i == k)) [
          | inl first ↦
              let same : p ≡ a = ap (λ n. base + n * width) (ground (arith, first)) in
              IsBlock-at k j (array j hj) (λ o u. swapped_first m a b p width o u same)
                (ground (arith, e, first, not_second))
          | inr not_first ↦
              let away_i = addresses_apart base width i k (λ z. ground (arith, not_first, z)) in
              let away_j = addresses_apart base width j k (λ z. ground (arith, not_second, z)) in
              IsBlock-at k k (array k inside) (λ o u. swapped_other m a b p width o u away_i away_j)
                (ground (arith, e, not_first, not_second))
        ]
      ]

  pub after_swap-frame : (q : ℕ) → (q < base) ⊎ (base + length xs * width ≤ q) → after_swap q ≡ m q
  unfolding elt_address
  after_swap-frame q out =
      let first = elements_apart i (length xs) width hi in
      let second = elements_apart j (length xs) width hj in ground (arith, out, first, second)
