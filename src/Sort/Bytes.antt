-- ===== src/Sort/Bytes.antt =====
-- elt and swap_bytes on memory: two elements exchange their bytes.
use native.Mathlib.Decide.{dec_lt}
use mathlib.Core.Path.{fun_ext}
use mytilus.Base.{
  ℕ, zero, suc, ◌+◌, ◌-◌, ◌*◌, ◌≤◌, ◌<◌, ◌≡◌, ◌≢◌, ◌⊎◌, inl, inr, ◌&&◌, ltb, leb, ◌==◌,
  if◌then◌else◌, arith, ap, some, Bool-cases,
}
use mytilus.Memory.{Mem, Run, ok, ◌>>=◌, load, store, update, IsMapped}

-- The address of the i-th element.
unfoldable pub elt_address : ℕ → ℕ → ℕ → ℕ
elt_address base width i = base + i * width

-- `left` is width - i.
swap_bytes_loop : Mem → ℕ → ℕ → ℕ → ℕ → Run Mem
swap_bytes_loop m a b zero i = ok m
swap_bytes_loop m a b (suc left) i = do
  t ← load m (a + i)
  y ← load m (b + i)
  m' ← store m (a + i) y
  m'' ← store m' (b + i) t
  swap_bytes_loop m'' a b left (i + 1)

pub swap_bytes : Mem → ℕ → ℕ → ℕ → Run Mem
swap_bytes m a b width = swap_bytes_loop m a b width 0

-- `m` with the first `hi` bytes of the blocks at `a` and `b` exchanged.
abbrev pub swapped : Mem → ℕ → ℕ → ℕ → Mem
swapped m a b hi q =
    if leb a q && ltb q (a + hi)
    then m (b + (q - a))
    else if leb b q && ltb q (b + hi)
    then m (a + (q - b))
    else m q

module _ (m : Mem) (a b width : ℕ) (first : IsMapped m a width) (second : IsMapped m b width)
    (apart : (a + width ≤ b) ⊎ (b + width ≤ a)) where
  swapped-suc :
      (i x y : ℕ)
      → i < width
      → m (a + i) ≡ some x
      → m (b + i) ≡ some y
      → update (update (swapped m a b i) (a + i) y) (b + i) x ≡ swapped m a b (i + 1)
  swapped-suc i x y l ex ey = fun_ext λ q. elim (Bool-cases (q == a + i)) [
    | inl e ↦ let e' : b + (q - a) ≡ b + i = ground arith in ground (arith, ap m e')
    | inr e ↦ elim (Bool-cases (q == b + i)) [
      | inl g ↦ let g' : a + (q - b) ≡ a + i = ground arith in ground (arith, ap m g')
      | inr g ↦ ground arith
    ]
  ]

  swap_bytes_loop-eq :
      (left i : ℕ)
      → i + left ≡ width
      → swap_bytes_loop (swapped m a b i) a b left i ≡ ok (swapped m a b width)
  unfolding swap_bytes_loop
  swap_bytes_loop-eq zero i e = let e' : i ≡ width = omega arith in rw e'
  swap_bytes_loop-eq (suc left) i e =
      let (x, ex) = first i (omega arith) in
      let (y, ey) = second i (omega arith) in
      ground (
        arith,
        swapped-suc i x y (omega arith) ex ey,
        swap_bytes_loop-eq left (i + 1) (omega arith),
      )

pub elements_apart : (i j width : ℕ) → i < j → i * width + width ≤ j * width
elements_apart i j width l = grind arith

pub addresses_apart :
    (base width i j : ℕ)
    → i ≢ j
    → (base + i * width + width ≤ base + j * width) ⊎ (base + j * width + width ≤ base + i * width)
addresses_apart base width i j ne = elim (dec_lt i j) [
  | yes l ↦ inl (omega (arith, elements_apart i j width l))
  | no g ↦ inr (omega (arith, elements_apart j i width (omega arith)))
]

-- swap_bytes on two different elements of an array exchanges their bytes, and changes no byte
-- outside them.
pub swap_bytes-swapped :
    (m : Mem) (base width i j : ℕ)
    → i ≢ j
    → IsMapped m (elt_address base width i) width
    → IsMapped m (elt_address base width j) width
    → swap_bytes m (elt_address base width i) (elt_address base width j) width
      ≡ ok (swapped m (elt_address base width i) (elt_address base width j) width)
unfolding swap_bytes elt_address
swap_bytes-swapped m base width i j ne hi hj =
    let a = base + i * width in
    let b = base + j * width in
    let start : swapped m a b 0 ≡ m = fun_ext λ q. ground arith in
    ground (
      arith,
      start,
      swap_bytes_loop-eq m a b width hi hj (addresses_apart base width i j ne) width 0
          (omega arith),
    )
