-- ===== src/Sort.antt =====
-- crates/mytilus-stdlib/src/sort.rs: qsort, qsort_r and bsearch.
-- An array of elements of `width` bytes is the list of its elements, each the block of bytes of
-- one element; an index i stands for the pointer `base + i * width`. The comparator, a C function
-- of the caller, is a parameter, and its `int` result an integer.
pub mod Array
pub mod Order
pub mod Unique
pub mod Sift
pub mod Heapsort
pub mod Bags
pub mod Search
pub mod Bytes
pub mod InPlace
use mytilus.Base.{
  ℕ, zero, suc, ◌+◌, ◌-◌, ◌*◌, ◌/◌, Bool, true, false, not, ◌&&◌, ◌||◌, ◌==◌, ltb, leb,
  if◌then◌else◌, List, get_elem?, set, length, ℤ, is_neg, is_pos, Option, none, some,
}
use mytilus.Memory.{Run, ok, fault, out_of_fuel, ◌>>=◌}

-- The element at an index; past the array the read is a fault.
pub elt {ℓ} : {A : Type ℓ} → List A → ℕ → Run A
elt a i = elim (get_elem? a i) [ none ↦ fault | some x ↦ ok x ]

-- swap_bytes on two elements.
pub swap {ℓ} : {A : Type ℓ} → List A → ℕ → ℕ → Run (List A)
swap a i j = do x ← elt a i; y ← elt a j; ok (set (set a i y) j x)

-- A comparator of qsort_r takes the context last.
abbrev pub CmpFnR : Type 0 → Type 0 → Type 0
CmpFnR A C = A → A → C → ℤ

abbrev pub CmpFn : Type 0 → Type 0
CmpFn A = A → A → ℤ

module _ {A C : Type 0} (cmp : CmpFnR A C) (ctx : C) where
  -- The larger of the two children, the left one where there is no right one.
  pub larger_child : List A → ℕ → ℕ → Run ℕ
  larger_child a n child =
      if ltb (child + 1) n
      then (do
        x ← elt a child
        y ← elt a (child + 1)
        ok (if is_neg (cmp x y ctx) then child + 1 else child))
      else ok child

  pub sift_down : ℕ → List A → ℕ → ℕ → Run (List A)
  sift_down zero a n i = out_of_fuel
  sift_down (suc f) a n i =
      let step : Run (List A) = do
        child ← larger_child a n (2 * i + 1)
        x ← elt a i
        y ← elt a child
        let sink = swap a i child >>= λ b. sift_down f b n child
        if not (is_neg (cmp x y ctx)) then ok a else sink
      in if leb n (2 * i + 1) then ok a else step

  -- `while i > 0 { i -= 1; sift_down(i) }`
  pub build_heap : ℕ → List A → ℕ → Run (List A)
  build_heap n a zero = ok a
  build_heap n a (suc i) = do b ← sift_down n a n i; build_heap n b i

  -- `while end > 1 { end -= 1; swap(0, end); sift_down over `end` elements }`
  pub extract : ℕ → List A → ℕ → Run (List A)
  extract n a zero = ok a
  extract n a (suc zero) = ok a
  extract n a (suc (suc e)) = do
    b ← swap a 0 (suc e)
    c ← sift_down n b (suc e) 0
    extract n c (suc e)

  -- The fuel of every sift is the number of elements.
  pub heapsort : List A → ℕ → ℕ → Run (List A)
  heapsort a n width =
      if ltb n 2 || width == 0 then ok a else do b ← build_heap n a (n / 2); extract n b n

  pub qsort_r : List A → ℕ → ℕ → Run (List A)
  qsort_r a nel width = heapsort a nel width

-- The comparator travels in the slot of the context.
unfoldable pub qsort_2to3_adapter : {A : Type 0} → CmpFnR A (CmpFn A)
qsort_2to3_adapter a b ctx = ctx a b

pub qsort : {A : Type 0} → CmpFn A → List A → ℕ → ℕ → Run (List A)
qsort cmp base nel width = qsort_r qsort_2to3_adapter cmp base nel width

-- `base` counts elements from the start of the array; `none` is NULL.
pub bsearch_loop : {A : Type 0} → CmpFn A → A → List A → ℕ → ℕ → ℕ → Run (Option ℕ)
bsearch_loop cmp key a zero base nel = out_of_fuel
bsearch_loop cmp key a (suc f) base nel =
    let try_ = base + nel / 2 in
    let left = bsearch_loop cmp key a f base (nel / 2) in
    let right = bsearch_loop cmp key a f (try_ + 1) (nel - (nel / 2 + 1)) in
    let step : Run (Option ℕ) = do
      x ← elt a try_
      let sign = cmp key x
      if is_neg sign then left else if is_pos sign then right else ok (some try_)
    in if nel == 0 then ok none else step

pub bsearch : {A : Type 0} → CmpFn A → A → List A → ℕ → Run (Option ℕ)
bsearch cmp key a nel = bsearch_loop cmp key a (nel + 1) 0 nel
