-- ===== src/Sort/InPlace.antt =====
-- crates/mytilus-stdlib/src/sort.rs on memory: the array is `nel` elements of `width` bytes from the
-- address `base` on. The comparator is a function of the caller that gets the memory, two pointers
-- and the context; it returns an integer, and may fault, but writes nothing.
pub mod Blocks
pub mod Refinement
pub mod Sorting
pub mod Canonical
pub mod Searching
pub mod Lookup
use mytilus.Base.{
  ℕ, zero, suc, ◌+◌, ◌-◌, ◌*◌, ◌/◌, Bool, not, ◌||◌, ◌==◌, ltb, leb, if◌then◌else◌, ℤ, is_neg,
  is_pos, Option, none, some,
}
use mytilus.Memory.{Mem, Run, ok, out_of_fuel, ◌>>=◌}
use mytilus.Sort.Bytes.{elt_address, swap_bytes}

abbrev pub CmpFnR : Type 0 → Type 0
CmpFnR C = Mem → ℕ → ℕ → C → Run ℤ

abbrev pub CmpFn : Type 0
CmpFn = Mem → ℕ → ℕ → Run ℤ

module _ {C : Type 0} (cmp : CmpFnR C) (ctx : C) where
  pub larger_child : Mem → ℕ → ℕ → ℕ → ℕ → Run ℕ
  larger_child m base n width child =
      if ltb (child + 1) n
      then (do
        r ← cmp m (elt_address base width child) (elt_address base width (child + 1)) ctx
        ok (if is_neg r then child + 1 else child))
      else ok child

  pub sift_down : ℕ → Mem → ℕ → ℕ → ℕ → ℕ → Run Mem
  sift_down zero m base n width i = out_of_fuel
  sift_down (suc f) m base n width i =
      let step : Run Mem = do
        child ← larger_child m base n width (2 * i + 1)
        r ← cmp m (elt_address base width i) (elt_address base width child) ctx
        let sink =
            swap_bytes m (elt_address base width i) (elt_address base width child) width >>= λ m'.
            sift_down f m' base n width child
        if not (is_neg r) then ok m else sink
      in if leb n (2 * i + 1) then ok m else step

  -- `while i > 0 { i -= 1; sift_down(i) }`
  pub build_heap : Mem → ℕ → ℕ → ℕ → ℕ → Run Mem
  build_heap m base n width zero = ok m
  build_heap m base n width (suc i) = do
    m' ← sift_down n m base n width i
    build_heap m' base n width i

  -- `while end > 1 { end -= 1; swap_bytes(base, elt(end)); sift_down over `end` elements }`, with the
  -- fuel n for each sift.
  pub extract : ℕ → Mem → ℕ → ℕ → ℕ → Run Mem
  extract n m base width zero = ok m
  extract n m base width (suc zero) = ok m
  extract n m base width (suc (suc e)) = do
    m' ← swap_bytes m base (elt_address base width (suc e)) width
    m'' ← sift_down n m' base (suc e) width 0
    extract n m'' base width (suc e)

  pub heapsort : Mem → ℕ → ℕ → ℕ → Run Mem
  heapsort m base n width =
      if ltb n 2 || width == 0
      then ok m
      else do m' ← build_heap m base n width (n / 2); extract n m' base width n

  pub qsort_r : Mem → ℕ → ℕ → ℕ → Run Mem
  qsort_r m base nel width = heapsort m base nel width

-- The comparator travels in the slot of the context.
unfoldable pub qsort_2to3_adapter : CmpFnR CmpFn
qsort_2to3_adapter m a b ctx = ctx m a b

pub qsort : CmpFn → Mem → ℕ → ℕ → ℕ → Run Mem
qsort cmp m base nel width = qsort_r qsort_2to3_adapter cmp m base nel width

-- `none` is NULL.
pub bsearch_loop : CmpFn → ℕ → Mem → ℕ → ℕ → ℕ → ℕ → Run (Option ℕ)
bsearch_loop cmp zero m key base nel width = out_of_fuel
bsearch_loop cmp (suc f) m key base nel width =
    let try_ = base + width * (nel / 2) in
    let left = bsearch_loop cmp f m key base (nel / 2) width in
    let right = bsearch_loop cmp f m key (try_ + width) (nel - (nel / 2 + 1)) width in
    let step : Run (Option ℕ) = do
      sign ← cmp m key try_
      if is_neg sign then left else if is_pos sign then right else ok (some try_)
    in if nel == 0 then ok none else step

pub bsearch : CmpFn → Mem → ℕ → ℕ → ℕ → ℕ → Run (Option ℕ)
bsearch cmp m key base nel width = bsearch_loop cmp (nel + 1) m key base nel width
