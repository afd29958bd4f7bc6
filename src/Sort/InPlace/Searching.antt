-- ===== src/Sort/InPlace/Searching.antt =====
-- bsearch of crates/mytilus-stdlib/src/sort.rs on an array in memory, against bsearch on the list of its
-- elements.
use mytilus.Base.{
  ℕ, zero, suc, ◌+◌, ◌-◌, ◌*◌, ◌/◌, ◌≤◌, ◌<◌, ◌≡◌, if◌then◌else◌, List, [], length, Option, none,
  some, ℤ, is_neg, is_pos, arith, refl, ap, subst, ◌∙◌,
}
use mytilus.Memory.{Mem, Run, ok, fault, out_of_fuel}
use mytilus.Sort
use mytilus.Sort.Array.{at, elt-ok}
use mytilus.Sort.Bytes.{elt_address}
use mytilus.Sort.Search.{IsAscending, IsFound, bsearch-IsFound}
use mytilus.Sort.InPlace
use mytilus.Sort.InPlace.Blocks.{IsBlock, IsArray}

-- The comparator sees the key and the bytes of an element: `sign` is its result for an element.
abbrev pub Tests : InPlace.CmpFn → Mem → ℕ → ℕ → (List ℕ → ℤ) → Type 0
Tests cmp m key width sign = (p : ℕ) (x : List ℕ) → IsBlock width m p x → cmp m key p ≡ ok (sign x)

-- The pointer to the element at an index.
abbrev pub pointer : ℕ → ℕ → Option ℕ → Option ℕ
pointer base width none = none
pointer base width (some i) = some (elt_address base width i)

-- The same of a result.
abbrev placed : ℕ → ℕ → Run (Option ℕ) → Run (Option ℕ)
placed base width (ok r) = ok (pointer base width r)
placed base width fault = fault
placed base width out_of_fuel = out_of_fuel

middle_address : (base b k width : ℕ) → base + b * width + width * k ≡ base + (b + k) * width
middle_address base b k width = grind arith

next_address : (base b width : ℕ) → base + b * width + width ≡ base + (b + 1) * width
next_address base b width = grind arith

module _ (cmp : InPlace.CmpFn) (m : Mem) (key base width : ℕ) (sign : List ℕ → ℤ)
    (tests : Tests cmp m key width sign) (xs : List (List ℕ))
    (array : IsArray m base width xs) where
  abbrev by_sign : Sort.CmpFn (List ℕ)
  by_sign k x = sign x

  -- One round on memory, and one on the list.
  memory_round :
      (f a n mid next : ℕ) (z : ℤ)
      → a + width * (suc n / 2) ≡ mid
      → mid + width ≡ next
      → cmp m key mid ≡ ok z
      → InPlace.bsearch_loop cmp (suc f) m key a (suc n) width ≡ (
          if is_neg z
          then InPlace.bsearch_loop cmp f m key a (suc n / 2) width
          else if is_pos z
          then InPlace.bsearch_loop cmp f m key next (suc n - (suc n / 2 + 1)) width
          else ok (some mid))
  unfolding InPlace.bsearch_loop
  memory_round f a n mid next z e e' seen = rw (e, e', seen) (ground arith)

  list_round :
      (f b n : ℕ)
      → b + suc n / 2 < length xs
      → Sort.bsearch_loop by_sign [] xs (suc f) b (suc n) ≡ (
          if is_neg (sign (at [] xs (b + suc n / 2)))
          then Sort.bsearch_loop by_sign [] xs f b (suc n / 2)
          else if is_pos (sign (at [] xs (b + suc n / 2)))
          then Sort.bsearch_loop by_sign [] xs f (b + suc n / 2 + 1) (suc n - (suc n / 2 + 1))
          else ok (some (b + suc n / 2)))
  unfolding Sort.bsearch_loop
  list_round f b n l = rw (elt-ok [] xs (b + suc n / 2) l) (ground arith)

  bsearch_loop-placed :
      (f b n : ℕ)
      → b + n ≤ length xs
      → InPlace.bsearch_loop cmp f m key (base + b * width) n width
        ≡ placed base width (Sort.bsearch_loop by_sign [] xs f b n)
  unfolding elt_address
  bsearch_loop-placed zero b n fits =
      unfold InPlace.bsearch_loop in unfold Sort.bsearch_loop in refl
  bsearch_loop-placed (suc f) b zero fits =
      unfold InPlace.bsearch_loop in unfold Sort.bsearch_loop in ground arith
  bsearch_loop-placed (suc f) b (suc n) fits =
      let mid = b + suc n / 2 in
      let z = sign (at [] xs mid) in
      let here = middle_address base b (suc n / 2) width in
      let seen = tests (base + mid * width) (at [] xs mid) (array mid (omega arith)) in
      let memory =
        memory_round f (base + b * width) n _ _ z here (next_address base mid width) seen in
      let left = bsearch_loop-placed f b (suc n / 2) (omega arith) in
      let right = bsearch_loop-placed f (mid + 1) (suc n - (suc n / 2 + 1)) (omega arith) in
      let list = list_round f b n (omega arith) in ground (arith, memory, list, left, right)

  -- On memory that holds an array in ascending order, with a comparator that depends on the key and
  -- on the bytes of the elements, bsearch ends and returns the address of an element for which the
  -- comparator returns 0, or NULL when it does so for none.
  pub bsearch-IsElement :
      IsAscending by_sign [] xs
      → (r : Option ℕ) × (InPlace.bsearch cmp m key base (length xs) width
          ≡ ok (pointer base width r))
        × IsFound by_sign [] xs r
  unfolding InPlace.bsearch Sort.bsearch
  bsearch-IsElement ord =
      let (r, runs, found) = bsearch-IsFound by_sign [] xs ord in
      let start : base + 0 * width ≡ base = omega arith in
      let loop = bsearch_loop-placed (length xs + 1) 0 (length xs) (omega arith) in
      (
        r,
        subst
              (λ a.
                InPlace.bsearch_loop cmp (length xs + 1) m key a (length xs) width
                ≡ placed base width (Sort.bsearch_loop by_sign [] xs (length xs + 1) 0 (length xs)))
              start loop
            ∙ ap (placed base width) runs,
        found,
      )
