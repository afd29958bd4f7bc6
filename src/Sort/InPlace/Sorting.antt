-- ===== src/Sort/InPlace/Sorting.antt =====
-- qsort_r and qsort of crates/mytilus-stdlib/src/sort.rs on an array in memory.
use mathlib.Core.List.{Perm}
use mytilus.Base.{ℕ, ◌+◌, ◌*◌, ◌≤◌, ◌<◌, ◌≡◌, ◌≢◌, ◌⊎◌, List, length, refl, ℤ, subst}
use mytilus.Memory.{Mem, Run, ok, fault, out_of_fuel}
use mytilus.Sort.{CmpFnR}
use mytilus.Sort.Order.{IsComparator, IsSorted}
use mytilus.Sort.Heapsort.{qsort_r-sorts}
use mytilus.Sort.InPlace
use mytilus.Sort.InPlace.Blocks.{IsBlock, IsArray}
use mytilus.Sort.InPlace.Refinement.{Compares, Represents, Refines, qsort_r-Refines}

module _ {C : Type 0} (cmp : InPlace.CmpFnR C) (ctx : C) (order : CmpFnR (List ℕ) C)
    (base width : ℕ) (compares : Compares cmp ctx width order) (ord : IsComparator order ctx)
    (wide : width ≢ 0) where
  -- A run that refines one with a result has one.
  refined :
      (m : Mem) (nel : ℕ) (ys : List (List ℕ)) (r : Run Mem)
      → Refines cmp ctx order base width compares m nel r (ok ys)
      → (m' : Mem) × (r ≡ ok m') × Represents cmp ctx order base width compares m nel m' ys
  refined m nel ys (ok m') h = (m', refl, h)
  refined m nel ys fault h = absurd h
  refined m nel ys out_of_fuel h = absurd h

  -- On memory that holds an array of nel elements of at least one byte, with a comparator that
  -- depends on the bytes of the elements and orders them, qsort_r ends; the array then holds a
  -- rearrangement of the elements in ascending order, and no byte outside of it has changed.
  pub qsort_r-IsArray :
      (m : Mem) (xs : List (List ℕ))
      → IsArray m base width xs
      → (m' : Mem) × (ys : List (List ℕ)) × (InPlace.qsort_r cmp ctx m base (length xs) width
          ≡ ok m')
        × IsArray m' base width ys
        × IsSorted order ctx ys
        × Perm ys xs
        × ((q : ℕ) → (q < base) ⊎ (base + length xs * width ≤ q) → m' q ≡ m q)
  qsort_r-IsArray m xs array =
      let start : Represents cmp ctx order base width compares m (length xs) m xs = record {
        size = refl;
        array = array;
        frame = λ q out. refl;
      } in
      let (ys, runs, sorted, perm) = qsort_r-sorts order ctx ord xs width wide in
      let h = qsort_r-Refines cmp ctx order base width compares m (length xs) m xs start in
      let (m', runs', there) =
        refined m (length xs) ys _
          (subst (Refines cmp ctx order base width compares m (length xs) _) runs h) in
      (m', ys, runs', there.array, sorted, perm, there.frame)

-- qsort does the same by a comparator of two arguments, which the adapter calls on every pair.
pub qsort-IsArray :
    (cmp : InPlace.CmpFn) (order : List ℕ → List ℕ → ℤ) (base width : ℕ)
    → ((m : Mem) (a b : ℕ) (x y : List ℕ)
        → IsBlock width m a x
        → IsBlock width m b y
        → cmp m a b ≡ ok (order x y))
    → IsComparator {C = InPlace.CmpFn} (λ x y c. order x y) cmp
    → width ≢ 0
    → (m : Mem) (xs : List (List ℕ)) → IsArray m base width xs
    → (m' : Mem) × (ys : List (List ℕ)) × (InPlace.qsort cmp m base (length xs) width ≡ ok m')
      × IsArray m' base width ys
      × IsSorted {C = InPlace.CmpFn} (λ x y c. order x y) cmp ys
      × Perm ys xs
      × ((q : ℕ) → (q < base) ⊎ (base + length xs * width ≤ q) → m' q ≡ m q)
unfolding InPlace.qsort InPlace.qsort_2to3_adapter
qsort-IsArray cmp order base width compares ord wide m xs array =
    qsort_r-IsArray InPlace.qsort_2to3_adapter cmp (λ x y c. order x y) base width compares ord wide
      m xs array
