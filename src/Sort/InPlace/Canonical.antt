-- ===== src/Sort/InPlace/Canonical.antt =====
-- What qsort_r of crates/mytilus-stdlib/src/sort.rs leaves of the order in which the elements stand before.
use mathlib.Core.List.{Perm}
use mathlib.Core.List.Perm
use mytilus.Base.{ℕ, ◌≡◌, ◌≢◌, sym, List, length, subst}
use mytilus.Memory.{Mem, ok}
use mytilus.Sort.{CmpFnR}
use mytilus.Sort.Order.{IsComparator, IsSorted}
use mytilus.Sort.Unique.{Distinguishes, IsSorted-eq_of_perm}
use mytilus.Sort.InPlace
use mytilus.Sort.InPlace.Blocks.{IsArray}
use mytilus.Sort.InPlace.Refinement.{Compares}
use mytilus.Sort.InPlace.Sorting.{qsort_r-IsArray}

module _ {C : Type 0} (cmp : InPlace.CmpFnR C) (ctx : C) (order : CmpFnR (List ℕ) C) (width : ℕ)
    (compares : Compares cmp ctx width order) (ord : IsComparator order ctx)
    (wide : width ≢ 0) where
  -- Two arrays, in any memories and at any addresses, whose elements of at least one byte are rearrangements of
  -- each other, and a comparator that depends on the bytes of the elements, orders them and finds no two
  -- different elements equal: qsort_r ends on both, and both arrays hold the same elements in
  -- the same order then. Where the second one was ascending already, that is its own order.
  pub qsort_r-canonical :
      (m n : Mem) (base other : ℕ) (xs ys : List (List ℕ))
      → IsArray m base width xs
      → IsArray n other width ys
      → Perm xs ys
      → Distinguishes order ctx xs
      → (m' : Mem) × (n' : Mem) × (zs : List (List ℕ)) × (InPlace.qsort_r cmp ctx m base
            (length xs)
            width
          ≡ ok m')
        × (InPlace.qsort_r cmp ctx n other (length ys) width ≡ ok n')
        × IsArray m' base width zs
        × IsArray n' other width zs
        × (IsSorted order ctx ys → zs ≡ ys)
  qsort_r-canonical m n base other xs ys array array' perm apart =
      let (m', us, runs, there, sorted, perm_us, _) =
        qsort_r-IsArray cmp ctx order base width compares ord wide m xs array in
      let (n', vs, runs', there', sorted', perm_vs, _) =
        qsort_r-IsArray cmp ctx order other width compares ord wide n ys array' in
      let apart_us : Distinguishes order ctx us =
        λ x y a b. apart x y ((Perm.mem_iff perm_us).0 a) ((Perm.mem_iff perm_us).0 b) in
      let from : Perm us ys = Perm.trans perm_us perm in
      let same : us ≡ vs =
        IsSorted-eq_of_perm order ctx us vs (Perm.trans from (Perm.symm perm_vs)) apart_us sorted
          sorted' in
      (
        m',
        n',
        us,
        runs,
        runs',
        there,
        subst (IsArray n' other width) (sym same) there',
        λ s. IsSorted-eq_of_perm order ctx us ys from apart_us sorted s,
      )
