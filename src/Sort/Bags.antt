-- ===== src/Sort/Bags.antt =====
-- The arrays that qsort_r of crates/mytilus-stdlib/src/sort.rs sorts, up to the order of the elements: a bag is a
-- list up to rearrangement.
use mathlib.Core.HLevel.{Σ_set, Σ_prop_path, prop→set}
use mathlib.Core.List.{Perm, is_set}
use mathlib.Core.List.Perm
use mathlib.Core.Quot
use mathlib.Core.Quot.{Quot, Quot-set}
use mytilus.Base.{ℕ, ◌≡◌, ◌≢◌, List, length}
use mytilus.Memory.{ok}
use mytilus.Sort.{CmpFnR, qsort_r}
use mytilus.Sort.Order.{Le, IsComparator, IsSorted}
use mytilus.Sort.Unique.{IsSorted-eq_of_perm}
use mytilus.Sort.Heapsort.{qsort_r-sorts}

abbrev pub Bag : Type 0 → Type 0
Bag A = Quot (Perm {A = A})

module _ {A C : Type 0} (cmp : CmpFnR A C) (ctx : C) where
  pub IsSorted-prop : (xs : List A) → IsProp (IsSorted cmp ctx xs)
  IsSorted-prop xs = hlevel

  abbrev pub Sorted : Type 0
  Sorted = (xs : List A) × IsSorted cmp ctx xs

module _ {A C : Type 0} (A_set : IsSet A) (cmp : CmpFnR A C) (ctx : C) (ord : IsComparator cmp ctx)
    (apart : (x y : A) → Le cmp ctx x y → Le cmp ctx y x → x ≡ y) (width : ℕ)
    (wide : width ≢ 0) where
  Sorted_set : IsSet (Sorted cmp ctx)
  Sorted_set = Σ_set (is_set A_set) (λ xs. prop→set (IsSorted-prop cmp ctx xs))

  -- What qsort_r makes of a list.
  result : List A → Sorted cmp ctx
  result xs = let (ys, runs, sorted, perm) = qsort_r-sorts cmp ctx ord xs width wide in (ys, sorted)

  result_eq : (xs ys : List A) → Perm xs ys → result xs ≡ result ys
  unfolding result
  result_eq xs ys p =
      let (us, _, sorted, perm) = qsort_r-sorts cmp ctx ord xs width wide in
      let (vs, _, sorted', perm') = qsort_r-sorts cmp ctx ord ys width wide in
      Σ_prop_path (IsSorted-prop cmp ctx) (
        IsSorted-eq_of_perm cmp ctx us vs (Perm.trans perm (Perm.trans p (Perm.symm perm')))
          (λ x y a b. apart x y) sorted sorted')

  unfoldable pub sort_bag : Bag A → Sorted cmp ctx
  unfolding Sorted_set result result_eq
  sort_bag = Quot.lift Sorted_set result result_eq

  sort_bag-rearranges : (b : Bag A) → ◌≡◌ {A = Bag A} (Quot.mk (sort_bag b).0) b
  unfolding sort_bag result
  sort_bag-rearranges =
      Quot.ind (λ b. Quot-set _ _) (λ xs. Quot.sound (qsort_r-sorts cmp ctx ord xs width wide).3)

  -- Where the elements form a set, the comparator orders them and finds no two different elements equal, and an
  -- element has at least one byte: qsort_r ends on every array with a result that only depends on the bag
  -- of its elements, and this makes the bags and the ascending arrays correspond to each other. The result
  -- for a bag is an ascending array with this bag, and the one for the bag of an ascending array is
  -- this array.
  pub bags_are_sorted :
      ((xs : List A) → qsort_r cmp ctx xs (length xs) width ≡ ok (sort_bag (Quot.mk xs)).0)
      × ((b : Bag A) → ◌≡◌ {A = Bag A} (Quot.mk (sort_bag b).0) b)
      × ((s : Sorted cmp ctx) → sort_bag (Quot.mk s.0) ≡ s)
  unfolding sort_bag result
  bags_are_sorted = (
    λ xs. (qsort_r-sorts cmp ctx ord xs width wide).1,
    sort_bag-rearranges,
    λ (xs, sorted).
        let (ys, _, sorted', perm) = qsort_r-sorts cmp ctx ord xs width wide in
        Σ_prop_path (IsSorted-prop cmp ctx)
          (IsSorted-eq_of_perm cmp ctx ys xs perm (λ x y a b. apart x y) sorted' sorted),
  )
