-- ===== src/Tests/Orders.antt =====
-- The theorems on the order of the result of qsort_r: three elements in two memories, in two orders,
-- and bags of numbers.
use mathlib.Core.List.{Perm, Mem, eq-or-mem_of_mem-cons, not-mem-nil, is_set}
use mathlib.Core.List.Perm
use mathlib.Core.Logic.Or
use native.Mathlib.Nat.{ℕ_set}
use mytilus.Base.{
  ℕ, zero, suc, ◌+◌, ◌%◌, ◌<◌, ◌≡◌, false, some, List, [], ◌∷◌, length, get_or, refl, ap, sym, ◌∙◌,
  arith,
}
use mytilus.Memory.{Mem as Memory, ok}
use mathlib.Core.Quot
use mytilus.Sort
use mytilus.Sort.Bags.{Bag, Sorted, sort_bag, bags_are_sorted}
use mytilus.Sort.Array.{at}
use mytilus.Sort.Bytes.{elt_address}
use mytilus.Sort.Order.{IsSorted, IsComparator, Le}
use mytilus.Sort.Unique.{Distinguishes}
use mytilus.Sort.InPlace
use mytilus.Sort.InPlace.Blocks.{IsArray}
use mytilus.Sort.InPlace.Canonical.{qsort_r-canonical}
use mytilus.Tests.Arrays.{
  ascending, cyclic, shelf, shelf-IsArray, first_bytes, by_first, first_bytes-Compares,
  by_first-IsComparator,
}

-- Address q holds 10 + (q + 2) modulo 6, so that the array at 0 is the shelf, turned.
abbrev turning : Memory
turning q = some (10 + (q + 2) % 6)

abbrev turned : List (List ℕ)
turned = (12 ∷ 13 ∷ []) ∷ (14 ∷ 15 ∷ []) ∷ (10 ∷ 11 ∷ []) ∷ []

turned-bytes :
    (k o : ℕ) → k < 3 → o < 2 → turning (elt_address 0 2 k + o) ≡ some (get_or (at [] turned k) o 0)
unfolding elt_address
turned-bytes zero zero l r = refl
turned-bytes zero (suc zero) l r = refl
turned-bytes (suc zero) zero l r = refl
turned-bytes (suc zero) (suc zero) l r = refl
turned-bytes (suc (suc zero)) zero l r = refl
turned-bytes (suc (suc zero)) (suc zero) l r = refl
turned-bytes (suc (suc (suc k))) o l r = absurd (omega arith)
turned-bytes zero (suc (suc o)) l r = absurd (omega arith)
turned-bytes (suc zero) (suc (suc o)) l r = absurd (omega arith)
turned-bytes (suc (suc zero)) (suc (suc o)) l r = absurd (omega arith)

turned-sizes : (k : ℕ) → k < 3 → length (at [] turned k) ≡ 2
turned-sizes zero l = refl
turned-sizes (suc zero) l = refl
turned-sizes (suc (suc zero)) l = refl
turned-sizes (suc (suc (suc k))) l = absurd (omega arith)

turned-IsArray : IsArray turning 0 2 turned
turned-IsArray k l = (turned-sizes k l, λ o r. turned-bytes k o l r)

rearranged : Perm shelf turned
rearranged =
    Perm.trans (Perm.swap (12 ∷ 13 ∷ []) (10 ∷ 11 ∷ []) ((14 ∷ 15 ∷ []) ∷ []))
      (Perm.cons (12 ∷ 13 ∷ []) (Perm.swap (14 ∷ 15 ∷ []) (10 ∷ 11 ∷ []) []))

-- An element is known by its first byte.
abbrev element : ℕ → List ℕ
element v = v ∷ (v + 1) ∷ []

element_lem : (x : List ℕ) → Mem x shelf → x ≡ element (get_or x 0 0)
element_lem x m =
    let known : (v : ℕ) → x ≡ element v → x ≡ element (get_or x 0 0) =
      λ v e. e ∙ ap (λ y. element (get_or y 0 0)) (sym e) in
    let set = is_set ℕ_set x (element (get_or x 0 0)) in
    Or.elim set (eq-or-mem_of_mem-cons m) (known 10) (λ m1.
      Or.elim set (eq-or-mem_of_mem-cons m1) (known 12)
        (λ m2. Or.elim set (eq-or-mem_of_mem-cons m2) (known 14) (λ m3. absurd (not-mem-nil m3))))

shelf-Distinguishes : Distinguishes by_first false shelf
shelf-Distinguishes x y a b l r =
    let same : get_or x 0 0 ≡ get_or y 0 0 = ground (arith, l, r) in
    element_lem x a ∙ ap element same ∙ sym (element_lem y b)

qsort_r-canonical_example :
    (m' : Memory) × (n' : Memory) × (zs : List (List ℕ)) × (InPlace.qsort_r first_bytes false cyclic
        10 3 2
      ≡ ok m')
    × (InPlace.qsort_r first_bytes false turning 0 3 2 ≡ ok n')
    × IsArray m' 10 2 zs
    × IsArray n' 0 2 zs
    × (IsSorted by_first false turned → zs ≡ turned)
qsort_r-canonical_example =
    qsort_r-canonical first_bytes false by_first 2 first_bytes-Compares by_first-IsComparator
      (λ e. omega arith) cyclic turning 10 0 shelf turned shelf-IsArray turned-IsArray rearranged
      shelf-Distinguishes

-- Numbers by their order, for elements of 4 bytes.
abbrev by_value : Sort.CmpFnR ℕ ℕ
by_value x y ctx = ascending x y

by_value-IsComparator : IsComparator by_value 0
by_value-IsComparator = record {
  asym = λ x y h. ground (arith, h);
  trans = λ x y z p q. ground (arith, p, q);
}

by_value-apart : (x y : ℕ) → Le by_value 0 x y → Le by_value 0 y x → x ≡ y
by_value-apart x y p q = ground (arith, p, q)

abbrev sorted_numbers : Bag ℕ → Sorted by_value 0
sorted_numbers =
    sort_bag ℕ_set by_value 0 by_value-IsComparator by_value-apart 4 (λ e. omega (arith, e))

bags_are_sorted_example :
    ((xs : List ℕ) → Sort.qsort_r by_value 0 xs (length xs) 4 ≡ ok (sorted_numbers (Quot.mk xs)).0)
    × ((b : Bag ℕ) → ◌≡◌ {A = Bag ℕ} (Quot.mk (sorted_numbers b).0) b)
    × ((s : Sorted by_value 0) → sorted_numbers (Quot.mk s.0) ≡ s)
bags_are_sorted_example =
    bags_are_sorted ℕ_set by_value 0 by_value-IsComparator by_value-apart 4 (λ e. omega (arith, e))
