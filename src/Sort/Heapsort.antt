-- ===== src/Sort/Heapsort.antt =====
-- heapsort, qsort_r and qsort sort: the result is an ascending rearrangement of the array.
use mathlib.Core.List.{Perm}
use mathlib.Core.List.Perm
use mytilus.Base.{
  ℕ, zero, suc, ◌/◌, ◌≤◌, ◌<◌, ◌≡◌, ◌≢◌, ◌⊎◌, inl, inr, false, ltb, List, length, ◌==◌,
  if◌then◌else◌, is_neg, arith, subst, Bool-cases, refl, ◌∙◌, [], ◌∷◌, some, get_elem?,
}
use mytilus.Memory.{ok}
use mytilus.Sort.{CmpFnR, CmpFn, build_heap, extract, heapsort, qsort_r, qsort, qsort_2to3_adapter}
use mytilus.Sort.Array.{
  at, exchange, swap-ok, at-exchange, exchange-perm, length-exchange, length-perm, get_elem?-some,
}
use mytilus.Sort.Order.{
  Le, IsComparator, Le_refl, parent, IsHeapFrom, IsHeapBut, IsSifted, IsSorted,
}
use mytilus.Sort.Sift.{sift_down-IsSifted}

module _ {A C : Type 0} (cmp : CmpFnR A C) (ctx : C) (d : A) (ord : IsComparator cmp ctx) where
  build_heap-IsHeap :
      (n : ℕ) (a : List A) (i : ℕ)
      → length a ≡ n
      → i ≤ n / 2
      → IsHeapFrom cmp ctx d i n a
      → (b : List A) × (build_heap cmp ctx n a i ≡ ok b) × IsHeapFrom cmp ctx d 0 n b × Perm b a
  unfolding build_heap
  build_heap-IsHeap n a zero size l h = (a, refl, h, Perm.refl a)
  build_heap-IsHeap n a (suc i) size l h =
      let start : IsHeapBut cmp ctx d i n a i = record {
        edges = λ c p q r t. h c p q (omega arith);
        bridged = λ c p q r t u. absurd (omega arith);
      } in
      let (b, runs, s) =
        sift_down-IsSifted cmp ctx d ord n i n a i (omega arith) (omega arith) (omega arith)
          (omega arith) start in
      let (c, rest, heap, perm) =
        build_heap-IsHeap n b i (length-perm s.perm ∙ size) (omega arith) s.heap in
      (c, ground (arith, runs, rest), heap, Perm.trans perm s.perm)

  root_greatest :
      (k n : ℕ) (a : List A) (i : ℕ)
      → IsHeapFrom cmp ctx d 0 n a
      → i < k
      → i < n
      → Le cmp ctx (at d a i) (at d a 0)
  root_greatest zero n a i h f p = absurd (omega arith)
  root_greatest (suc k) n a zero h f p = Le_refl cmp ctx ord _
  root_greatest (suc k) n a (suc i) h f p =
      ord.trans _ _ _ (h (suc i) (omega arith) p (omega arith))
        (root_greatest k n a (parent (suc i)) h (omega arith) (omega arith))

  -- From index e on, the elements are in their final places.
  abbrev IsPlaced : ℕ → ℕ → List A → Type 0
  IsPlaced n e a = (i j : ℕ) → i ≤ j → e ≤ j → j < n → Le cmp ctx (at d a i) (at d a j)

  IsPlaced-last : (n : ℕ) (a : List A) → IsPlaced n 1 a → IsPlaced n 0 a
  IsPlaced-last n a placed i j p q r = elim (Bool-cases (j == 0)) [
    | inl first ↦
        let ei : 0 ≡ i = ground arith in
        let ej : 0 ≡ j = ground arith in
        subst (λ k. Le cmp ctx (at d a k) (at d a j)) ei
          (subst (λ k. Le cmp ctx (at d a 0) (at d a k)) ej (Le_refl cmp ctx ord (at d a 0)))
    | inr later ↦ placed i j p (ground arith) r
  ]

  -- Where an element stood before the exchange and the sift.
  origin :
      (n e : ℕ) (a b : List A)
      → length a ≡ n
      → e < n
      → IsSifted cmp ctx d 0 e (exchange d a 0 e) b
      → (i : ℕ) → (k : ℕ) × ((k ≤ e) ⊎ (k ≡ i)) × (at d b i ≡ at d a k)
  origin n e a b size l s i =
      let swapped = at-exchange d a 0 e (omega arith) (omega arith) in
      elim (Bool-cases (ltb i e)) [
        | inl inside ↦
            let (k, hk, same) = s.source i (ground arith) in
            (if 0 == k then e else k, ground arith, ground (arith, same, swapped k))
        | inr beyond ↦ (if i == e then 0 else i, ground arith, ground (arith, s.rest i, swapped i))
      ]

  place :
      (n e : ℕ) (a b : List A)
      → length a ≡ n
      → 0 < e
      → e < n
      → IsHeapFrom cmp ctx d 0 (suc e) a
      → IsPlaced n (suc e) a
      → IsSifted cmp ctx d 0 e (exchange d a 0 e) b
      → IsPlaced n e b
  place n e a b size pos l heap placed s i j p q r =
      let swapped = at-exchange d a 0 e (omega arith) (omega arith) j in
      let (k, near, same) = origin n e a b size l s i in
      elim (Bool-cases (j == e)) [
        | inl last ↦ ground (arith, s.rest j, swapped, same, root_greatest (suc k) (suc e) a k heap)
        | inr later ↦ ground (arith, s.rest j, swapped, same, placed k j)
      ]

  extract-IsPlaced :
      (n : ℕ) (a : List A) (e : ℕ)
      → length a ≡ n
      → e ≤ n
      → IsHeapFrom cmp ctx d 0 e a
      → IsPlaced n e a
      → (b : List A) × (extract cmp ctx n a e ≡ ok b) × IsPlaced n 0 b × Perm b a
  unfolding extract
  extract-IsPlaced n a zero size l heap placed = (a, refl, placed, Perm.refl a)
  extract-IsPlaced n a (suc zero) size l heap placed =
      (a, refl, IsPlaced-last n a placed, Perm.refl a)
  extract-IsPlaced n a (suc (suc e)) size l heap placed =
      let before = exchange-perm d a 0 (suc e) (omega arith) (omega arith) in
      let (b, runs, s) =
        sift_down-IsSifted cmp ctx d ord n 0 (suc e) (exchange d a 0 (suc e)) 0
          (omega (arith, length-exchange d a 0 (suc e))) (omega arith) (omega arith) (omega arith)
          start in
      let perm = Perm.trans s.perm before in
      let (c, rest, done, again) =
        extract-IsPlaced n b (suc e) (length-perm perm ∙ size) (omega arith) s.heap
          (place n (suc e) a b size (omega arith) (omega arith) heap placed s) in
      (
        c,
        ground (arith, swap-ok d a 0 (suc e) (omega arith) (omega arith), runs, rest),
        done,
        Perm.trans again perm,
      )
    where
      start : IsHeapBut cmp ctx d 0 (suc e) (exchange d a 0 (suc e)) 0
      start =
          let swapped = at-exchange d a 0 (suc e) (omega arith) (omega arith) in
          record {
            edges = λ c p q r t. ground (arith, swapped c, swapped (parent c), heap c);
            bridged = λ c p q r t u. absurd (omega arith);
          }

  heapsort-IsPlaced :
      (a : List A) (width : ℕ)
      → width ≢ 0
      → (b : List A) × (heapsort cmp ctx a (length a) width ≡ ok b)
        × IsPlaced (length a) 0 b
        × Perm b a
  unfolding heapsort
  heapsort-IsPlaced a width wide = elim (Bool-cases (ltb (length a) 2)) [
    | inl short ↦ (
      a,
      ground arith,
      IsPlaced-last (length a) a (λ i j p q r. absurd (ground arith)),
      Perm.refl a,
    )
    | inr long ↦
        let (b, built, heap, perm) =
          build_heap-IsHeap (length a) a (length a / 2) refl (omega arith)
            (λ c p q r. absurd (omega arith)) in
        let (c, sorted, placed, again) =
          extract-IsPlaced (length a) b (length a) (length-perm perm) (omega arith) heap
            (λ i j p q r. absurd (omega arith)) in
        (c, ground (arith, built, sorted), placed, Perm.trans again perm)
  ]

  IsPlaced-IsSorted : (n : ℕ) (b : List A) → length b ≡ n → IsPlaced n 0 b → IsSorted cmp ctx b
  IsPlaced-IsSorted n b size placed i j x y p ex ey =
      let (li, si) = get_elem?-some d b i x ex in
      let (lj, sj) = get_elem?-some d b j y ey in
      ground (arith, placed i j p (omega arith) (omega arith))

module _ {A C : Type 0} (cmp : CmpFnR A C) (ctx : C) (ord : IsComparator cmp ctx) where
  qsort_r_from :
      (d : A) (a : List A) (width : ℕ)
      → width ≢ 0
      → (b : List A) × (qsort_r cmp ctx a (length a) width ≡ ok b) × IsSorted cmp ctx b × Perm b a
  unfolding qsort_r
  qsort_r_from d a width wide =
      let (b, runs, placed, perm) = heapsort-IsPlaced cmp ctx d ord a width wide in
      (b, runs, IsPlaced-IsSorted cmp ctx d ord (length a) b (length-perm perm) placed, perm)

  -- qsort_r ends on every array of elements of at least one byte, reads and writes inside the
  -- array only, and leaves a rearrangement of its elements in ascending order of the comparator
  -- with its context.
  pub qsort_r-sorts :
      (a : List A) (width : ℕ)
      → width ≢ 0
      → (b : List A) × (qsort_r cmp ctx a (length a) width ≡ ok b) × IsSorted cmp ctx b × Perm b a
  unfolding qsort_r heapsort
  qsort_r-sorts [] width wide =
      ([], ground arith, λ i j x y p e. absurd (ground arith), Perm.refl [])
  qsort_r-sorts (x ∷ a) width wide = qsort_r_from x (x ∷ a) width wide

-- qsort sorts by a comparator of two arguments: the adapter hands it every pair unchanged.
pub qsort-sorts :
    {A : Type 0} (cmp : CmpFn A) (a : List A) (width : ℕ)
    → IsComparator qsort_2to3_adapter cmp
    → width ≢ 0
    → (b : List A) × (qsort cmp a (length a) width ≡ ok b)
      × Perm b a
      × ((i j : ℕ) (x y : A)
          → i ≤ j
          → get_elem? b i ≡ some x
          → get_elem? b j ≡ some y
          → is_neg (cmp y x) ≡ false)
unfolding qsort qsort_2to3_adapter
qsort-sorts cmp a width ord wide =
    let (b, runs, sorted, perm) = qsort_r-sorts qsort_2to3_adapter cmp ord a width wide in
    (b, runs, perm, sorted)
