-- ===== src/Sort/InPlace/Refinement.antt =====
-- The sort of crates/mytilus-stdlib/src/sort.rs on memory, against the sort on the list of elements.
use mytilus.Base.{
  ℕ, zero, suc, ◌+◌, ◌*◌, ◌/◌, ◌≤◌, ◌<◌, ◌≡◌, ◌≢◌, ◌⊎◌, inl, inr, ◌||◌, ◌==◌, ltb, leb,
  if◌then◌else◌, is_neg, List, [], length, arith, subst, sym, ◌∙◌, Bool-cases,
}
use mytilus.Memory.{Mem, Run, ok, fault, out_of_fuel, ◌>>=◌}
use mytilus.Sort
use mytilus.Sort.{CmpFnR}
use mytilus.Sort.Array.{at, exchange, elt-ok, swap-ok, length-exchange}
use mytilus.Sort.Bytes.{elt_address, swap_bytes}
use mytilus.Sort.InPlace
use mytilus.Sort.InPlace.Blocks.{
  IsBlock, IsArray, after_swap, swap_bytes-runs, after_swap-IsArray, after_swap-frame,
}

-- What the C standard asks of a comparator: its result depends on the context and on the bytes of
-- the two objects only, whose order `order` gives.
abbrev pub Compares : {C : Type 0} → InPlace.CmpFnR C → C → ℕ → CmpFnR (List ℕ) C → Type 0
Compares cmp ctx width order =
    (m : Mem) (a b : ℕ) (x y : List ℕ)
    → IsBlock width m a x
    → IsBlock width m b y
    → cmp m a b ctx ≡ ok (order x y ctx)

module _ {C : Type 0} (cmp : InPlace.CmpFnR C) (ctx : C) (order : CmpFnR (List ℕ) C)
    (base width : ℕ) (compares : Compares cmp ctx width order) (start : Mem) (nel : ℕ) where
  -- The memory holds the list as its array, and is the memory at the start outside of it.
  pub record Represents (m : Mem) (xs : List (List ℕ)) : Type 0 where
    pub size : length xs ≡ nel
    pub array : IsArray m base width xs
    pub frame : (q : ℕ) → (q < base) ⊎ (base + nel * width ≤ q) → m q ≡ start q

  -- A run on memory and a run on lists end alike.
  abbrev pub Refines : Run Mem → Run (List (List ℕ)) → Type 0
  Refines (ok m) (ok xs) = Represents m xs
  Refines out_of_fuel out_of_fuel = Unit {0}
  Refines _ _ = ⊥

  Refines-bind :
      (r : Run Mem) (s : Run (List (List ℕ))) (f : Mem → Run Mem)
      (g : List (List ℕ) → Run (List (List ℕ)))
      → Refines r s
      → ((m : Mem) (xs : List (List ℕ)) → Represents m xs → Refines (f m) (g xs))
      → Refines (r >>= f) (s >>= g)
  Refines-bind (ok m) (ok xs) f g h next = next m xs h
  Refines-bind out_of_fuel out_of_fuel f g h next = tt
  Refines-bind (ok m) fault f g h next = absurd h
  Refines-bind (ok m) out_of_fuel f g h next = absurd h
  Refines-bind fault s f g h next = absurd h
  Refines-bind out_of_fuel (ok xs) f g h next = absurd h
  Refines-bind out_of_fuel fault f g h next = absurd h

  Refines-steps :
      (r r' : Run Mem) (s s' : Run (List (List ℕ))) → r ≡ r' → s ≡ s' → Refines r' s' → Refines r s
  Refines-steps r r' s s' e e' h = rw (e, e') h

  compared :
      (m : Mem) (xs : List (List ℕ)) (i j : ℕ)
      → Represents m xs
      → i < nel
      → j < nel
      → cmp m (elt_address base width i) (elt_address base width j) ctx
        ≡ ok (order (at [] xs i) (at [] xs j) ctx)
  compared m xs i j h p q =
      compares m _ _ _ _ (h.array i (omega (arith, h.size))) (h.array j (omega (arith, h.size)))

  swap-Represents :
      (m : Mem) (xs : List (List ℕ)) (i j : ℕ)
      → Represents m xs
      → i ≢ j
      → i < nel
      → j < nel
      → (m' : Mem) × (swap_bytes m (elt_address base width i) (elt_address base width j) width
          ≡ ok m')
        × (Sort.swap xs i j ≡ ok (exchange [] xs i j))
        × Represents m' (exchange [] xs i j)
  swap-Represents m xs i j h ne p q =
      let p' : i < length xs = omega (arith, h.size) in
      let q' : j < length xs = omega (arith, h.size) in
      (
        after_swap m base width xs h.array i j ne p' q',
        swap_bytes-runs m base width xs h.array i j ne p' q',
        swap-ok [] xs i j p' q',
        record {
          size = length-exchange [] xs i j ∙ h.size;
          array = after_swap-IsArray m base width xs h.array i j ne p' q';
          frame = λ r out.
              after_swap-frame m base width xs h.array i j ne p' q' r
                (subst (λ n. (r < base) ⊎ (base + n * width ≤ r)) (sym h.size) out)
              ∙ h.frame r out;
        },
      )

  child-refines :
      (m : Mem) (xs : List (List ℕ)) (n child : ℕ)
      → Represents m xs
      → n ≤ nel
      → child < n
      → (c : ℕ) × (InPlace.larger_child cmp ctx m base n width child ≡ ok c)
        × (Sort.larger_child order ctx xs n child ≡ ok c)
        × (child ≤ c)
        × (c < n)
  unfolding InPlace.larger_child Sort.larger_child
  child-refines m xs n child h fits l = elim (Bool-cases (ltb (child + 1) n)) [
    | inl two ↦
        let in_bounds : child + 1 < n = ground (arith, two) in
        let r = order (at [] xs child) (at [] xs (child + 1)) ctx in
        let ec = compared m xs child (child + 1) h (omega arith) (omega arith) in
        let ex = elt-ok [] xs child (omega (arith, h.size)) in
        let ey = elt-ok [] xs (child + 1) (omega (arith, h.size)) in
        (
          if is_neg r then child + 1 else child,
          ground (arith, two, ec),
          ground (arith, two, ex, ey),
          ground arith,
          ground (arith, in_bounds),
        )
    | inr one ↦ (child, ground (arith, one), ground (arith, one), omega arith, l)
  ]

  sift_down-Refines :
      (f : ℕ) (m : Mem) (xs : List (List ℕ)) (n i : ℕ)
      → Represents m xs
      → n ≤ nel
      → Refines (InPlace.sift_down cmp ctx f m base n width i) (Sort.sift_down order ctx f xs n i)
  unfolding InPlace.sift_down Sort.sift_down
  sift_down-Refines zero m xs n i h fits = tt
  sift_down-Refines (suc f) m xs n i h fits = elim (Bool-cases (leb n (2 * i + 1))) [
    | inl leaf ↦ Refines-steps _ (ok m) _ (ok xs) (ground (arith, leaf)) (ground (arith, leaf)) h
    | inr inner ↦
        let in_bounds : 2 * i + 1 < n = ground (arith, inner) in
        let (c, picked, picked', later, l) = child-refines m xs n (2 * i + 1) h fits in_bounds in
        let ec = compared m xs i c h (omega arith) (omega arith) in
        let ex = elt-ok [] xs i (omega (arith, h.size)) in
        let ey = elt-ok [] xs c (omega (arith, h.size)) in
        elim (Bool-cases (is_neg (order (at [] xs i) (at [] xs c) ctx))) [
          | inr in_order ↦
              Refines-steps _ (ok m) _ (ok xs) (ground (arith, inner, picked, ec, in_order))
                (ground (arith, inner, picked', ex, ey, in_order)) h
          | inl below ↦
              let ne : i ≢ c = λ e. omega (arith, e, later) in
              let (m', runs, runs', h') =
                swap-Represents m xs i c h ne (omega arith) (omega arith) in
              Refines-steps _ (InPlace.sift_down cmp ctx f m' base n width c) _
                (Sort.sift_down order ctx f (exchange [] xs i c) n c)
                (ground (arith, inner, picked, ec, below, runs))
                (ground (arith, inner, picked', ex, ey, below, runs'))
                (sift_down-Refines f m' (exchange [] xs i c) n c h' fits)
        ]
  ]

  build_heap-Refines :
      (m : Mem) (xs : List (List ℕ)) (i : ℕ)
      → Represents m xs
      → Refines (InPlace.build_heap cmp ctx m base nel width i) (Sort.build_heap order ctx nel xs i)
  unfolding InPlace.build_heap Sort.build_heap
  build_heap-Refines m xs zero h = h
  build_heap-Refines m xs (suc i) h =
      Refines-bind _ _ _ _ (sift_down-Refines nel m xs nel i h (omega arith))
        (λ m' ys h'. build_heap-Refines m' ys i h')

  first_address : elt_address base width 0 ≡ base
  unfolding elt_address
  first_address = omega arith

  extract-Refines :
      (m : Mem) (xs : List (List ℕ)) (e : ℕ)
      → Represents m xs
      → e ≤ nel
      → Refines (InPlace.extract cmp ctx nel m base width e) (Sort.extract order ctx nel xs e)
  unfolding InPlace.extract Sort.extract
  extract-Refines m xs zero h l = h
  extract-Refines m xs (suc zero) h l = h
  extract-Refines m xs (suc (suc e)) h l =
      let (m', runs, runs', h') =
        swap-Represents m xs 0 (suc e) h (λ z. omega (arith, z)) (omega arith) (omega arith) in
      let ys = exchange [] xs 0 (suc e) in
      let runs0 : swap_bytes m base (elt_address base width (suc e)) width ≡ ok m' =
        subst (λ a. swap_bytes m a (elt_address base width (suc e)) width ≡ ok m') first_address
          runs in
      Refines-steps _
        (InPlace.sift_down cmp ctx nel m' base (suc e) width 0 >>= λ m2.
          InPlace.extract cmp ctx nel m2 base width (suc e))
        _
        (Sort.sift_down order ctx nel ys (suc e) 0 >>= λ zs. Sort.extract order ctx nel zs (suc e))
        (ground (arith, runs0)) (ground (arith, runs'))
        (Refines-bind _ _ _ _ (sift_down-Refines nel m' ys (suc e) 0 h' (omega arith))
          (λ m2 zs h2. extract-Refines m2 zs (suc e) h2 (omega arith)))

  -- On memory that holds an array of nel elements, with a comparator that depends on the bytes of the
  -- elements, qsort_r ends as the sort on the list of elements does: with the array of its result,
  -- and with no byte outside of the array changed.
  pub qsort_r-Refines :
      (m : Mem) (xs : List (List ℕ))
      → Represents m xs
      → Refines (InPlace.qsort_r cmp ctx m base nel width) (Sort.qsort_r order ctx xs nel width)
  unfolding InPlace.qsort_r Sort.qsort_r InPlace.heapsort Sort.heapsort
  qsort_r-Refines m xs h = elim (Bool-cases (ltb nel 2 || width == 0)) [
    | inl small ↦ Refines-steps _ (ok m) _ (ok xs) (ground (arith, small)) (ground (arith, small)) h
    | inr large ↦
        Refines-steps _
          (InPlace.build_heap cmp ctx m base nel width (nel / 2) >>= λ m'.
            InPlace.extract cmp ctx nel m' base width nel)
          _ (Sort.build_heap order ctx nel xs (nel / 2) >>= λ ys. Sort.extract order ctx nel ys nel)
          (ground (arith, large)) (ground (arith, large))
          (Refines-bind _ _ _ _ (build_heap-Refines m xs (nel / 2) h)
            (λ m' ys h'. extract-Refines m' ys nel h' (omega arith)))
  ]
