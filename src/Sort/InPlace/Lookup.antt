-- ===== src/Sort/InPlace/Lookup.antt =====
-- A program that sorts an array with qsort and looks for a key with bsearch, both of
-- crates/mytilus-stdlib/src/sort.rs, by the same comparator.
use mathlib.Core.Logic.{∥∥₁_elim}
use mathlib.Core.List.{Perm, Memᴰ, Mem as Among}
use mathlib.Core.List.Perm
use mytilus.Base.{
  ℕ, zero, suc, ◌+◌, ◌*◌, ◌≤◌, ◌<◌, ◌≡◌, ◌≢◌, ◌⊎◌, inl, inr, List, [], ◌∷◌, length, get_elem?,
  Option, none, some, ℤ, pos, is_neg, is_pos, arith, refl, ap, sym, subst, ◌∙◌, Bool-cases,
}
use mytilus.Memory.{Mem, Run, ok, ◌>>=◌}
use mytilus.Sort.Array.{get_elem?-some, length-perm}
use mytilus.Sort.Bytes.{elt_address}
use mytilus.Sort.Order.{IsComparator, IsSorted}
use mytilus.Sort.Search.{IsAscending, IsFound}
use mytilus.Sort.InPlace
use mytilus.Sort.InPlace.Blocks.{IsBlock, IsArray}
use mytilus.Sort.InPlace.Sorting.{qsort-IsArray}
use mytilus.Sort.InPlace.Searching.{pointer, bsearch-IsElement}

-- The two calls of the program: the pointer that bsearch returns, and the memory.
pub sort_and_search : InPlace.CmpFn → Mem → ℕ → ℕ → ℕ → ℕ → Run (Option ℕ × Mem)
sort_and_search cmp m key base nel width = do
  m' ← InPlace.qsort cmp m base nel width
  r ← InPlace.bsearch cmp m' key base nel width
  ok (r, m')

-- What bsearch returns for a key k and an array at `base` in the memory that has the elements xs in
-- some order: the address of a place of the array, where an element that equals the key stands, or
-- NULL when no element equals the key.
abbrev pub IsAnswer :
    (List ℕ → List ℕ → ℤ) → List ℕ → ℕ → ℕ → Mem → List (List ℕ) → Option ℕ → Type 0
IsAnswer order k base width m xs none = (x : List ℕ) → Among x xs → order k x ≢ pos 0
IsAnswer order k base width m xs (some p) =
    (i : ℕ) × (x : List ℕ) × (i < length xs)
    × (p ≡ base + i * width)
    × IsBlock width m p x
    × Among x xs
    × (order k x ≡ pos 0)

module _ {A : Type 0} where
  some_inj : {x y : A} → some x ≡ some y → x ≡ y
  some_inj {x} e = ap (λ r. elim r [ none ↦ x | some z ↦ z ]) e

  position : (x : A) (xs : List A) → Memᴰ x xs → (i : ℕ) × (get_elem? xs i ≡ some x)
  position x [] h = elim h [ ]
  position x (y ∷ ys) (Memᴰ.head e) = (0, ap some (sym e))
  position x (y ∷ ys) (Memᴰ.tail h) = let (i, at) = position x ys h in (suc i, at)

  present : (x : A) (xs : List A) (i : ℕ) → get_elem? xs i ≡ some x → Memᴰ x xs
  present x [] i e = absurd (ground (arith, e))
  present x (y ∷ ys) zero e = Memᴰ.head (some_inj (sym e))
  present x (y ∷ ys) (suc i) e = Memᴰ.tail (present x ys i e)

module _ (cmp : InPlace.CmpFn) (order : List ℕ → List ℕ → ℤ)
    (ord : IsComparator {C = InPlace.CmpFn} (λ x y c. order x y) cmp)
    (signed : (x y : List ℕ) → is_pos (order x y) ≡ is_neg (order y x)) (k : List ℕ) where
  -- A sorted list is in ascending order for a key of the same kind.
  sorted-IsAscending :
      (ys : List (List ℕ))
      → IsSorted {C = InPlace.CmpFn} (λ x y c. order x y) cmp ys
      → IsAscending (λ (_ : List ℕ) y. order k y) [] ys
  sorted-IsAscending ys sorted = record {
    above = λ i j x y l p q h. elim (Bool-cases (is_neg (order k y))) [
      | inl less ↦ less
      | inr not_less ↦
          let back = ord.trans x y k (sorted i j x y l p q) not_less in
          absurd (ground (arith, h, back))
    ];
    below = λ i j x y l p q h. elim (Bool-cases (is_neg (order x k))) [
      | inl less ↦ signed k x ∙ less
      | inr not_less ↦
          let back = ord.trans k x y not_less (sorted i j x y l p q) in
          absurd (ground (arith, h, back, signed k y))
    ];
  }

  found-IsAnswer :
      (base width : ℕ) (m : Mem) (xs ys : List (List ℕ)) (r : Option ℕ)
      → IsArray m base width ys
      → Perm ys xs
      → IsFound (λ (_ : List ℕ) y. order k y) [] ys r
      → IsAnswer order k base width m xs (pointer base width r)
  unfolding elt_address
  found-IsAnswer base width m xs ys none array perm found = λ x h.
      ∥∥₁_elim ((Perm.mem_iff (Perm.symm perm)).0 h) (hlevel)
        (λ d. let (i, here) = position x ys d in found i x here)
  found-IsAnswer base width m xs ys (some i) array perm (x, here, equal) =
      let (inside, same) = get_elem?-some [] ys i x here in
      (
        i,
        x,
        omega (arith, inside, length-perm perm),
        refl,
        subst (IsBlock width m (elt_address base width i)) same (array i inside),
        (Perm.mem_iff perm).0 ∣ present x ys i here ∣₁,
        equal,
      )

  -- On memory that holds an array of elements of at least one byte and, outside of it, a key of the same
  -- width, with a comparator that depends on the bytes it gets, orders them, and is positive exactly
  -- when it is negative the other way round: qsort and then bsearch by the same comparator end, and
  -- bsearch returns the address base + i * width of a place i of the array, where the bytes of one of
  -- the elements stand and equal the key, or NULL when no element equals the key.
  pub sort_and_search-IsAnswer :
      (base width key : ℕ) (m : Mem) (xs : List (List ℕ))
      → ((m : Mem) (a b : ℕ) (x y : List ℕ)
          → IsBlock width m a x
          → IsBlock width m b y
          → cmp m a b ≡ ok (order x y))
      → width ≢ 0
      → IsArray m base width xs
      → IsBlock width m key k
      → (key + width ≤ base) ⊎ (base + length xs * width ≤ key)
      → (r : Option ℕ) × (m' : Mem) × (sort_and_search cmp m key base (length xs) width
          ≡ ok (r, m'))
        × IsAnswer order k base width m' xs r
  unfolding sort_and_search
  sort_and_search-IsAnswer base width key m xs compares wide array block apart =
      let (m', ys, sorts, array', sorted, perm, frame) =
        qsort-IsArray cmp order base width compares ord wide m xs array in
      let block' : IsBlock width m' key k =
        (block.0, λ o l. frame (key + o) (omega (arith, apart, l)) ∙ block.1 o l) in
      let (r, searches, found) =
        bsearch-IsElement cmp m' key base width (order k) (λ p x h. compares m' key p k x block' h)
          ys array' (sorted-IsAscending ys sorted) in
      let same : length ys ≡ length xs = length-perm perm in
      let searches' : InPlace.bsearch cmp m' key base (length xs) width
          ≡ ok (pointer base width r) =
        rw same at searches in
      let behind_sort : Run Mem → Run (Option ℕ × Mem) =
        λ q. q >>= λ n. InPlace.bsearch cmp n key base (length xs) width >>= λ p. ok (p, n) in
      let behind_search : Run (Option ℕ) → Run (Option ℕ × Mem) = λ q. q >>= λ p. ok (p, m') in
      (
        pointer base width r,
        m',
        ap behind_sort sorts ∙ ap behind_search searches',
        found-IsAnswer base width m' xs ys r array' perm found,
      )
