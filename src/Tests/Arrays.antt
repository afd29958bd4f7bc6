-- ===== src/Tests/Arrays.antt =====
-- The theorems on sorting and searching in memory, applied to an array of three elements of two bytes.
use mathlib.Core.List.{Perm}
use mytilus.Base.{
  ℕ, ◌%◌, inr, zero, suc, ◌+◌, ◌*◌, ◌<◌, ◌≤◌, ◌≡◌, ◌⊎◌, Bool, false, Option, some, List, [], ◌∷◌,
  length, get_or, ltb, ◌==◌, if◌then◌else◌, ℤ, is_neg, is_pos, get_elem?, none, true, ap, sym, pos,
  negsuc, arith, refl,
}
use mytilus.Memory.{Mem, ok, ◌>>=◌, load}
use mytilus.Sort
use mytilus.Sort.Array.{at}
use mytilus.Sort.Bytes.{elt_address}
use mytilus.Sort.Order.{IsComparator, IsSorted}
use mytilus.Sort.Search.{IsAscending, IsFound}
use mytilus.Sort.InPlace
use mytilus.Sort.InPlace.Blocks.{IsArray, IsBlock}
use mytilus.Sort.InPlace.Refinement.{Compares}
use mytilus.Sort.InPlace.Sorting.{qsort_r-IsArray}
use mytilus.Sort.InPlace.Lookup.{sort_and_search, IsAnswer, sort_and_search-IsAnswer}
use mytilus.Sort.InPlace.Searching.{Tests, pointer, bsearch-IsElement}

-- Address q holds q modulo 20.
abbrev pub cyclic : Mem
cyclic q = some (q % 20)

abbrev pub shelf : List (List ℕ)
shelf = (10 ∷ 11 ∷ []) ∷ (12 ∷ 13 ∷ []) ∷ (14 ∷ 15 ∷ []) ∷ []

shelf-bytes :
    (k o : ℕ) → k < 3 → o < 2 → cyclic (elt_address 10 2 k + o) ≡ some (get_or (at [] shelf k) o 0)
unfolding elt_address
shelf-bytes zero zero l r = refl
shelf-bytes zero (suc zero) l r = refl
shelf-bytes (suc zero) zero l r = refl
shelf-bytes (suc zero) (suc zero) l r = refl
shelf-bytes (suc (suc zero)) zero l r = refl
shelf-bytes (suc (suc zero)) (suc zero) l r = refl
shelf-bytes (suc (suc (suc k))) o l r = absurd (omega arith)
shelf-bytes zero (suc (suc o)) l r = absurd (omega arith)
shelf-bytes (suc zero) (suc (suc o)) l r = absurd (omega arith)
shelf-bytes (suc (suc zero)) (suc (suc o)) l r = absurd (omega arith)

shelf-sizes : (k : ℕ) → k < 3 → length (at [] shelf k) ≡ 2
shelf-sizes zero l = refl
shelf-sizes (suc zero) l = refl
shelf-sizes (suc (suc zero)) l = refl
shelf-sizes (suc (suc (suc k))) l = absurd (omega arith)

pub shelf-IsArray : IsArray cyclic 10 2 shelf
shelf-IsArray k l = (shelf-sizes k l, λ o r. shelf-bytes k o l r)

abbrev pub ascending : ℕ → ℕ → ℤ
ascending x y = if ltb x y then negsuc 0 else if x == y then pos 0 else pos 1

-- The comparators look at the first byte; the context turns the order around.
abbrev pub first_bytes : InPlace.CmpFnR Bool
first_bytes m a b up = do
  x ← load m a
  y ← load m b
  ok (if up then ascending x y else ascending y x)

abbrev pub by_first : Sort.CmpFnR (List ℕ) Bool
by_first x y up =
    if up then ascending (get_or x 0 0) (get_or y 0 0) else ascending (get_or y 0 0) (get_or x 0 0)

pub first_bytes-Compares : Compares first_bytes false 2 by_first
first_bytes-Compares m a b x y p q =
    let ax : m a ≡ some (get_or x 0 0) =
      (let e : a + 0 ≡ a = omega arith in rw e at (p.1 0 (omega arith))) in
    let bx : m b ≡ some (get_or y 0 0) =
      (let e : b + 0 ≡ b = omega arith in rw e at (q.1 0 (omega arith))) in
    ground (arith, ax, bx)

pub by_first-IsComparator : IsComparator by_first false
by_first-IsComparator = record {
  asym = λ x y h. ground (arith, h);
  trans = λ x y z p q. ground (arith, p, q);
}

qsort_r-IsArray_example :
    (m' : Mem) × (ys : List (List ℕ)) × (InPlace.qsort_r first_bytes false cyclic 10 3 2 ≡ ok m')
    × IsArray m' 10 2 ys
    × IsSorted by_first false ys
    × Perm ys shelf
    × ((q : ℕ) → (q < 10) ⊎ (10 + 3 * 2 ≤ q) → m' q ≡ cyclic q)
qsort_r-IsArray_example =
    qsort_r-IsArray first_bytes false by_first 10 2 first_bytes-Compares by_first-IsComparator
      (λ e. omega arith) cyclic shelf shelf-IsArray

-- The key is at address 12.
abbrev first_byte : InPlace.CmpFn
first_byte m key p = do x ← load m key; y ← load m p; ok (ascending x y)

abbrev sign : List ℕ → ℤ
sign y = ascending 12 (get_or y 0 0)

first_byte-Tests : Tests first_byte cyclic 12 2 sign
first_byte-Tests p x h =
    let e : (p + 0) % 20 ≡ get_or x 0 0 = ground (arith, h.1 0 (omega arith)) in
    let e' : p % 20 ≡ get_or x 0 0 = omega (arith, e) in ap (λ (u : ℕ). ok (ascending 12 u)) e'

-- The first byte of an element of the shelf.
head_at : (i : ℕ) (x : List ℕ) → get_elem? shelf i ≡ some x → get_or x 0 0 ≡ 10 + 2 * i
head_at zero x e = ap (λ r. elim r [ none ↦ 0 | some y ↦ get_or y 0 0 ]) (sym e)
head_at (suc zero) x e = ap (λ r. elim r [ none ↦ 0 | some y ↦ get_or y 0 0 ]) (sym e)
head_at (suc (suc zero)) x e = ap (λ r. elim r [ none ↦ 0 | some y ↦ get_or y 0 0 ]) (sym e)
head_at (suc (suc (suc i))) x e = absurd (ground (arith, e))

-- An order on the first bytes, seen from 12.
ascending_above :
    (u v : ℕ) → u ≤ v → is_neg (ascending 12 u) ≡ true → is_neg (ascending 12 v) ≡ true
ascending_above u v l h = ground (arith, h)

ascending_below :
    (u v : ℕ) → u ≤ v → is_pos (ascending 12 v) ≡ true → is_pos (ascending 12 u) ≡ true
ascending_below u v l h = ground (arith, h)

shelf-IsAscending : IsAscending (λ k x. sign x) [] shelf
shelf-IsAscending = record {
  above = λ i j x y l p q h.
      let low = head_at i x p in
      let high = head_at j y q in
      ascending_above (get_or x 0 0) (get_or y 0 0) (omega (arith, low, high)) h;
  below = λ i j x y l p q h.
      let low = head_at i x p in
      let high = head_at j y q in
      ascending_below (get_or x 0 0) (get_or y 0 0) (omega (arith, low, high)) h;
}

bsearch-IsElement_example :
    (r : Option ℕ) × (InPlace.bsearch first_byte cyclic 12 10 3 2 ≡ ok (pointer 10 2 r))
    × IsFound (λ k x. sign x) [] shelf r
bsearch-IsElement_example =
    bsearch-IsElement first_byte cyclic 12 10 2 sign first_byte-Tests shelf shelf-IsArray
      shelf-IsAscending

-- Descending, by the first byte.
abbrev falling : InPlace.CmpFn
falling m a b = first_bytes m a b false

abbrev falling_order : List ℕ → List ℕ → ℤ
falling_order x y = by_first x y false

falling-IsComparator : IsComparator {C = InPlace.CmpFn} (λ x y c. falling_order x y) falling
falling-IsComparator = record {
  asym = λ x y h. ground (arith, h);
  trans = λ x y z p q. ground (arith, p, q);
}

falling-signed : (x y : List ℕ) → is_pos (falling_order x y) ≡ is_neg (falling_order y x)
falling-signed x y = ground arith

-- The key at 32 equals the element at 12.
key_bytes : (o : ℕ) → o < 2 → cyclic (32 + o) ≡ some (get_or (12 ∷ 13 ∷ []) o 0)
key_bytes zero l = refl
key_bytes (suc zero) l = refl
key_bytes (suc (suc o)) l = absurd (omega arith)

key-IsBlock : IsBlock 2 cyclic 32 (12 ∷ 13 ∷ [])
key-IsBlock = (refl, λ o l. key_bytes o l)

sort_and_search-IsAnswer_example :
    (r : Option ℕ) × (m' : Mem) × (sort_and_search falling cyclic 32 10 3 2 ≡ ok (r, m'))
    × IsAnswer falling_order (12 ∷ 13 ∷ []) 10 2 m' shelf r
sort_and_search-IsAnswer_example =
    sort_and_search-IsAnswer falling falling_order falling-IsComparator falling-signed
      (12 ∷ 13 ∷ []) 10 2 32 cyclic shelf first_bytes-Compares (λ e. omega arith) shelf-IsArray
      key-IsBlock (inr (omega arith))
