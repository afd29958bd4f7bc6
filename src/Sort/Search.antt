-- ===== src/Sort/Search.antt =====
-- bsearch finds an element equal to the key whenever the array, in ascending order, has one.
use mytilus.Base.{
  get_elem?-lt, ℕ, zero, suc, ◌+◌, ◌-◌, ◌/◌, ◌≤◌, ◌<◌, ◌≡◌, ◌≢◌, inl, inr, true, false, ltb, List,
  [], ◌∷◌, length, get_elem?, Option, none, some, ℤ, pos, negsuc, is_neg, is_pos, arith, refl,
  Bool-cases,
}
use mytilus.Memory.{ok}
use mytilus.Sort.{CmpFn, elt, bsearch_loop, bsearch}

pub get_elem?_lt :
    {A : Type 0} (a : List A) (i : ℕ) → i < length a → (x : A) × (get_elem? a i ≡ some x)
get_elem?_lt [] i h = absurd (omega arith)
get_elem?_lt (x ∷ a) zero h = (x, refl)
get_elem?_lt (x ∷ a) (suc i) h = get_elem?_lt a i (omega arith)

sign_zero : (z : ℤ) → is_neg z ≡ false → is_pos z ≡ false → z ≡ pos 0
sign_zero (pos zero) p q = refl
sign_zero (pos (suc n)) p q = absurd (ground arith)
sign_zero (negsuc n) p q = absurd (ground arith)

module _ {A : Type 0} (cmp : CmpFn A) (key : A) (a : List A) where
  -- The array is in ascending order as the key sees it: what follows an element above the key is
  -- above the key, and what precedes one below the key is below it.
  pub record IsAscending : Type 0 where
    pub above :
        (i j : ℕ) (x y : A)
        → i ≤ j
        → get_elem? a i ≡ some x
        → get_elem? a j ≡ some y
        → is_neg (cmp key x) ≡ true
        → is_neg (cmp key y) ≡ true
    pub below :
        (i j : ℕ) (x y : A)
        → i ≤ j
        → get_elem? a i ≡ some x
        → get_elem? a j ≡ some y
        → is_pos (cmp key y) ≡ true
        → is_pos (cmp key x) ≡ true

  -- A pointer returned is that of an element equal to the key; NULL means that there is none.
  abbrev pub IsFound : Option ℕ → Type 0
  IsFound none = (i : ℕ) (x : A) → get_elem? a i ≡ some x → cmp key x ≢ pos 0
  IsFound (some i) = (x : A) × (get_elem? a i ≡ some x) × (cmp key x ≡ pos 0)

  -- Outside the part that is still searched nothing equals the key.
  record IsNarrowed (base nel : ℕ) : Type 0 where
    inside : base + nel ≤ length a
    left : (i : ℕ) (x : A) → i < base → get_elem? a i ≡ some x → is_pos (cmp key x) ≡ true
    right : (i : ℕ) (x : A) → base + nel ≤ i → get_elem? a i ≡ some x → is_neg (cmp key x) ≡ true

  narrowed_out : (base : ℕ) → IsNarrowed base 0 → IsFound none
  narrowed_out base v i x e = elim (Bool-cases (ltb i base)) [
    | inl l ↦ ground (arith, v.left i x (ground arith) e)
    | inr l ↦ ground (arith, v.right i x (ground arith) e)
  ]

  module _ (ord : IsAscending) where
    bsearch_loop-IsFound :
        (f base nel : ℕ)
        → nel < f
        → IsNarrowed base nel
        → (r : Option ℕ) × (bsearch_loop cmp key a f base nel ≡ ok r) × IsFound r
    unfolding bsearch_loop elt
    bsearch_loop-IsFound zero base nel l v = absurd (omega arith)
    bsearch_loop-IsFound (suc f) base zero l v = (none, ground arith, narrowed_out base v)
    bsearch_loop-IsFound (suc f) base (suc n) l v =
        let nel = suc n in
        let mid = base + suc n / 2 in
        let (x, at) = get_elem?_lt a mid (omega (arith, v.inside)) in
        elim (Bool-cases (is_neg (cmp key x))) [
          | inl high ↦
              let (r, runs, found) = bsearch_loop-IsFound f base (suc n / 2) (omega arith) (record {
                inside = omega (arith, v.inside);
                left = v.left;
                right = λ i y p e. ord.above mid i x y p at e high;
              }) in
              (r, ground (arith, runs), found)
          | inr not_high ↦ elim (Bool-cases (is_pos (cmp key x))) [
            | inl low ↦
                let (r, runs, found) =
                  bsearch_loop-IsFound f (mid + 1) (suc n - (suc n / 2 + 1)) (omega arith) (record {
                    inside = omega (arith, v.inside);
                    left = λ i y p e. ord.below i mid y x (omega arith) e at low;
                    right = λ i y p e. v.right i y (omega arith) e;
                  }) in
                (r, ground (arith, runs), found)
            | inr not_low ↦
                (some mid, ground arith, (x, at, sign_zero (cmp key x) not_high not_low))
          ]
        ]

-- On an array in ascending order bsearch ends, reads inside the array only, and returns an element
-- that compares equal to the key, or NULL when no element does.
pub bsearch-IsFound :
    {A : Type 0} (cmp : CmpFn A) (key : A) (a : List A)
    → IsAscending cmp key a
    → (r : Option ℕ) × (bsearch cmp key a (length a) ≡ ok r) × IsFound cmp key a r
unfolding bsearch
bsearch-IsFound cmp key a ord =
    bsearch_loop-IsFound cmp key a ord (length a + 1) 0 (length a) (omega arith) (record {
      inside = omega arith;
      left = λ i x p e. absurd (omega arith);
      right = λ i x p e. absurd (omega (arith, get_elem?-lt a i x e));
    })
