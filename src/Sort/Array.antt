-- ===== src/Sort/Array.antt =====
-- Lists as arrays: reads and exchanges inside the bounds. `d` only fills reads past the end.
use mathlib.Core.Logic.{∥∥₁_elim}
use mathlib.Core.List.{Perm, Permᴰ}
use mathlib.Core.List.Perm
use native.Mathlib.Nat.{ℕ_set}
use mytilus.Base.{
  ℕ, zero, suc, ◌<◌, ◌≡◌, refl, ap, ◌∙◌, ◌==◌, if◌then◌else◌, List, [], ◌∷◌, length, get_elem?,
  get_or, set, length-set, some, arith,
}
use mytilus.Memory.{ok}
use mytilus.Sort.{elt, swap}

module _ {A : Type 0} where
  same_length : {xs ys : List A} → Permᴰ xs ys → length xs ≡ length ys
  same_length (Permᴰ.trans q r) = same_length q ∙ same_length r
  same_length (Permᴰ.cons _ q) = ap suc (same_length q)
  same_length (Permᴰ.swap _ _) = refl
  same_length Permᴰ.nil = refl

  pub length-perm : {xs ys : List A} → Perm xs ys → length xs ≡ length ys
  length-perm q = ∥∥₁_elim q (ℕ_set _ _) same_length

module _ {A : Type 0} (d : A) where
  abbrev pub at : List A → ℕ → A
  at a i = get_or a i d

  abbrev pub exchange : List A → ℕ → ℕ → List A
  exchange a i j = set (set a i (at a j)) j (at a i)

  pub get_elem?-at : (a : List A) (i : ℕ) → i < length a → get_elem? a i ≡ some (at a i)
  get_elem?-at [] i h = absurd (omega arith)
  get_elem?-at (x ∷ a) zero h = refl
  get_elem?-at (x ∷ a) (suc i) h = get_elem?-at a i (omega arith)

  pub get_elem?-some :
      (a : List A) (i : ℕ) (x : A) → get_elem? a i ≡ some x → (i < length a) × (at a i ≡ x)
  get_elem?-some [] i x e = absurd (ground arith)
  get_elem?-some (y ∷ a) zero x e = (omega arith, ground arith)
  get_elem?-some (y ∷ a) (suc i) x e = let (l, same) = get_elem?-some a i x e in (omega arith, same)

  pub elt-ok : (a : List A) (i : ℕ) → i < length a → elt a i ≡ ok (at a i)
  unfolding elt
  elt-ok a i h = rw (get_elem?-at a i h, elt)

  pub swap-ok :
      (a : List A) (i j : ℕ) → i < length a → j < length a → swap a i j ≡ ok (exchange a i j)
  unfolding swap
  swap-ok a i j hi hj = rw (elt-ok a i hi, elt-ok a j hj)

  pub at-set :
      (a : List A) (i j : ℕ) (v : A)
      → i < length a
      → at (set a i v) j ≡ (if i == j then v else at a j)
  at-set [] i j v h = absurd (omega arith)
  at-set (x ∷ a) zero zero v h = refl
  at-set (x ∷ a) zero (suc j) v h = ground arith
  at-set (x ∷ a) (suc i) zero v h = ground arith
  at-set (x ∷ a) (suc i) (suc j) v h = ground (arith, at-set a i j v)

  -- Writing v at i trades the old element for v.
  trade-perm : (a : List A) (i : ℕ) (v : A) → i < length a → Perm (at a i ∷ set a i v) (v ∷ a)
  trade-perm [] i v h = absurd (omega arith)
  trade-perm (x ∷ a) zero v h = Perm.swap v x a
  trade-perm (x ∷ a) (suc i) v h =
      Perm.trans (Perm.swap x _ _)
        (Perm.trans (Perm.cons x (trade-perm a i v (omega arith))) (Perm.swap v x a))

  pub length-exchange : (a : List A) (i j : ℕ) → length (exchange a i j) ≡ length a
  length-exchange a i j = simp length-set

  module _ (a : List A) (i j : ℕ) (hi : i < length a) (hj : j < length a) where
    pub at-exchange :
        (k : ℕ)
        → at (exchange a i j) k ≡ (if j == k then at a i else if i == k then at a j else at a k)
    at-exchange k =
        rw (at-set (set a i (at a j)) j k (at a i) (rw length-set hj), at-set a i k (at a j) hi)

    pub exchange-perm : Perm (exchange a i j) a
    exchange-perm =
        let b = set a i (at a j) in
        let same : at b j ≡ at a j = ground (arith, at-set a i j (at a j)) in
        let back = rw same at (trade-perm b j (at a i) (rw length-set hj)) in
        Perm.cons_inv (Perm.trans back (trade-perm a i (at a j) hi))
