-- ===== src/Sort/Unique.antt =====
-- A comparator that tells the elements apart leaves one ascending rearrangement.
use mathlib.Core.List.{
  Perm, Mem, mem-cons_self, mem-cons_of_mem, eq-or-mem_of_mem-cons, not-mem-nil,
}
use mathlib.Core.List.Perm
use mathlib.Core.Logic.Or
use mathlib.Core.Bool.{Bool-set}
use mytilus.Base.{ℕ, suc, ◌≡◌, List, [], ◌∷◌, get_elem?, some, refl, ap, ap₂, sym, subst, arith}
use mytilus.Sort.{CmpFnR}
use mytilus.Sort.Order.{Le, IsSorted}

module _ {A C : Type 0} (cmp : CmpFnR A C) (ctx : C) where
  -- No two different elements of a list compare as equal.
  abbrev pub Distinguishes : List A → Type 0
  Distinguishes xs = (x y : A) → Mem x xs → Mem y xs → Le cmp ctx x y → Le cmp ctx y x → x ≡ y

  -- An element that is at most the one at any place is at most any of them.
  Le_all :
      (z : A) (xs : List A)
      → ((i : ℕ) (y : A) → get_elem? xs i ≡ some y → Le cmp ctx z y)
      → (y : A) → Mem y xs
      → Le cmp ctx z y
  Le_all z [] h y m = absurd (not-mem-nil m)
  Le_all z (x ∷ xs) h y m =
      Or.elim (Bool-set _ _) (eq-or-mem_of_mem-cons m) (λ e. h 0 y (ap some (sym e)))
        (Le_all z xs (λ i. h (suc i)) y)

  tail-IsSorted : (x : A) (xs : List A) → IsSorted cmp ctx (x ∷ xs) → IsSorted cmp ctx xs
  tail-IsSorted x xs s i j y z l = s (suc i) (suc j) y z (omega (arith, l))

  first-Le :
      (x : A) (xs : List A) → IsSorted cmp ctx (x ∷ xs) → (y : A) → Mem y (x ∷ xs) → Le cmp ctx x y
  first-Le x xs s = Le_all x (x ∷ xs) (λ i y e. s 0 i x y (omega arith) refl e)

  -- Two ascending lists with the same elements are the same list.
  pub IsSorted-eq_of_perm :
      (xs ys : List A)
      → Perm xs ys
      → Distinguishes xs
      → IsSorted cmp ctx xs
      → IsSorted cmp ctx ys
      → xs ≡ ys
  IsSorted-eq_of_perm [] ys p apart s t = Perm.nil-eq p
  IsSorted-eq_of_perm (x ∷ xs) [] p apart s t = Perm.eq-nil p
  IsSorted-eq_of_perm (x ∷ xs) (y ∷ ys) p apart s t =
      let y_in : Mem y (x ∷ xs) = (Perm.mem_iff p).1 mem-cons_self in
      let x_in : Mem x (y ∷ ys) = (Perm.mem_iff p).0 mem-cons_self in
      let same : x ≡ y =
        apart x y mem-cons_self y_in (first-Le x xs s y y_in) (first-Le y ys t x x_in) in
      let rest : Perm xs ys = Perm.cons_inv (subst (λ z. Perm (x ∷ xs) (z ∷ ys)) (sym same) p) in
      let apart' : Distinguishes xs =
        λ u v a b. apart u v (mem-cons_of_mem x a) (mem-cons_of_mem x b) in
      ap₂ (λ z zs. z ∷ zs) same
        (IsSorted-eq_of_perm xs ys rest apart' (tail-IsSorted x xs s) (tail-IsSorted y ys t))
