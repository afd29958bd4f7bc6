-- ===== src/Sort/Order.antt =====
-- The order of a comparator, and the heap order on a prefix of an array.
use mathlib.Core.List.{Perm}
use mytilus.Base.{
  ℕ, ◌-◌, ◌/◌, ◌≤◌, ◌<◌, ◌≡◌, ◌≢◌, true, false, List, is_neg, Bool-cases, inl, inr, get_elem?, some,
}
use mytilus.Sort.{CmpFnR}
use mytilus.Sort.Array.{at}

abbrev pub parent : ℕ → ℕ
parent c = (c - 1) / 2

module _ {A C : Type 0} (cmp : CmpFnR A C) (ctx : C) where
  -- y is not less than x.
  abbrev pub Le : A → A → Type 0
  Le x y = is_neg (cmp y x ctx) ≡ false

  -- What the C standard asks of a comparator: "less" is asymmetric, and its negation transitive.
  pub record IsComparator : Type 0 where
    pub asym : (x y : A) → is_neg (cmp x y ctx) ≡ true → is_neg (cmp y x ctx) ≡ false
    pub trans : (x y z : A) → Le x y → Le y z → Le x z

  pub Le_refl : IsComparator → (x : A) → Le x x
  Le_refl ord x = elim (Bool-cases (is_neg (cmp x x ctx))) [ inl l ↦ ord.asym x x l | inr l ↦ l ]

  -- Ascending: no element is less than one before it.
  abbrev pub IsSorted : List A → Type 0
  IsSorted a =
      (i j : ℕ) (x y : A) → i ≤ j → get_elem? a i ≡ some x → get_elem? a j ≡ some y → Le x y

  module _ (d : A) where
    -- Among the first n elements, every child whose parent is at `lo` or later is at most its
    -- parent.
    abbrev pub IsHeapFrom : ℕ → ℕ → List A → Type 0
    IsHeapFrom lo n a = (c : ℕ) → 0 < c → c < n → lo ≤ parent c → Le (at d a c) (at d a (parent c))

    -- The same but for the children of i, which are at most the parent of i.
    pub record IsHeapBut (lo n : ℕ) (a : List A) (i : ℕ) : Type 0 where
      pub edges :
          (c : ℕ) → 0 < c → c < n → lo ≤ parent c → parent c ≢ i → Le (at d a c) (at d a (parent c))
      pub bridged :
          (c : ℕ)
          → 0 < c
          → c < n
          → parent c ≡ i
          → 0 < i
          → lo ≤ parent i
          → Le (at d a c) (at d a (parent i))

    -- `b` is `a` with its first n elements reordered into a heap from `lo` on.
    pub record IsSifted (lo n : ℕ) (a b : List A) : Type 0 where
      pub heap : IsHeapFrom lo n b
      pub perm : Perm b a
      pub rest : (j : ℕ) → n ≤ j → at d b j ≡ at d a j
      pub source : (j : ℕ) → j < n → (k : ℕ) × (k < n) × (at d b j ≡ at d a k)
