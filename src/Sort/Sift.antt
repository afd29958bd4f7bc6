-- ===== src/Sort/Sift.antt =====
-- sift_down restores the heap order below one index.
use mathlib.Core.List.Perm
use mytilus.Base.{
  ℕ, zero, suc, ◌+◌, ◌*◌, ◌≤◌, ◌<◌, ◌≡◌, ◌⊎◌, inl, inr, true, leb, ltb, List, length, ◌==◌,
  if◌then◌else◌, is_neg, arith, subst, Bool-cases, refl,
}
use mytilus.Memory.{ok}
use mytilus.Sort.{CmpFnR, larger_child, sift_down}
use mytilus.Sort.Array.{at, exchange, elt-ok, swap-ok, at-exchange, exchange-perm, length-exchange}
use mytilus.Sort.Order.{Le, IsComparator, Le_refl, parent, IsHeapBut, IsSifted}

module _ {A C : Type 0} (cmp : CmpFnR A C) (ctx : C) (d : A) (ord : IsComparator cmp ctx) where
  record IsLargerChild (n : ℕ) (a : List A) (i m : ℕ) : Type 0 where
    inside : m < n
    child : (m ≡ 2 * i + 1) ⊎ (m ≡ 2 * i + 2)
    largest : (c : ℕ) → 0 < c → c < n → parent c ≡ i → Le cmp ctx (at d a c) (at d a m)

  -- The children of i stand at 2 * i + 1 and 2 * i + 2.
  children_le :
      (n : ℕ) (a : List A) (i m : ℕ)
      → Le cmp ctx (at d a (2 * i + 1)) (at d a m)
      → (2 * i + 1 + 1 < n → Le cmp ctx (at d a (2 * i + 1 + 1)) (at d a m))
      → (c : ℕ) → 0 < c
      → c < n
      → parent c ≡ i
      → Le cmp ctx (at d a c) (at d a m)
  children_le n a i m left right c p q e =
      let P : ℕ → Type 0 = λ k. Le cmp ctx (at d a k) (at d a m) in
      elim (Bool-cases (c == 2 * i + 1)) [
        | inl first ↦ subst P (ground arith) left
        | inr second ↦ let e' : 2 * i + 1 + 1 ≡ c = ground arith in subst P e' (right (omega arith))
      ]

  larger_child-IsLargerChild :
      (n : ℕ) (a : List A) (i : ℕ)
      → n ≤ length a
      → 2 * i + 1 < n
      → (m : ℕ) × (larger_child cmp ctx a n (2 * i + 1) ≡ ok m) × IsLargerChild n a i m
  unfolding larger_child
  larger_child-IsLargerChild n a i fits has_left = elim (Bool-cases (ltb (2 * i + 1 + 1) n)) [
    | inl two ↦
        let x = at d a (2 * i + 1) in
        let y = at d a (2 * i + 1 + 1) in
        let ex = elt-ok d a (2 * i + 1) (omega arith) in
        let ey = elt-ok d a (2 * i + 1 + 1) (ground arith) in
        elim (Bool-cases (is_neg (cmp x y ctx))) [
          | inl below ↦ (
            2 * i + 1 + 1,
            ground (arith, ex, ey),
            record {
              inside = ground arith;
              child = omega arith;
              largest = children_le n a i _ (ord.asym x y below) (λ _. Le_refl cmp ctx ord y);
            },
          )
          | inr above ↦ (
            2 * i + 1,
            ground (arith, ex, ey),
            record {
              inside = has_left;
              child = omega arith;
              largest = children_le n a i _ (Le_refl cmp ctx ord x) (λ _. above);
            },
          )
        ]
    | inr one ↦ (
      2 * i + 1,
      ground arith,
      record {
        inside = has_left;
        child = omega arith;
        largest = children_le n a i _ (Le_refl cmp ctx ord _) (λ two. absurd (ground arith));
      },
    )
  ]

  exchange-IsHeapBut :
      (lo n : ℕ) (a : List A) (i m : ℕ)
      → n ≤ length a
      → lo ≤ i
      → IsHeapBut cmp ctx d lo n a i
      → IsLargerChild n a i m
      → is_neg (cmp (at d a i) (at d a m) ctx) ≡ true
      → IsHeapBut cmp ctx d lo n (exchange d a i m) m
  exchange-IsHeapBut lo n a i m fits from v s below =
      let swapped =
        at-exchange d a i m (omega (arith, s.inside, s.child)) (omega (arith, s.inside)) in
      let lifted = ord.asym (at d a i) (at d a m) below in
      record {
        edges = λ c p q r t. ground (
          arith,
          lifted,
          swapped c,
          swapped (parent c),
          v.edges c,
          v.bridged m,
          s.largest c,
          s.child,
        );
        bridged = λ c p q r t u. ground (arith, swapped c, swapped (parent m), v.edges c, s.child);
      }

  Sifted-exchange :
      (lo n : ℕ) (a b : List A) (i m : ℕ)
      → n ≤ length a
      → i < n
      → m < n
      → IsSifted cmp ctx d lo n (exchange d a i m) b
      → IsSifted cmp ctx d lo n a b
  Sifted-exchange lo n a b i m fits hi hm s =
      let swapped = at-exchange d a i m (omega arith) (omega arith) in
      record {
        heap = s.heap;
        perm = Perm.trans s.perm (exchange-perm d a i m (omega arith) (omega arith));
        rest = λ j p. ground (arith, s.rest j, swapped j);
        source = λ j p.
            let (k, hk, e) = s.source j p in
            (
              if m == k then i else if i == k then m else k,
              ground arith,
              ground (arith, e, swapped k),
            );
      }

  -- The loop ends for any fuel that reaches past the last index.
  pub sift_down-IsSifted :
      (f lo n : ℕ) (a : List A) (i : ℕ)
      → n ≤ length a
      → i < n
      → n ≤ i + f
      → lo ≤ i
      → IsHeapBut cmp ctx d lo n a i
      → (b : List A) × (sift_down cmp ctx f a n i ≡ ok b) × IsSifted cmp ctx d lo n a b
  unfolding sift_down
  sift_down-IsSifted zero lo n a i fits hi fuel from v = absurd (omega arith)
  sift_down-IsSifted (suc f) lo n a i fits hi fuel from v = elim (Bool-cases (leb n (2 * i + 1))) [
    | inl leaf ↦ (a, ground arith, settled (λ c p q e. absurd (ground arith)))
    | inr inner ↦
        let (m, picked, s) = larger_child-IsLargerChild n a i fits (ground arith) in
        let ex = elt-ok d a i (omega arith) in
        let ey = elt-ok d a m (omega (arith, s.inside)) in
        elim (Bool-cases (is_neg (cmp (at d a i) (at d a m) ctx))) [
          | inr in_order ↦ (
            a,
            ground (arith, picked, ex, ey),
            settled (λ c p q e. ord.trans _ _ _ (s.largest c p q e) in_order),
          )
          | inl below ↦
              let (b, runs, sifted) =
                sift_down-IsSifted f lo n (exchange d a i m) m
                  (omega (arith, length-exchange d a i m)) s.inside
                  (omega (arith, s.child, s.inside)) (omega (arith, s.child))
                  (exchange-IsHeapBut lo n a i m fits from v s below) in
              (
                b,
                ground (
                  arith,
                  picked,
                  ex,
                  ey,
                  swap-ok d a i m (omega arith) (omega (arith, s.inside)),
                  runs,
                ),
                Sifted-exchange lo n a b i m fits hi s.inside sifted,
              )
        ]
  ]
    where
      settled :
          ((c : ℕ) → 0 < c → c < n → parent c ≡ i → Le cmp ctx (at d a c) (at d a i))
          → IsSifted cmp ctx d lo n a a
      settled below = record {
        heap = λ c p q r. elim (Bool-cases (parent c == i)) [
          | inl e ↦
              let P : ℕ → Type 0 = λ k. Le cmp ctx (at d a c) (at d a k) in
              let e' : i ≡ parent c = ground arith in subst P e' (below c p q (ground arith))
          | inr ne ↦ v.edges c p q r (ground arith)
        ];
        perm = Perm.refl a;
        rest = λ j p. refl;
        source = λ j p. (j, p, refl);
      }
