-- ===== src/Str/Compare.antt =====
-- crates/mytilus-string/src/str_fns.rs: strcmp and strncmp; crates/mytilus-string/src/mem.rs:
-- memcmp. The result is the difference of two bytes, which an `int` holds.
use mytilus.Base.{
  ℕ, zero, suc, ◌+◌, ◌-◌, ◌<◌, ◌≡◌, ◌↔◌, List, [], ◌∷◌, ◌==◌, ◌&&◌, ◌||◌, not, if◌then◌else◌,
  length, take, arith, ℤ, pos, sub_ℕ, refl, ap, subst, ◌∙◌, Bool-cases, inl, inr,
}
use mytilus.Memory.{Mem, Run, ok, out_of_fuel, ◌>>=◌, load, Holds, IsCStr}

strcmp_loop : ℕ → Mem → ℕ → ℕ → ℕ → Run ℤ
strcmp_loop zero m l r i = out_of_fuel
strcmp_loop (suc f) m l r i =
    let more = strcmp_loop f m l r (i + 1) in
    do
      a ← load m (l + i)
      b ← load m (r + i)
      if not (a == b) || a == 0 then ok (sub_ℕ a b) else more

unfoldable pub strcmp : ℕ → Mem → ℕ → ℕ → Run ℤ
unfolding strcmp_loop
strcmp f m l r = strcmp_loop f m l r 0

-- `while *l != 0 && *r != 0 && n != 0 && *l == *r`, then `*l - *r`. Both bytes are read on every
-- path, whichever test ends the loop.
strncmp_loop : Mem → ℕ → ℕ → ℕ → Run ℤ
strncmp_loop m l r zero = do a ← load m l; b ← load m r; ok (sub_ℕ a b)
strncmp_loop m l r (suc n) =
    let more = strncmp_loop m (l + 1) (r + 1) n in
    do
      a ← load m l
      b ← load m r
      if not (a == 0) && not (b == 0) && a == b then more else ok (sub_ℕ a b)

unfoldable pub strncmp : Mem → ℕ → ℕ → ℕ → Run ℤ
unfolding strncmp_loop
strncmp m l r n = if n == 0 then ok (pos 0) else strncmp_loop m l r (n - 1)

-- `left` is n - i.
memcmp_loop : Mem → ℕ → ℕ → ℕ → ℕ → Run ℤ
memcmp_loop m l r zero i = ok (pos 0)
memcmp_loop m l r (suc left) i =
    let more = memcmp_loop m l r left (i + 1) in
    do a ← load m (l + i); b ← load m (r + i); if not (a == b) then ok (sub_ℕ a b) else more

unfoldable pub memcmp : Mem → ℕ → ℕ → ℕ → Run ℤ
unfolding memcmp_loop
memcmp m l r n = memcmp_loop m l r n 0

-- The order of two byte strings: the difference at the first place where they differ, a string
-- that ends counting as a byte 0 there.
unfoldable pub lex : List ℕ → List ℕ → ℤ
lex [] [] = pos 0
lex [] (b ∷ bs) = sub_ℕ 0 b
lex (a ∷ rest) [] = sub_ℕ a 0
lex (a ∷ rest) (b ∷ bs) = if a == b then lex rest bs else sub_ℕ a b

strcmp_loop-eq :
    (f : ℕ) (m : Mem) (l r i : ℕ) (xs ys : List ℕ)
    → length xs < f
    → IsCStr m (l + i) xs
    → IsCStr m (r + i) ys
    → strcmp_loop f m l r i ≡ ok (lex xs ys)
unfolding strcmp_loop lex
strcmp_loop-eq zero m l r i xs ys e p q = absurd (omega arith)
strcmp_loop-eq (suc f) m l r i [] [] e p q = ground arith
strcmp_loop-eq (suc f) m l r i [] (y ∷ ys) e p q = ground arith
strcmp_loop-eq (suc f) m l r i (x ∷ xs) [] e p q = ground arith
strcmp_loop-eq (suc f) m l r i (x ∷ xs) (y ∷ ys) e p q =
    let el : l + i + 1 ≡ l + (i + 1) = omega arith in
    let er : r + i + 1 ≡ r + (i + 1) = omega arith in
    ground (arith, strcmp_loop-eq f m l r (i + 1) xs ys (omega arith) (rw el at p.2) (rw er at q.2))

strncmp_loop-eq :
    (m : Mem) (l r n : ℕ) (xs ys : List ℕ)
    → IsCStr m l xs
    → IsCStr m r ys
    → strncmp_loop m l r n ≡ ok (lex (take (suc n) xs) (take (suc n) ys))
unfolding strncmp_loop lex
strncmp_loop-eq m l r zero [] [] p q = ground arith
strncmp_loop-eq m l r zero [] (y ∷ ys) p q = ground arith
strncmp_loop-eq m l r zero (x ∷ xs) [] p q = ground arith
strncmp_loop-eq m l r zero (x ∷ xs) (y ∷ ys) p q = ground arith
strncmp_loop-eq m l r (suc n) [] [] p q = ground arith
strncmp_loop-eq m l r (suc n) [] (y ∷ ys) p q = ground arith
strncmp_loop-eq m l r (suc n) (x ∷ xs) [] p q = ground arith
strncmp_loop-eq m l r (suc n) (x ∷ xs) (y ∷ ys) p q =
    ground (arith, strncmp_loop-eq m (l + 1) (r + 1) n xs ys p.2 q.2)

memcmp_loop-eq :
    (m : Mem) (l r left i : ℕ) (xs ys : List ℕ)
    → left ≡ length xs
    → left ≡ length ys
    → Holds m (l + i) xs
    → Holds m (r + i) ys
    → memcmp_loop m l r left i ≡ ok (lex xs ys)
unfolding memcmp_loop lex
memcmp_loop-eq m l r zero i [] [] e d p q = refl
memcmp_loop-eq m l r zero i (x ∷ xs) ys e d p q = absurd (omega arith)
memcmp_loop-eq m l r zero i [] (y ∷ ys) e d p q = absurd (omega arith)
memcmp_loop-eq m l r (suc left) i [] ys e d p q = absurd (omega arith)
memcmp_loop-eq m l r (suc left) i (x ∷ xs) [] e d p q = absurd (omega arith)
memcmp_loop-eq m l r (suc left) i (x ∷ xs) (y ∷ ys) e d p q =
    let el : l + i + 1 ≡ l + (i + 1) = omega arith in
    let er : r + i + 1 ≡ r + (i + 1) = omega arith in
    ground (
      arith,
      memcmp_loop-eq m l r left (i + 1) xs ys (omega arith) (omega arith) (rw el at p.1)
          (rw er at q.1),
    )

-- On two C strings strcmp ends, with any fuel above the length of the left one, and returns their
-- order.
pub strcmp-eq-lex :
    (f : ℕ) (m : Mem) (l r : ℕ) (xs ys : List ℕ)
    → length xs < f
    → IsCStr m l xs
    → IsCStr m r ys
    → strcmp f m l r ≡ ok (lex xs ys)
unfolding strcmp
strcmp-eq-lex f m l r xs ys e p q =
    let el : l ≡ l + 0 = omega arith in
    let er : r ≡ r + 0 = omega arith in strcmp_loop-eq f m l r 0 xs ys e (rw el at p) (rw er at q)

-- On two C strings strncmp returns the order of their first n bytes.
pub strncmp-eq-lex :
    (m : Mem) (l r n : ℕ) (xs ys : List ℕ)
    → IsCStr m l xs
    → IsCStr m r ys
    → strncmp m l r n ≡ ok (lex (take n xs) (take n ys))
unfolding strncmp
strncmp-eq-lex m l r zero xs ys p q = unfold lex in refl
strncmp-eq-lex m l r (suc n) xs ys p q = ground (arith, strncmp_loop-eq m l r n xs ys p q)

-- memcmp over two regions of n readable bytes returns their order.
pub memcmp-eq-lex :
    (m : Mem) (l r : ℕ) (xs ys : List ℕ)
    → length xs ≡ length ys
    → Holds m l xs
    → Holds m r ys
    → memcmp m l r (length xs) ≡ ok (lex xs ys)
unfolding memcmp
memcmp-eq-lex m l r xs ys e p q =
    let el : l ≡ l + 0 = omega arith in
    let er : r ≡ r + 0 = omega arith in
    memcmp_loop-eq m l r (length xs) 0 xs ys refl e (rw el at p) (rw er at q)

-- Two strings without a NUL have the order 0 exactly when they are equal.
lex-eq-zero :
    (m : Mem) (l r : ℕ) (xs ys : List ℕ)
    → IsCStr m l xs
    → IsCStr m r ys
    → lex xs ys ≡ pos 0
    → xs ≡ ys
unfolding lex
lex-eq-zero m l r [] [] p q e = refl
lex-eq-zero m l r [] (y ∷ ys) p q e = absurd (ground arith)
lex-eq-zero m l r (x ∷ xs) [] p q e = absurd (ground arith)
lex-eq-zero m l r (x ∷ xs) (y ∷ ys) p q e = elim (Bool-cases (x == y)) [
  | inl same ↦ ground (arith, lex-eq-zero m (l + 1) (r + 1) xs ys p.2 q.2 (ground arith))
  | inr other ↦ absurd (ground arith)
]

lex_self : (xs : List ℕ) → lex xs xs ≡ pos 0
unfolding lex
lex_self [] = refl
lex_self (x ∷ xs) = ground (arith, lex_self xs)

-- strcmp returns 0 exactly when the two C strings have the same bytes.
pub strcmp-zero_iff :
    (f : ℕ) (m : Mem) (l r : ℕ) (xs ys : List ℕ)
    → length xs < f
    → IsCStr m l xs
    → IsCStr m r ys
    → (strcmp f m l r ≡ ok (pos 0)) ↔ (xs ≡ ys)
strcmp-zero_iff f m l r xs ys e p q = (
  λ h. lex-eq-zero m l r xs ys p q (ground (arith, strcmp-eq-lex f m l r xs ys e p q)),
  λ h. strcmp-eq-lex f m l r xs ys e p q ∙ ap ok (subst (λ zs. lex xs zs ≡ pos 0) h (lex_self xs)),
)

-- On two C strings strcmp, with any fuel above the length of the left one, and strncmp end; strcmp
-- returns the order of the strings and strncmp that of their first n bytes, and strcmp returns 0
-- exactly when the strings are equal.
pub comparisons :
    (f : ℕ) (m : Mem) (l r n : ℕ) (xs ys : List ℕ)
    → length xs < f
    → IsCStr m l xs
    → IsCStr m r ys
    → (strcmp f m l r ≡ ok (lex xs ys))
      × (strncmp m l r n ≡ ok (lex (take n xs) (take n ys)))
      × ((strcmp f m l r ≡ ok (pos 0)) ↔ (xs ≡ ys))
comparisons f m l r n xs ys enough p q = (
  strcmp-eq-lex f m l r xs ys enough p q,
  strncmp-eq-lex m l r n xs ys p q,
  strcmp-zero_iff f m l r xs ys enough p q,
)
