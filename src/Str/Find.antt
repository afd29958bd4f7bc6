-- ===== src/Str/Find.antt =====
-- crates/mytilus-string/src/str_fns.rs: memchr, memrchr, strchrnul, strchr and strrchr.
-- A returned pointer is an address, and `none` is NULL. An `int c` is its 32-bit pattern.
use mytilus.Base.{
  ℕ, zero, suc, ◌+◌, ◌%◌, ◌≤◌, ◌<◌, ◌≡◌, ◌≢◌, Bool-cases, false, inl, inr, Option, none, some, List,
  [], ◌∷◌, ◌==◌, ◌||◌, if◌then◌else◌, length, span, not, arith, refl,
}
use mytilus.Memory.{
  Mem, Run, ok, out_of_fuel, ◌>>=◌, load, IsCStr, IsMapped, IsCStr-IsMapped, IsCStr-nul,
}
use mytilus.Str.Length.{strlen, strlen-eq-length}

-- `left` is n - i.
memchr_loop : Mem → ℕ → ℕ → ℕ → ℕ → Run (Option ℕ)
memchr_loop m s target zero i = ok none
memchr_loop m s target (suc left) i =
    let more = memchr_loop m s target left (i + 1) in
    do b ← load m (s + i); if b == target then ok (some (s + i)) else more

unfoldable pub memchr : Mem → ℕ → ℕ → ℕ → Run (Option ℕ)
unfolding memchr_loop
memchr m s c n = memchr_loop m s (c % 256) n 0

memrchr_loop : Mem → ℕ → ℕ → ℕ → Run (Option ℕ)
memrchr_loop m s target zero = ok none
memrchr_loop m s target (suc i) =
    let more = memrchr_loop m s target i in
    do b ← load m (s + i); if b == target then ok (some (s + i)) else more

unfoldable pub memrchr : Mem → ℕ → ℕ → ℕ → Run (Option ℕ)
unfolding memrchr_loop
memrchr m s c n = memrchr_loop m s (c % 256) n

-- `while *p != 0 && *p != target`: a NUL ends the loop before the second test.
strchrnul_loop : ℕ → Mem → ℕ → ℕ → Run ℕ
strchrnul_loop zero m p target = out_of_fuel
strchrnul_loop (suc f) m p target =
    let more = strchrnul_loop f m (p + 1) target in
    do b ← load m p; if b == 0 || b == target then ok p else more

unfoldable pub strchrnul : ℕ → Mem → ℕ → ℕ → Run ℕ
unfolding strchrnul_loop
strchrnul f m s c =
    let target = c % 256 in
    if target == 0 then (do n ← strlen f m s; ok (s + n)) else strchrnul_loop f m s target

unfoldable pub strchr : ℕ → Mem → ℕ → ℕ → Run (Option ℕ)
unfolding strchrnul
strchr f m s c = do
  r ← strchrnul f m s c
  b ← load m r
  if b == c % 256 then ok (some r) else ok none

unfoldable pub strrchr : ℕ → Mem → ℕ → ℕ → Run (Option ℕ)
unfolding memrchr
strrchr f m s c = do len ← strlen f m s; memrchr m s c (len + 1)

-- What a forward and a backward search over n bytes from `s` return.
abbrev pub IsFirstMatch : Mem → ℕ → ℕ → ℕ → Option ℕ → Type 0
IsFirstMatch m s t n none = (j : ℕ) → j < n → m (s + j) ≢ some t
IsFirstMatch m s t n (some p) =
    (i : ℕ) × (i < n) × (p ≡ s + i) × (m p ≡ some t) × ((j : ℕ) → j < i → m (s + j) ≢ some t)

abbrev pub IsLastMatch : Mem → ℕ → ℕ → ℕ → Option ℕ → Type 0
IsLastMatch m s t n none = (j : ℕ) → j < n → m (s + j) ≢ some t
IsLastMatch m s t n (some p) =
    (i : ℕ) × (i < n)
    × (p ≡ s + i)
    × (m p ≡ some t)
    × ((j : ℕ) → i < j → j < n → m (s + j) ≢ some t)

module _ (m : Mem) (s t : ℕ) where
  -- One more byte that does not match, behind the bytes already searched or in front of them.
  before-suc :
      (i b : ℕ)
      → m (s + i) ≡ some b
      → (b == t) ≡ false
      → ((j : ℕ) → j < i → m (s + j) ≢ some t)
      → (j : ℕ) → j < i + 1
      → m (s + j) ≢ some t
  before-suc i b e ne before j l = ground (arith, before j)

  after-pred :
      (i n b : ℕ)
      → m (s + i) ≡ some b
      → (b == t) ≡ false
      → ((j : ℕ) → i < j → j < n → m (s + j) ≢ some t)
      → (j : ℕ) → i ≤ j
      → j < n
      → m (s + j) ≢ some t
  after-pred i n b e ne after j l u = ground (arith, after j)

  memchr_loop-IsFirstMatch :
      (left i n : ℕ)
      → i + left ≡ n
      → IsMapped m s n
      → ((j : ℕ) → j < i → m (s + j) ≢ some t)
      → (r : Option ℕ) × (memchr_loop m s t left i ≡ ok r) × IsFirstMatch m s t n r
  unfolding memchr_loop
  memchr_loop-IsFirstMatch zero i n e mapped before = (none, refl, λ j l. before j (omega arith))
  memchr_loop-IsFirstMatch (suc left) i n e mapped before =
      let (b, at) = mapped i (omega arith) in
      elim (Bool-cases (b == t)) [
        | inl hit ↦ (some (s + i), ground arith, (i, omega arith, refl, ground arith, before))
        | inr miss ↦
            let (r, eq, match) =
              memchr_loop-IsFirstMatch left (i + 1) n (omega arith) mapped
                (before-suc i b at miss before) in
            (r, ground (arith, eq), match)
      ]

  memrchr_loop-IsLastMatch :
      (i n : ℕ)
      → i ≤ n
      → IsMapped m s n
      → ((j : ℕ) → i ≤ j → j < n → m (s + j) ≢ some t)
      → (r : Option ℕ) × (memrchr_loop m s t i ≡ ok r) × IsLastMatch m s t n r
  unfolding memrchr_loop
  memrchr_loop-IsLastMatch zero n e mapped after = (none, refl, λ j l. after j (omega arith) l)
  memrchr_loop-IsLastMatch (suc i) n e mapped after =
      let (b, at) = mapped i (omega arith) in
      elim (Bool-cases (b == t)) [
        | inl hit ↦ (some (s + i), ground arith, (i, omega arith, refl, ground arith, after))
        | inr miss ↦
            let (r, eq, match) =
              memrchr_loop-IsLastMatch i n (omega arith) mapped (after-pred i n b at miss after) in
            (r, ground (arith, eq), match)
      ]

-- memchr over n readable bytes returns the first one equal to the low byte of c, or NULL when
-- there is none, and reads nothing else.
pub memchr-IsFirstMatch :
    (m : Mem) (s c n : ℕ)
    → IsMapped m s n
    → (r : Option ℕ) × (memchr m s c n ≡ ok r) × IsFirstMatch m s (c % 256) n r
unfolding memchr
memchr-IsFirstMatch m s c n h =
    memchr_loop-IsFirstMatch m s (c % 256) n 0 n (omega arith) h (λ j l. absurd (omega arith))

-- memrchr over n readable bytes returns the last one equal to the low byte of c, or NULL when
-- there is none, and reads nothing else.
pub memrchr-IsLastMatch :
    (m : Mem) (s c n : ℕ)
    → IsMapped m s n
    → (r : Option ℕ) × (memrchr m s c n ≡ ok r) × IsLastMatch m s (c % 256) n r
unfolding memrchr
memrchr-IsLastMatch m s c n h =
    memrchr_loop-IsLastMatch m s (c % 256) n n (omega arith) h (λ j l u. absurd (omega arith))

strchrnul_loop-eq :
    (f : ℕ) (m : Mem) (s t i : ℕ) (bs : List ℕ)
    → length bs < f
    → t ≢ 0
    → IsCStr m (s + i) bs
    → (strchrnul_loop f m (s + i) t >>= λ r.
        load m r >>= λ b. if b == t then ok (some r) else ok none)
      ≡ memchr_loop m s t (suc (length bs)) i
unfolding strchrnul_loop memchr_loop
strchrnul_loop-eq zero m s t i bs l h c = absurd (omega arith)
strchrnul_loop-eq (suc f) m s t i [] l h c = ground arith
strchrnul_loop-eq (suc f) m s t i (b ∷ bs) l h c =
    ground (arith, strchrnul_loop-eq f m s t (i + 1) bs (omega arith) h (rw e at c.2))
  where
    e : s + i + 1 ≡ s + (i + 1)
    e = omega arith

memchr_loop-nul :
    (m : Mem) (s i : ℕ) (bs : List ℕ)
    → IsCStr m (s + i) bs
    → memchr_loop m s 0 (suc (length bs)) i ≡ ok (some (s + (i + length bs)))
unfolding memchr_loop
memchr_loop-nul m s i [] c = ground arith
memchr_loop-nul m s i (b ∷ bs) c =
    let e : s + i + 1 ≡ s + (i + 1) = omega arith in
    ground (arith, memchr_loop-nul m s (i + 1) bs (rw e at c.2))

-- On a C string strchr returns exactly what memchr returns over the string and its terminator,
-- the search for NUL included.
pub strchr-eq-memchr :
    (f : ℕ) (m : Mem) (s c : ℕ) (bs : List ℕ)
    → length bs < f
    → IsCStr m s bs
    → strchr f m s c ≡ memchr m s c (length bs + 1)
unfolding strchr memchr
strchr-eq-memchr f m s c bs l h =
    let e : s ≡ s + 0 = omega arith in
    elim (Bool-cases (c % 256 == 0)) [
      | inl nul ↦ ground (
        arith,
        strlen-eq-length f m s bs l h,
        IsCStr-nul m s bs h,
        memchr_loop-nul m s 0 bs (rw e at h),
      )
      | inr other ↦
          ground (arith, strchrnul_loop-eq f m s (c % 256) 0 bs l (ground arith) (rw e at h))
    ]

-- On a C string strrchr returns the last byte equal to the low byte of c, the terminator included,
-- or NULL when there is none.
pub strrchr-IsLastMatch :
    (f : ℕ) (m : Mem) (s c : ℕ) (bs : List ℕ)
    → length bs < f
    → IsCStr m s bs
    → (r : Option ℕ) × (strrchr f m s c ≡ ok r) × IsLastMatch m s (c % 256) (length bs + 1) r
unfolding strrchr
strrchr-IsLastMatch f m s c bs l h =
    rw (strlen-eq-length f m s bs l h)
      (memrchr-IsLastMatch m s c (length bs + 1) (IsCStr-IsMapped m s bs h))

strchrnul_loop-span :
    (f : ℕ) (m : Mem) (s t : ℕ) (bs : List ℕ)
    → length bs < f
    → IsCStr m s bs
    → strchrnul_loop f m s t ≡ ok (s + span (λ b. not (b == t)) bs)
unfolding strchrnul_loop
strchrnul_loop-span zero m s t bs l h = absurd (omega arith)
strchrnul_loop-span (suc f) m s t [] l h = ground arith
strchrnul_loop-span (suc f) m s t (b ∷ bs) l h =
    ground (arith, strchrnul_loop-span f m (s + 1) t bs (omega arith) h.2)

span_whole :
    (m : Mem) (s : ℕ) (bs : List ℕ) → IsCStr m s bs → span (λ b. not (b == 0)) bs ≡ length bs
span_whole m s [] h = refl
span_whole m s (b ∷ bs) h = ground (arith, span_whole m (s + 1) bs h.2)

-- On a C string strchrnul returns the address of the first byte equal to the low byte of c, or of
-- the terminator when there is none.
pub strchrnul-span :
    (f : ℕ) (m : Mem) (s c : ℕ) (bs : List ℕ)
    → length bs < f
    → IsCStr m s bs
    → strchrnul f m s c ≡ ok (s + span (λ b. not (b == c % 256)) bs)
unfolding strchrnul
strchrnul-span f m s c bs l h = elim (Bool-cases (c % 256 == 0)) [
  | inl nul ↦
      let e : c % 256 ≡ 0 = ground arith in
      rw e (ground (arith, strlen-eq-length f m s bs l h, span_whole m s bs h))
  | inr other ↦ ground (arith, strchrnul_loop-span f m s (c % 256) bs l h)
]
