-- ===== src/Prng/Random/State.antt =====
-- The invariant of the generator, and that random keeps it.
use mytilus.Base.{
  ℕ, zero, suc, ◌+◌, ◌-◌, ◌/◌, ◌%◌, ◌^◌, ◌<◌, ◌≤◌, ◌≡◌, ◌≢◌, ◌⊎◌, inl, inr, ◌==◌, if◌then◌else◌,
  Option, none, some, arith, refl, ap, Bool-cases,
}
use mytilus.Memory.{Mem, ok, update, IsMapped}
use mytilus.Prng.Lcg.{lcg31, lcg31-eq}
use mytilus.Prng.Random.{Random, lock, unlock, x_ptr, random_locked, random}

-- The words behind the header.
abbrev pub words : ℕ → ℕ
words n = if n == 0 then 1 else n

-- Where the state buffer starts: one word before x[0].
abbrev pub base_of : ℕ → Option ℕ → ℕ
base_of init none = init
base_of init (some p) = p - 1

-- The size and the indices fit the header, a table that is not empty holds both indices, a pointer is not at address 0, and the header
-- and the table are mapped.
pub record IsTable (init : ℕ) (s : Random) : Type 0 where
  pub small : s.n < 64
  pub i_small : s.i < 64
  pub j_small : s.j < 64
  pub i_inside : (s.n ≡ 0) ⊎ (s.i < s.n)
  pub j_inside : (s.n ≡ 0) ⊎ (s.j < s.n)
  pub above : s.x ≢ some 0
  pub mapped : IsMapped s.mem (base_of init s.x) (words s.n + 1)

-- The same with the lock free.
abbrev pub IsReady : ℕ → Random → Type 0
IsReady init s = (s.lock ≡ 0) × IsTable init s

-- Only the words behind the header at b, up to b + n, may differ.
abbrev pub KeepsAround : Mem → Mem → ℕ → ℕ → Type 0
KeepsAround m m' b n = (q : ℕ) → (q ≤ b) ⊎ (b + n < q) → m' q ≡ m q

pub IsMapped-update : (m : Mem) (p n q v : ℕ) → IsMapped m p n → IsMapped (update m q v) p n
IsMapped-update m p n q v h i l = let (b, at) = h i l in (if q == p + i then v else b, ground arith)

-- A word of the table.
pub word_at :
    (m : Mem) (b k n : ℕ) → IsMapped m b (n + 1) → k < n → (w : ℕ) × (m (b + 1 + k) ≡ some w)
word_at m b k n h l =
    let (w, at) = h (suc k) (omega arith) in
    let e : b + suc k ≡ b + 1 + k = omega arith in (w, rw e at at)

module _ (init : ℕ) where
  x_ptr_cases :
      (k n i j : ℕ) (x : Option ℕ) (mem : Mem)
      → x ≢ some 0
      → let s : Random = record { lock = k; n = n; i = i; j = j; x = x; mem = mem } in
        x_ptr init s ≡ (base_of init x + 1, record s { x = some (base_of init x + 1) })
  unfolding x_ptr
  x_ptr_cases k n i j none mem above = refl
  x_ptr_cases k n i j (some zero) mem above = absurd (above refl)
  x_ptr_cases k n i j (some (suc p)) mem above =
      let e : suc p ≡ suc p - 1 + 1 = omega arith in
      ap (λ q. (q, record { lock = k; n = n; i = i; j = j; x = some q; mem = mem })) e

  -- What x_ptr returns, and the state that it leaves.
  pub x_ptr-eq :
      (s : Random)
      → s.x ≢ some 0
      → x_ptr init s ≡ (base_of init s.x + 1, record s { x = some (base_of init s.x + 1) })
  x_ptr-eq s above = x_ptr_cases s.lock s.n s.i s.j s.x s.mem above

  pub random_locked_lem :
      (s : Random)
      → IsTable init s
      → (v : ℕ) × (mem : Mem) × (i j : ℕ) × (random_locked init s
          ≡ ok (v, record s { x = some (base_of init s.x + 1); i = i; j = j; mem = mem }))
        × (v < 2 ^ 31)
        × (i < 64)
        × (j < 64)
        × ((s.n ≡ 0) ⊎ (i < s.n))
        × ((s.n ≡ 0) ⊎ (j < s.n))
        × IsMapped mem (base_of init s.x) (words s.n + 1)
        × KeepsAround s.mem mem (base_of init s.x) (words s.n)
  unfolding random_locked
  random_locked_lem s v =
      let b = base_of init s.x in
      let ptr = x_ptr-eq s v.above in
      elim (Bool-cases (s.n == 0)) [
        | inl single ↦
            let (w, at) = word_at s.mem b 0 (words s.n) v.mapped (ground arith) in
            let e : b + 1 + 0 ≡ b + 1 = omega arith in
            (
              lcg31 w,
              update s.mem (b + 1) (lcg31 w),
              s.i,
              s.j,
              ground (arith, ptr, at),
              omega (arith, lcg31-eq w),
              v.i_small,
              v.j_small,
              v.i_inside,
              v.j_inside,
              IsMapped-update s.mem b _ (b + 1) (lcg31 w) v.mapped,
              λ q out. ground (arith, out),
            )
        | inr table ↦
            let (p, at_i) = word_at s.mem b s.i (words s.n) v.mapped (ground (arith, v.i_inside)) in
            let (q, at_j) = word_at s.mem b s.j (words s.n) v.mapped (ground (arith, v.j_inside)) in
            (
              (p + q) % 2 ^ 32 / 2,
              update s.mem (b + 1 + s.i) ((p + q) % 2 ^ 32),
              if s.i + 1 == s.n then 0 else s.i + 1,
              if s.j + 1 == s.n then 0 else s.j + 1,
              ground (arith, ptr, at_i, at_j),
              omega arith,
              ground (arith, v.i_small, v.i_inside, v.small),
              ground (arith, v.j_small, v.j_inside, v.small),
              ground (arith, v.i_inside),
              ground (arith, v.j_inside),
              IsMapped-update s.mem b _ (b + 1 + s.i) ((p + q) % 2 ^ 32) v.mapped,
              λ r out. ground (arith, out, v.i_inside),
            )
      ]

  -- From a ready state random ends, returns a number below 2 ^ 31, moves the indices inside the
  -- table and keeps the table's size, writes to the words of the table only, and leaves the state
  -- ready, with the lock free again.
  pub random-IsReady :
      (s : Random)
      → IsReady init s
      → (v : ℕ) × (s' : Random) × (random init s ≡ ok (v, s'))
        × (v < 2 ^ 31)
        × (s'.n ≡ s.n)
        × (base_of init s'.x ≡ base_of init s.x)
        × IsReady init s'
        × KeepsAround s.mem s'.mem (base_of init s.x) (words s.n)
  unfolding random lock unlock
  random-IsReady s (free, v) =
      let taken : IsTable init (record s { lock = 1 }) = record {
        small = v.small;
        i_small = v.i_small;
        j_small = v.j_small;
        i_inside = v.i_inside;
        j_inside = v.j_inside;
        above = v.above;
        mapped = v.mapped;
      } in
      let b = base_of init s.x in
      let (r, mem, i, j, runs, small, ki, kj, hi, hj, mapped, kept) =
        random_locked_lem (record s { lock = 1 }) taken in
      let moved : b + 1 - 1 ≡ b = omega arith in
      (
        r,
        record s { lock = 0; x = some (b + 1); i = i; j = j; mem = mem },
        ground (arith, runs),
        small,
        refl,
        moved,
        (
          refl,
          record {
            small = v.small;
            i_small = ki;
            j_small = kj;
            i_inside = hi;
            j_inside = hj;
            above = λ e. ground arith;
            mapped = rw moved mapped;
          },
        ),
        kept,
      )
