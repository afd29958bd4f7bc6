-- ===== src/Prng/Random/Lagged.antt =====
-- random of crates/mytilus-prng/src/lib.rs against an additive generator on a queue of words.
use mytilus.Base.{
  ℕ, zero, suc, ◌+◌, ◌-◌, ◌/◌, ◌%◌, ◌^◌, ◌<◌, ◌≤◌, ◌≡◌, ◌≢◌, inl, inr, false, ◌==◌, ltb,
  if◌then◌else◌, some, List, [], ◌∷◌, ◌++◌, length, length-append, get_or, get_or-append, arith,
  refl, ap, sym, Bool-cases,
}
use mytilus.Memory.{Run, ok, ◌>>=◌, update}
use mytilus.Prng.Random.{Random, lock, unlock, random_locked, random}
use mytilus.Prng.Random.State.{base_of, IsTable, IsMapped-update, x_ptr-eq}

-- The calls of a caller, one after the other.
unfoldable pub draws : ℕ → ℕ → Random → Run (List ℕ × Random)
draws init zero s = ok ([], s)
draws init (suc k) s = do (v, s') ← random init s; (vs, s'') ← draws init k s'; ok (v ∷ vs, s'')

-- The word that an additive generator puts at the end of its queue: the sum of the oldest word and of
-- the one `lag` places behind it.
abbrev pub newest : ℕ → List ℕ → ℕ
newest lag q = (get_or q 0 0 + get_or q lag 0) % 2 ^ 32

abbrev pub advanced : ℕ → List ℕ → List ℕ
advanced lag [] = []
advanced lag (w ∷ q) = q ++ (newest lag (w ∷ q) ∷ [])

-- The results of k steps: each is the newest word without its lowest bit.
pub lagged : ℕ → ℕ → List ℕ → List ℕ
lagged lag zero q = []
lagged lag (suc k) q = newest lag q / 2 ∷ lagged lag k (advanced lag q)

-- The index of the table that is k places behind the index i.
abbrev pub wrap : ℕ → ℕ → ℕ
wrap n k = if ltb k n then k else k - n

-- The state of random holds the queue q: its words stand in the table from the front index on, around
-- the end, and the back index is `lag` places behind the front one.
pub record IsQueue (init lag : ℕ) (s : Random) (q : List ℕ) : Type 0 where
  pub free : s.lock ≡ 0
  pub table : IsTable init s
  pub size : length q ≡ s.n
  pub lag_inside : lag < s.n
  pub front_inside : s.i < s.n
  pub back : s.j ≡ wrap s.n (s.i + lag)
  pub held :
      (t : ℕ) → t < s.n → s.mem (base_of init s.x + 1 + wrap s.n (s.i + t)) ≡ some (get_or q t 0)

module _ (init : ℕ) where
  -- The state behind a call that adds the words p and r.
  abbrev behind : Random → ℕ → Random
  behind s v = record {
    lock = 0;
    n = s.n;
    i = if s.i + 1 == s.n then 0 else s.i + 1;
    j = if s.j + 1 == s.n then 0 else s.j + 1;
    x = some (base_of init s.x + 1);
    mem = update s.mem (base_of init s.x + 1 + s.i) v;
  }

  random-adds :
      (s : Random) (p r : ℕ)
      → s.lock ≡ 0
      → s.x ≢ some 0
      → s.n ≢ 0
      → s.mem (base_of init s.x + 1 + s.i) ≡ some p
      → s.mem (base_of init s.x + 1 + s.j) ≡ some r
      → random init s ≡ ok ((p + r) % 2 ^ 32 / 2, behind s ((p + r) % 2 ^ 32))
  unfolding random lock unlock random_locked
  random-adds s p r free above some_words front back =
      let ptr = x_ptr-eq init (record s { lock = 1 }) above in ground (arith, ptr, front, back)

  get_or-append_one :
      (q : List ℕ) (v t : ℕ)
      → t ≤ length q
      → get_or (q ++ (v ∷ [])) t 0 ≡ (if t == length q then v else get_or q t 0)
  get_or-append_one q v t l =
      let e : t ≡ length q → t - length q ≡ 0 = λ z. omega (arith, z) in
      ground (arith, get_or-append q (v ∷ []) t 0, e)

  -- One call takes the oldest word off the queue and puts the newest one at its end.
  random-advances :
      (lag : ℕ) (s : Random) (q : List ℕ)
      → IsQueue init lag s q
      → (random init s ≡ ok (newest lag q / 2, behind s (newest lag q)))
        × IsQueue init lag (behind s (newest lag q)) (advanced lag q)
  random-advances lag s [] h = absurd (omega (arith, h.size, h.lag_inside))
  random-advances lag s (w ∷ q) h =
      let b = base_of init s.x in
      let v = newest lag (w ∷ q) in
      let front : s.mem (b + 1 + s.i) ≡ some w =
        (let e : b + 1 + wrap s.n (s.i + 0) ≡ b + 1 + s.i = ground (arith, h.front_inside) in
          let at = h.held 0 (omega (arith, h.lag_inside)) in rw e at at) in
      let back : s.mem (b + 1 + s.j) ≡ some (get_or (w ∷ q) lag 0) =
        (let e : b + 1 + wrap s.n (s.i + lag) ≡ b + 1 + s.j = ap (λ a. b + 1 + a) (sym h.back) in
          let at = h.held lag h.lag_inside in rw e at at) in
      let moved : b + 1 - 1 ≡ b = omega arith in
      (
        random-adds s w (get_or (w ∷ q) lag 0) h.free h.table.above
            (λ e. omega (arith, e, h.lag_inside)) front back,
        record {
          free = refl;
          table = record {
            small = h.table.small;
            i_small = ground (arith, h.table.i_small, h.front_inside, h.table.small);
            j_small = ground (arith, h.table.j_small, h.table.j_inside, h.table.small);
            i_inside = inr (ground (arith, h.front_inside));
            j_inside = inr (ground (arith, h.table.j_inside, h.lag_inside));
            above = λ e. ground arith;
            mapped = rw moved (IsMapped-update s.mem b _ (b + 1 + s.i) v h.table.mapped);
          };
          size = omega (arith, length-append q (v ∷ []), h.size);
          lag_inside = h.lag_inside;
          front_inside = ground (arith, h.front_inside);
          back = ground (arith, h.back, h.front_inside, h.lag_inside);
          held = λ t l.
              let i' = if s.i + 1 == s.n then 0 else s.i + 1 in
              let place = b + 1 - 1 + 1 + wrap s.n (i' + t) in
              elim (Bool-cases (t == length q)) [
                | inl last ↦
                    let e : place ≡ b + 1 + s.i = ground (arith, last, h.size, h.front_inside) in
                    rw (e, get_or-append_one q v t (omega (arith, h.size, l)))
                      (ground (arith, last))
                | inr early ↦
                    let e : place ≡ b + 1 + wrap s.n (s.i + suc t) =
                      ground (arith, early, h.size, h.front_inside, l) in
                    let other : (b + 1 + wrap s.n (s.i + suc t) == b + 1 + s.i) ≡ false =
                      ground (arith, early, h.size, h.front_inside, l) in
                    let at = h.held (suc t) (ground (arith, early, h.size, l)) in
                    rw (e, get_or-append_one q v t (omega (arith, h.size, l)))
                      (ground (arith, early, other, at))
              ];
        },
      )

  -- Any number of calls of random gives the results of the additive generator on the queue that the
  -- table holds: where the words so far are x_0, x_1, .., x_(n - 1), the next ones are
  -- x_(m + n) = x_m + x_(m + lag) modulo 2 ^ 32, and the results are these without their lowest
  -- bits. The calls end, and leave the rest of the queue in the table.
  pub draws-lagged :
      (lag k : ℕ) (s : Random) (q : List ℕ)
      → IsQueue init lag s q
      → (s' : Random) × (q' : List ℕ) × (draws init k s ≡ ok (lagged lag k q, s'))
        × IsQueue init lag s' q'
  unfolding draws lagged
  draws-lagged lag zero s q h = (s, q, refl, h)
  draws-lagged lag (suc k) s q h =
      let (runs, next) = random-advances lag s q h in
      let (s', q', rest, last) =
        draws-lagged lag k (behind s (newest lag q)) (advanced lag q) next in
      (s', q', ground (arith, runs, rest), last)
