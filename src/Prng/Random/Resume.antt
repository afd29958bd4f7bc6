-- ===== src/Prng/Random/Resume.antt =====
-- crates/mytilus-prng/src/lib.rs: a program that draws from a second buffer for a while and goes back to the first one.
use mytilus.Base.{
  ℕ, zero, suc, ◌+◌, ◌-◌, ◌<◌, ◌≤◌, ◌≡◌, ◌⊎◌, Option, none, some, List, [], ◌∷◌, arith, refl, ap,
  ◌∙◌,
}
use mytilus.Memory.{Mem, Run, ok, fault, ◌>>=◌, update, IsMapped}
use mytilus.Prng.Random.{Random, header, words_of_size, initstate, setstate}
use mytilus.Prng.Random.Header.{header_fields}
use mytilus.Prng.Random.State.{words, base_of, IsReady, KeepsAround, random-IsReady}
use mytilus.Prng.Random.Switch.{loaded, setstate-eq}
use mytilus.Prng.Random.Seed.{initstate_lem}
use mytilus.Prng.Random.Lagged.{draws, lagged, wrap, IsQueue, draws-lagged}

-- initstate with a new buffer, k calls of random, setstate with the pointer that initstate returned, and j
-- calls of random: the results of these.
pub detour : ℕ → ℕ → ℕ → ℕ → ℕ → ℕ → Random → Run (List ℕ × Random)
detour init seed state size k j s = do
  (old, s1) ← initstate init seed state size s
  (vs, s2) ← draws init k s1
  p ← elim old [ none ↦ fault | some p ↦ ok p ]
  (left, s3) ← setstate init p s2
  draws init j s3

module _ (init : ℕ) where
  -- Calls of random write to the words of the table only.
  draws-KeepsAround :
      (k : ℕ) (s : Random)
      → IsReady init s
      → (vs : List ℕ) × (s' : Random) × (draws init k s ≡ ok (vs, s'))
        × (base_of init s'.x ≡ base_of init s.x)
        × (s'.n ≡ s.n)
        × IsReady init s'
        × KeepsAround s.mem s'.mem (base_of init s.x) (words s.n)
  unfolding draws
  draws-KeepsAround zero s ready = ([], s, refl, refl, refl, ready, λ q out. refl)
  draws-KeepsAround (suc k) s ready =
      let (v, s1, runs, small, size, base, ready1, kept1) = random-IsReady init s ready in
      let (vs, s2, rest, base2, size2, ready2, kept2) = draws-KeepsAround k s1 ready1 in
      let same_size : words s1.n ≡ words s.n = ap words size in
      (
        v ∷ vs,
        s2,
        ground (arith, runs, rest),
        base2 ∙ base,
        size2 ∙ size,
        ready2,
        λ q out. kept2 q (omega (arith, out, base, same_size)) ∙ kept1 q out,
      )

  mapped_again :
      (b n : ℕ) (m m' : Mem) (h : ℕ)
      → IsMapped m b (n + 1)
      → m' b ≡ some h
      → ((p : ℕ) → b < p → p ≤ b + n → m' p ≡ m p)
      → IsMapped m' b (n + 1)
  mapped_again b n m m' h old at same zero l = let e : b + 0 ≡ b = omega arith in (h, rw e at)
  mapped_again b n m m' h old at same (suc i) l =
      let (w, there) = old (suc i) l in (w, same (b + suc i) (omega arith) (omega arith) ∙ there)

  -- A state whose table, size and indices are those of s holds the queue of s.
  resumed-IsQueue :
      (lag : ℕ) (s : Random) (q : List ℕ) (mem : Mem) (h : ℕ)
      → IsQueue init lag s q
      → mem (base_of init s.x) ≡ some h
      → ((p : ℕ) → base_of init s.x < p → p ≤ base_of init s.x + words s.n → mem p ≡ s.mem p)
      → IsQueue init lag (record s { lock = 0; x = some (base_of init s.x + 1); mem = mem }) q
  resumed-IsQueue lag s q mem h v at same =
      let b = base_of init s.x in
      let back : b + 1 - 1 ≡ b = omega arith in
      let count : words s.n ≡ s.n = ground (arith, v.lag_inside) in
      record {
        free = refl;
        table = record {
          small = v.table.small;
          i_small = v.table.i_small;
          j_small = v.table.j_small;
          i_inside = v.table.i_inside;
          j_inside = v.table.j_inside;
          above = λ e. ground arith;
          mapped = rw back (mapped_again b (words s.n) s.mem mem h v.table.mapped at same);
        };
        size = v.size;
        lag_inside = v.lag_inside;
        front_inside = v.front_inside;
        back = v.back;
        held = λ t l.
            let inside : wrap s.n (s.i + t) < s.n = ground (arith, l, v.front_inside) in
            rw back (
              same (b + 1 + wrap s.n (s.i + t)) (omega arith) (omega (arith, count, inside))
              ∙ v.held t l);
      }

  -- Going back from another buffer, which left the table of s and its header alone.
  switches_back :
      (lag : ℕ) (s s2 : Random) (q : List ℕ)
      → IsQueue init lag s q
      → IsReady init s2
      → (base_of init s.x + words s.n < base_of init s2.x) ⊎ (base_of init s2.x < base_of init s.x)
      → s2.mem (base_of init s.x) ≡ some (header s.n s.i s.j)
      → ((p : ℕ) → base_of init s.x < p → p ≤ base_of init s.x + words s.n → s2.mem p ≡ s.mem p)
      → (p : ℕ) × (s3 : Random) × (setstate init (base_of init s.x) s2 ≡ ok (p, s3))
        × IsQueue init lag s3 q
  switches_back lag s s2 q v ready apart there same =
      let b = base_of init s.x in
      let H = header s.n s.i s.j in
      let (w, at0) = ready.1.mapped 0 (omega arith) in
      let start : base_of init s2.x + 0 ≡ base_of init s2.x = omega arith in
      let switched =
        setstate-eq init s2 b w H ready.0 ready.1.above (rw start at at0)
          (λ e. omega (arith, e, apart)) there in
      let mem3 = update s2.mem (base_of init s2.x) (header s2.n s2.i s2.j) in
      let fields =
        header_fields s.n s.i s.j (omega (arith, v.table.small)) (omega (arith, v.table.i_small))
          (omega (arith, v.table.j_small)) in
      let s3 : Random = record s { lock = 0; x = some (b + 1); mem = mem3 } in
      let restored : loaded init (record s2 { lock = 0; mem = mem3 }) b H ≡ s3 = λ i. record {
        lock = 0;
        n = fields.0 i;
        i = fields.1 i;
        j = fields.2 i;
        x = some (b + 1);
        mem = mem3;
      } in
      let queue =
        resumed-IsQueue lag s q mem3 H v (ground (arith, there, apart))
          (λ p low high. ground (arith, same p, apart)) in
      (base_of init s2.x, s3, switched ∙ ap (λ t. ok (base_of init s2.x, t)) restored, queue)

  detour-runs :
      (seed state size k j : ℕ) (s s1 s2 s3 : Random) (b p : ℕ) (vs : List ℕ)
      (r : Run (List ℕ × Random))
      → initstate init seed state size s ≡ ok (some b, s1)
      → draws init k s1 ≡ ok (vs, s2)
      → setstate init b s2 ≡ ok (p, s3)
      → draws init j s3 ≡ r
      → detour init seed state size k j s ≡ r
  unfolding detour
  detour-runs seed state size k j s s1 s2 s3 b p vs r starts between switched rest =
      let goes_on : Run (ℕ × Random) → Run (List ℕ × Random) =
        λ r. r >>= λ (left, t). draws init j t in
      let goes_back : Run (List ℕ × Random) → Run (List ℕ × Random) =
        λ r. r >>= λ (us, t). goes_on (setstate init b t) in
      let whole : Run (Option ℕ × Random) → Run (List ℕ × Random) = λ r. r >>= λ (old, t).
      draws init k t >>= λ (us, u).
      elim old [ none ↦ fault | some p ↦ ok p ] >>= λ p. goes_on (setstate init p u) in
      ap whole starts ∙ ap goes_back between ∙ ap goes_on switched ∙ rest

  -- From a state whose table holds the queue q: a program may give initstate another buffer of at
  -- least 8 bytes, whose words are mapped and do not overlap the buffer in use, call random k
  -- times, and go back by setstate with the pointer that initstate returned. All of this ends, and
  -- the next j calls of random then return what they would have returned without it: the next j
  -- results of the queue.
  pub detour-resumes :
      (lag seed state size k j : ℕ) (s : Random) (q : List ℕ)
      → IsQueue init lag s q
      → 8 ≤ size
      → IsMapped s.mem state (words (words_of_size size) + 1)
      → (base_of init s.x + words s.n < state)
        ⊎ (state + words (words_of_size size) < base_of init s.x)
      → (s' s'' : Random) × (detour init seed state size k j s ≡ ok (lagged lag j q, s'))
        × (draws init j s ≡ ok (lagged lag j q, s''))
  detour-resumes lag seed state size k j s q v big buffer apart =
      let b = base_of init s.x in
      let (s1, starts, size1, base1, saved, kept1, ready1) =
        initstate_lem init s seed state size (v.free, v.table) big buffer (omega (arith, apart)) in
      let (vs, s2, draws2, base2, size2, ready2, kept2) = draws-KeepsAround k s1 ready1 in
      let count : words s1.n ≡ words (words_of_size size) = ap words size1 in
      let place : base_of init s2.x ≡ state = base2 ∙ base1 in
      let there : s2.mem b ≡ some (header s.n s.i s.j) =
        kept2 b (omega (arith, apart, base1, count)) ∙ saved in
      let same : (p : ℕ) → b < p → p ≤ b + words s.n → s2.mem p ≡ s.mem p = λ p low high.
        kept2 p (omega (arith, apart, base1, count))
        ∙ kept1 p (λ e. omega (arith, e)) (omega (arith, apart)) in
      let (p, s3, switched, queue) =
        switches_back lag s s2 q v ready2 (omega (arith, apart, place)) there same in
      let (s', q', resumed, last) = draws-lagged init lag j s3 q queue in
      let (s'', q'', plain, last') = draws-lagged init lag j s q v in
      let runs =
        detour-runs seed state size k j s s1 s2 s3 b p vs (ok (lagged lag j q, s')) starts draws2
          switched resumed in
      (s', s'', runs, plain)
