-- ===== src/Prng/Random/Seed.antt =====
-- srandom_locked and initstate fill the buffer of the caller, and leave a ready state.
use mytilus.Base.{
  ℕ, zero, suc, ◌+◌, ◌-◌, ◌/◌, ◌^◌, ◌<◌, ◌≤◌, ◌≡◌, ◌≢◌, ◌⊎◌, inl, inr, ◌||◌, ◌==◌, if◌then◌else◌,
  some, bit_or, arith, refl, Bool-cases,
}
use mytilus.Memory.{Mem, ok, update, IsMapped}
use mytilus.Prng.Lcg.{lcg64}
use mytilus.Prng.Random.{
  Random, header, lock, unlock, savestate, seed_words, words_of_size, srandom_locked, initstate,
}
use mytilus.Prng.Random.State.{words, base_of, IsReady, IsMapped-update, x_ptr-eq, word_at}
use mytilus.Prng.Random.Switch.{savestate-eq}

-- Only the words b .. b + n may differ.
abbrev pub KeepsOutside : Mem → Mem → ℕ → ℕ → Type 0
KeepsOutside m m' b n = (q : ℕ) → (q < b) ⊎ (b + n < q) → m' q ≡ m q

seed_words-IsMapped :
    (left k n b s : ℕ) (m : Mem)
    → k + left ≡ n
    → IsMapped m b (n + 1)
    → (m' : Mem) × (seed_words m (b + 1) s left k ≡ ok m')
      × IsMapped m' b (n + 1)
      × KeepsOutside m m' b n
unfolding seed_words
seed_words-IsMapped zero k n b s m e h = (m, refl, h, λ q p. refl)
seed_words-IsMapped (suc left) k n b s m e h =
    let v = lcg64 s / 2 ^ 32 in
    let (w, at) = word_at m b k n h (omega arith) in
    let (m', runs, mapped, kept) =
      seed_words-IsMapped left (k + 1) n b (lcg64 s) (update m (b + 1 + k) v) (omega arith)
        (IsMapped-update m b (n + 1) (b + 1 + k) v h) in
    (m', ground (arith, at, runs), mapped, λ q p. ground (arith, kept q))

module _ (init : ℕ) where
  pub srandom_locked_lem :
      (s : Random) (seed : ℕ)
      → s.x ≢ some 0
      → (s.n ≡ 0) ⊎ (4 ≤ s.n)
      → s.i < 64
      → s.j < 64
      → IsMapped s.mem (base_of init s.x) (words s.n + 1)
      → (mem : Mem) × (i j : ℕ) × (srandom_locked init seed s
          ≡ ok (record s { x = some (base_of init s.x + 1); i = i; j = j; mem = mem }))
        × (i < 64)
        × (j < 64)
        × ((s.n ≡ 0) ⊎ (i < s.n))
        × ((s.n ≡ 0) ⊎ (j < s.n))
        × IsMapped mem (base_of init s.x) (words s.n + 1)
        × KeepsOutside s.mem mem (base_of init s.x) (words s.n)
  unfolding srandom_locked
  srandom_locked_lem s seed above shape hi hj h =
      let b = base_of init s.x in
      let ptr = x_ptr-eq init s above in
      elim (Bool-cases (s.n == 0)) [
        | inl single ↦
            let (w, at) = h 1 (ground arith) in
            (
              update s.mem (b + 1) seed,
              s.i,
              s.j,
              ground (arith, ptr, at),
              hi,
              hj,
              ground arith,
              ground arith,
              IsMapped-update s.mem b _ (b + 1) seed h,
              λ q p. ground arith,
            )
        | inr table ↦
            let size : words s.n ≡ s.n = ground arith in
            let (mem, runs, mapped, kept) =
              seed_words-IsMapped s.n 0 (s.n) b seed s.mem (omega arith)
                (λ i l. h i (omega (arith, size))) in
            let (v, at) = mapped 1 (ground arith) in
            (
              update mem (b + 1) (bit_or v 1),
              if s.n == 31 || s.n == 7 then 3 else 1,
              0,
              ground (arith, ptr, runs, at),
              ground arith,
              omega arith,
              ground arith,
              ground arith,
              λ i l.
                  IsMapped-update mem b (s.n + 1) (b + 1) (bit_or v 1) mapped i
                    (omega (arith, size)),
              λ q p. ground (arith, kept q, size),
            )
      ]

  words_of_size_small :
      (size : ℕ) → (words_of_size size < 64) × ((words_of_size size ≡ 0) ⊎ (4 ≤ words_of_size size))
  unfolding words_of_size
  words_of_size_small size = (ground arith, ground arith)

  savestate-fresh :
      (n i j state k : ℕ) (m : Mem)
      → IsMapped m state (k + 1)
      → savestate init (record { lock = 1; n = n; i = i; j = j; x = some (state + 1); mem = m })
        ≡ ok (
          state,
          record {
            lock = 1;
            n = n;
            i = i;
            j = j;
            x = some (state + 1);
            mem = update m state (header n i j);
          },
        )
  savestate-fresh n i j state k m mapped =
      let back : state + 1 - 1 ≡ state = omega arith in
      let e : state + 0 ≡ state = omega arith in
      let (w, at) = mapped 0 (omega arith) in
      let above : some (state + 1) ≢ some 0 = λ e. ground arith in
      let saved =
        savestate-eq init (record { lock = 1; n = n; i = i; j = j; x = some (state + 1); mem = m })
          w above (rw back (rw e at at)) in
      rw back at saved

  srandom_locked_fresh :
      (n i j state seed : ℕ) (m : Mem)
      → (n ≡ 0) ⊎ (4 ≤ n)
      → i < 64
      → j < 64
      → IsMapped m state (words n + 1)
      → (mem : Mem) × (i' j' : ℕ) × (srandom_locked init seed
            (record { lock = 1; n = n; i = i; j = j; x = some (state + 1); mem = m })
          ≡ ok (record { lock = 1; n = n; i = i'; j = j'; x = some (state + 1); mem = mem }))
        × (i' < 64)
        × (j' < 64)
        × ((n ≡ 0) ⊎ (i' < n))
        × ((n ≡ 0) ⊎ (j' < n))
        × IsMapped mem state (words n + 1)
        × KeepsOutside m mem state (words n)
  srandom_locked_fresh n i j state seed m shape hi hj mapped =
      let back : state + 1 - 1 ≡ state = omega arith in
      let above : some (state + 1) ≢ some 0 = λ e. ground arith in
      let seeded =
        srandom_locked_lem (record { lock = 1; n = n; i = i; j = j; x = some (state + 1); mem = m })
          seed above shape hi hj (rw back mapped) in
      rw back at seeded

  -- The same with the words that the code counts for the buffer.
  pub initstate_lem :
      (s : Random) (seed state size : ℕ)
      → IsReady init s
      → 8 ≤ size
      → IsMapped s.mem state (words (words_of_size size) + 1)
      → (base_of init s.x < state) ⊎ (state + words (words_of_size size) < base_of init s.x)
      → (s' : Random) × (initstate init seed state size s ≡ ok (some (base_of init s.x), s'))
        × (s'.n ≡ words_of_size size)
        × (base_of init s'.x ≡ state)
        × (s'.mem (base_of init s.x) ≡ some (header s.n s.i s.j))
        × ((q : ℕ)
            → q ≢ base_of init s.x
            → (q < state) ⊎ (state + words (words_of_size size) < q)
            → s'.mem q ≡ s.mem q)
        × IsReady init s'
  unfolding initstate lock unlock
  initstate_lem s seed state size (free, v) big buffer apart =
      let b = base_of init s.x in
      let n = words_of_size size in
      let back : state + 1 - 1 ≡ state = omega arith in
      let (small, shape) = words_of_size_small size in
      let (w, at) = v.mapped 0 (omega arith) in
      let e0 : b + 0 ≡ b = omega arith in
      let saved = savestate-eq init (record s { lock = 1 }) w v.above (rw e0 at at) in
      let hdr = header s.n s.i s.j in
      let m1 = update s.mem b hdr in
      let above : some (state + 1) ≢ some 0 = λ e. ground arith in
      let mapped1 = IsMapped-update s.mem state (words n + 1) b hdr buffer in
      let (m2, i, j, runs, ki, kj, hi, hj, mapped2, kept) =
        srandom_locked_fresh n s.i s.j state seed m1 shape v.i_small v.j_small mapped1 in
      let again = savestate-fresh n i j state (words n) m2 mapped2 in
      (
        record s {
          lock = 0;
          n = n;
          x = some (state + 1);
          i = i;
          j = j;
          mem = update m2 state (header n i j);
        },
        ground (arith, saved, runs, again, back),
        refl,
        back,
        ground (arith, kept b),
        λ q ne out. ground (arith, kept q),
        (
          refl,
          record {
            small = small;
            i_small = ki;
            j_small = kj;
            i_inside = hi;
            j_inside = hj;
            above = above;
            mapped = rw back (IsMapped-update m2 state (words n + 1) state (header n i j) mapped2);
          },
        ),
      )
