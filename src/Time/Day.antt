-- ===== src/Time/Day.antt =====
-- gettimeofday and time: the clock as seconds and microseconds.
use mytilus.Base.{ℕ, ◌+◌, ◌/◌, ◌<◌, ◌≤◌, ◌≡◌, ◌⊎◌, inl, ◌∙◌, some, List, arith, refl, ap}
use mytilus.Sys.{Machine}
use mytilus.Time.{clock_realtime, clock_gettime, micros, gettimeofday}
use mytilus.Time.Words.{IsWordMemory}

module _ {K : Type 0} (svc : ℕ → List ℕ → K → ℕ × K) (peek : ℕ → K → ℕ) (poke : ℕ → ℕ → K → K)
    (memory : IsWordMemory peek poke) where
  micros_lem : (nsec : ℕ) → nsec < 1_000_000_000 → micros svc peek poke nsec ≡ nsec / 1_000
  micros_lem nsec l = ground arith

  -- The machine behind clock_gettime, which both functions call on a zeroed struct timespec at ts.
  abbrev pub asked : ℕ → Machine K → Machine K
  asked ts p =
      (clock_gettime svc clock_realtime ts
        (record p { kernel = poke (ts + 8) 0 (poke ts 0 p.kernel) })).1

  -- Where the clock leaves less than a second in the nanoseconds, gettimeofday returns 0 and puts the
  -- seconds and the microseconds of the clock at tv, whatever the kernel answered; tv does not
  -- overlap the local struct timespec.
  pub gettimeofday_lem :
      (ts tv : ℕ) (p : Machine K)
      → (ts + 16 ≤ tv) ⊎ (tv + 16 ≤ ts)
      → peek (ts + 8) (asked ts p).kernel < 1_000_000_000
      → (k : K) × (gettimeofday svc peek poke ts (some tv) p
          ≡ (0, record (asked ts p) { kernel = k }))
        × (peek tv k ≡ peek ts (asked ts p).kernel)
        × (peek (tv + 8) k ≡ peek (ts + 8) (asked ts p).kernel / 1_000)
  unfolding gettimeofday
  gettimeofday_lem ts tv p away l =
      let k0 = (asked ts p).kernel in
      let sec = peek ts k0 in
      let k1 = poke tv sec k0 in
      let nsec = peek (ts + 8) k1 in
      let same : nsec ≡ peek (ts + 8) k0 = memory.apart (ts + 8) tv sec k0 (ground (arith, away)) in
      let small : micros svc peek poke nsec ≡ nsec / 1_000 =
        micros_lem nsec (omega (arith, same, l)) in
      let us = micros svc peek poke nsec in
      let low = memory.word tv k1 in
      (
        poke (tv + 8) us k1,
        refl,
        memory.apart tv (tv + 8) us k1 (inl (omega arith))
            ∙ memory.written tv sec k0 (memory.word ts k0),
        memory.written (tv + 8) us k1 (omega (arith, small, same, l))
            ∙ small
            ∙ ap (λ n. n / 1_000) same,
      )
