-- ===== src/Prng/Random/Threads/Returns.antt =====
-- random and srandom under the lock: every call returns and leaves usable statics.
use mytilus.Base.{
  ℕ, ◌+◌, ◌-◌, ◌≤◌, ◌≡◌, ◌⊎◌, List, [], ◌∷◌, Option, none, some, map, arith, refl, ap, ◌∙◌,
}
use mytilus.Memory.{ok, ◌>>=◌}
use mytilus.Prng.Random.{Random, unlock}
use mytilus.Prng.Random.State.{IsTable, base_of, random_locked_lem}
use mytilus.Prng.Random.Seed.{srandom_locked_lem}
use mytilus.Prng.Random.Spin.Keeping.{lock-takes, unlock-frees}
use mytilus.Prng.Random.Threads.{
  Op, drawing, seeding, switching, Phase, outside, locked, finished, Event, inner, perform, in_turn,
}
use mytilus.Prng.Random.Threads.Calls.{with_lock, unlocked, perform_lem}
use mytilus.Prng.Random.Threads.Serial.{add}

-- A call of random or srandom; a call of setstate is none.
abbrev pub IsPlain : Op → Type 0
IsPlain drawing = Unit {0}
IsPlain (seeding seed) = Unit {0}
IsPlain (switching state) = ⊥

-- A thread that is outside or in such a call.
abbrev pub IsPlainPhase : Phase → Type 0
IsPlainPhase outside = Unit {0}
IsPlainPhase (locked c) = IsPlain c
IsPlainPhase (finished c r) = IsPlain c

-- Only such calls have returned.
abbrev pub IsPlainLog : List Event → Type 0
IsPlainLog [] = Unit {0}
IsPlainLog (e ∷ es) = IsPlain e.op × IsPlainLog es

module _ (init : ℕ) where
  -- A table of one word or of at least four.
  abbrev pub IsUsable : Random → Type 0
  IsUsable s = IsTable init s × ((s.n ≡ 0) ⊎ (4 ≤ s.n))

  pub relocked : (s : Random) (k : ℕ) → IsUsable s → IsUsable (record s { lock = k })
  relocked s k (v, shape) = (
    record {
      small = v.small;
      i_small = v.i_small;
      j_small = v.j_small;
      i_inside = v.i_inside;
      j_inside = v.j_inside;
      above = v.above;
      mapped = v.mapped;
    },
    shape,
  )

  pub unlock-IsUsable : (s : Random) → IsUsable s → IsUsable (unlock s)
  unfolding unlock
  unlock-IsUsable s h = relocked s 0 h

  pub inner-returns :
      (c : Op) (s : Random)
      → IsPlain c
      → IsUsable s
      → (r : Option ℕ) × (s' : Random) × (inner init c s ≡ ok (r, s')) × IsUsable s'
  unfolding inner
  inner-returns drawing s plain (v, shape) =
      let b = base_of init s.x in
      let (r, mem, i, j, runs, small, ki, kj, hi, hj, mapped, kept) = random_locked_lem init s v in
      let moved : b + 1 - 1 ≡ b = omega arith in
      (
        some r,
        record s { x = some (b + 1); i = i; j = j; mem = mem },
        ap (λ q. q >>= λ a. ok (some a.0, a.1)) runs,
        (
          record {
            small = v.small;
            i_small = ki;
            j_small = kj;
            i_inside = hi;
            j_inside = hj;
            above = λ e. ground arith;
            mapped = rw moved mapped;
          },
          shape,
        ),
      )
  inner-returns (seeding seed) s plain (v, shape) =
      let b = base_of init s.x in
      let (mem, i, j, runs, ki, kj, hi, hj, mapped, kept) =
        srandom_locked_lem init s seed v.above shape v.i_small v.j_small v.mapped in
      let moved : b + 1 - 1 ≡ b = omega arith in
      (
        none,
        record s { x = some (b + 1); i = i; j = j; mem = mem },
        ap (λ q. q >>= λ u. ok (none, u)) runs,
        (
          record {
            small = v.small;
            i_small = ki;
            j_small = kj;
            i_inside = hi;
            j_inside = hj;
            above = λ e. ground arith;
            mapped = rw moved mapped;
          },
          shape,
        ),
      )
  inner-returns (switching state) s plain h = absurd plain

  perform-returns :
      (c : Op) (s : Random)
      → IsPlain c
      → s.lock ≡ 0
      → IsUsable s
      → (r : Option ℕ) × (s' : Random) × (perform init c s ≡ ok (r, s'))
        × (s'.lock ≡ 0)
        × IsUsable s'
  perform-returns c s plain free h =
      let (r, s', runs, h') = inner-returns c (with_lock s) plain (relocked s 1 h) in
      (
        r,
        unlock s',
        perform_lem init c s (with_lock s) (lock-takes s free) ∙ ap (λ q. q >>= unlocked) runs,
        unlock-frees s',
        unlock-IsUsable s' h',
      )

  pub in_turn-returns :
      (start : Random) (log : List Event)
      → IsPlainLog log
      → start.lock ≡ 0
      → IsUsable start
      → (rs : List (Option ℕ)) × (s : Random) × (in_turn init (map (λ e. e.op) log) start
          ≡ ok (rs, s))
        × (s.lock ≡ 0)
        × IsUsable s
  unfolding in_turn
  in_turn-returns start [] plain free h = ([], start, refl, free, h)
  in_turn-returns start (e ∷ es) (plain, plains) free h =
      let (rs, s, before, free', h') = in_turn-returns start es plains free h in
      let (r, s', call, free'', h'') = perform-returns e.op s plain free' h' in
      (
        r ∷ rs,
        s',
        ap (λ q. q >>= λ a. perform init e.op a.1 >>= add a.0) before ∙ ap (λ q. q >>= add rs) call,
        free'',
        h'',
      )
