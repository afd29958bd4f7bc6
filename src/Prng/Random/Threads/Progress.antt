-- ===== src/Prng/Random/Threads/Progress.antt =====
-- Threads that call random and srandom: a call that a thread begins can return.
use mytilus.Base.{
  ℕ, ◌≤◌, ◌≡◌, ◌⊎◌, List, ◌∷◌, Option, map, put, arith, refl, ap, sym, subst, ◌∙◌, put_at,
}
use mytilus.Memory.{ok}
use mytilus.Prng.Random.{Random, unlock}
use mytilus.Prng.Random.State.{IsReady}
use mytilus.Prng.Random.Spin.Keeping.{lock-takes, unlock-frees}
use mytilus.Prng.Random.Threads.{
  Op, outside, locked, finished, Event, World, in_turn, enter, work, leave, Reach, here, next,
}
use mytilus.Prng.Random.Threads.Calls.{with_lock}
use mytilus.Prng.Random.Threads.Serial.{
  beginning, Situation, empty, entered, worked, Inv, Reach-Inv, put-Alone, all-put, ok_value,
}
use mytilus.Prng.Random.Threads.Returns.{
  IsPlain, IsPlainPhase, IsPlainLog, IsUsable, relocked, unlock-IsUsable, inner-returns,
  in_turn-returns,
}

module _ (init : ℕ) where
  -- A thread outside, with the lock free: it takes the lock, works and leaves.
  free-returns :
      (w : World) (t : ℕ) (c : Op)
      → IsPlain c
      → w.statics.lock ≡ 0
      → IsUsable init w.statics
      → w.phase t ≡ outside
      → (v : World) × (r : Option ℕ) × Reach init w v
        × (v.log ≡ record { thread = t; op = c; result = r } ∷ w.log)
        × (v.statics.lock ≡ 0)
  free-returns w t c plain free h out =
      let (r, s', runs, h') =
        inner-returns init c (with_lock w.statics) plain (relocked init w.statics 1 h) in
      let w1 : World = record w {
        statics = with_lock w.statics;
        phase = put w.phase t (locked c);
      } in
      let w2 : World = record w1 { statics = s'; phase = put w1.phase t (finished c r) } in
      (
        record {
          statics = unlock s';
          phase = put w2.phase t outside;
          log = record { thread = t; op = c; result = r } ∷ w.log;
        },
        r,
        next
            (next (next here (enter w t c w1.statics out (lock-takes w.statics free)))
              (work w1 t c r s' (put_at w.phase t (locked c)) runs))
            (leave w2 t c r (put_at w1.phase t (finished c r))),
        refl,
        unlock-frees s',
      )

  Reach-trans : {u v w : World} → Reach init u v → Reach init v w → Reach init u w
  Reach-trans a here = a
  Reach-trans a (next b s) = next (Reach-trans a b) s

  -- The statics behind the calls that have returned.
  serial-IsUsable :
      (start : Random) (log : List Event) (s : Random)
      → IsPlainLog log
      → start.lock ≡ 0
      → IsUsable init start
      → in_turn init (map (λ e. e.op) log) start ≡ ok (map (λ e. e.result) log, s)
      → IsUsable init s
  serial-IsUsable start log s plain free h e =
      let (rs, s', runs, _, h') = in_turn-returns init start log plain free h in
      let same = ap (λ a. a.1) (ok_value (rs, s') (map (λ e. e.result) log, s) (sym runs ∙ e)) in
      subst (IsUsable init) same h'

  -- Where one thread is in a call, it works if it has not, and leaves, so that all are outside.
  clears :
      (w : World) (s : Random)
      → s.lock ≡ 0
      → IsUsable init s
      → ((u : ℕ) → IsPlainPhase (w.phase u))
      → Situation init s w
      → (v : World) × Reach init w v
        × (v.statics.lock ≡ 0)
        × IsUsable init v.statics
        × ((u : ℕ) → v.phase u ≡ outside)
  clears w s free h plain (empty all e) =
      (w, here, ap (λ q. q.lock) e ∙ free, subst (IsUsable init) (sym e) h, all)
  clears w s free h plain (entered u c at alone e) =
      let usable : IsUsable init w.statics = subst (IsUsable init) (sym e) (relocked init s 1 h) in
      let (r, s', runs, h') =
        inner-returns init c w.statics (subst IsPlainPhase at (plain u)) usable in
      let w1 : World = record w { statics = s'; phase = put w.phase u (finished c r) } in
      (
        record {
          statics = unlock s';
          phase = put w1.phase u outside;
          log = record { thread = u; op = c; result = r } ∷ w.log;
        },
        next (next here (work w u c r s' at runs))
            (leave w1 u c r (put_at w.phase u (finished c r))),
        unlock-frees s',
        unlock-IsUsable init s' h',
        all-put w1.phase u u refl (put-Alone w.phase u u (finished c r) refl alone),
      )
  clears w s free h plain (worked u c r at alone taken e) =
      let (r', s', runs, h') =
        inner-returns init c (with_lock s) (subst IsPlainPhase at (plain u))
          (relocked init s 1 h) in
      let same = ap (λ a. a.1) (ok_value (r', s') (r, w.statics) (sym runs ∙ e)) in
      (
        record {
          statics = unlock w.statics;
          phase = put w.phase u outside;
          log = record { thread = u; op = c; result = r } ∷ w.log;
        },
        next here (leave w u c r at),
        unlock-frees w.statics,
        unlock-IsUsable init w.statics (subst (IsUsable init) same h'),
        all-put w.phase u u refl alone,
      )

  left-eq : (s : Random) (w : World) → Situation init s w → w.statics.lock ≡ 0 → w.statics ≡ s
  left-eq s w (empty all e) free = e
  left-eq s w (entered t c at alone e) free = absurd (omega (arith, free, ap (λ q. q.lock) e))
  left-eq s w (worked t c r at alone taken e) free = absurd (omega (arith, free, taken))

  -- From a ready state whose table is one word or at least four, after any interleaving of threads in
  -- which the calls that have returned and those that threads are in are calls of random and srandom:
  -- for every thread and every such call, further steps lead to a state in which this call by this
  -- thread is the last that has returned and the lock is free. The functions random and srandom,
  -- called one after the other as the calls have returned, give the results of all of them and the
  -- statics of this state.
  pub call_returns :
      (start : Random) (w : World)
      → IsReady init start
      → (start.n ≡ 0) ⊎ (4 ≤ start.n)
      → Reach init (beginning start) w
      → IsPlainLog w.log
      → ((u : ℕ) → IsPlainPhase (w.phase u))
      → (t : ℕ) (c : Op) → IsPlain c
      → (v : World) × (r : Option ℕ) × (earlier : List Event) × Reach init w v
        × (v.log ≡ record { thread = t; op = c; result = r } ∷ earlier)
        × (v.statics.lock ≡ 0)
        × (in_turn init (map (λ e. e.op) v.log) start ≡ ok (map (λ e. e.result) v.log, v.statics))
  unfolding in_turn
  call_returns start w (free, table) shape reach plain plains t c plain_c =
      let initial : Inv init start (beginning start) =
        (start, (free, refl), empty (λ u. refl) refl) in
      let (s, serial, at) = Reach-Inv init start initial reach in
      let usable = serial-IsUsable start w.log s plain free (table, shape) serial.1 in
      let (w1, cleared, free1, usable1, all) = clears w s serial.0 usable plains at in
      let (v, r, returned, logged, free2) = free-returns w1 t c plain_c free1 usable1 (all t) in
      let (s', serial', at') =
        Reach-Inv init start initial (Reach-trans reach (Reach-trans cleared returned)) in
      let same = left-eq s' v at' free2 in
      (
        v,
        r,
        w1.log,
        Reach-trans cleared returned,
        logged,
        free2,
        serial'.1 ∙ ap (λ q. ok (map (λ e. e.result) v.log, q)) (sym same),
      )
