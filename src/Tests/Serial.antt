-- ===== src/Tests/Serial.antt =====
-- The theorems on threads that call random: one draws while another one spins.
use mytilus.Base.{
  Bool, true, false, if◌then◌else◌, ◌==◌, inr, Option, List, map, ℕ, ◌≡◌, none, some, [], ◌∷◌, put,
  arith, refl,
}
use mytilus.Memory.{ok, update}
use mytilus.Prng.Random.{Random, unlock, x_ptr, random_locked}
use mytilus.Prng.Random.Spin.Keeping.{lock-takes, lock-spins}
use mytilus.Prng.Random.Threads.{
  Event, seeding, drawing, outside, locked, finished, World, inner, in_turn, enter, spin, work,
  leave, Reach, here, next,
}
use mytilus.Prng.Random.State.{IsReady}
use mytilus.Prng.Random.Threads.Returns.{IsPlainPhase}
use mytilus.Prng.Random.Threads.Progress.{call_returns}
use mytilus.Prng.Random.Threads.Serial.{beginning, threads_in_turn}

abbrev table : Random
table = record { lock = 0; n = 31; i = 3; j = 0; x = none; mem = λ q. some q }

abbrev advanced : Random
advanced = record { lock = 1; n = 31; i = 4; j = 1; x = some 101; mem = update table.mem 104 205 }

abbrev entered : World
entered = record {
  statics = record table { lock = 1 };
  phase = put (λ u. outside) 7 (locked drawing);
  log = [];
}

abbrev worked : World
worked = record {
  statics = advanced;
  phase = put entered.phase 7 (finished drawing (some 102));
  log = [];
}

abbrev returned : World
returned = record {
  statics = unlock advanced;
  phase = put worked.phase 7 outside;
  log = record { thread = 7; op = drawing; result = some 102 } ∷ [];
}

draws : inner 100 drawing entered.statics ≡ ok (some 102, advanced)
unfolding inner random_locked x_ptr
draws = refl

one_call : Reach 100 (beginning table) returned
one_call =
    next
      (next
        (next
          (next here
            (enter (beginning table) 7 drawing entered.statics refl (lock-takes table refl)))
          (spin entered 8 refl (lock-spins entered.statics (λ e. omega (arith, e)))))
        (work entered 7 drawing (some 102) advanced refl draws))
      (leave worked 7 drawing (some 102) refl)

threads_in_turn_example :
    (s : Random) × (in_turn 100 (drawing ∷ []) table ≡ ok (some 102 ∷ [], s))
    × (((u : ℕ) → returned.phase u ≡ outside) → returned.statics ≡ s)
threads_in_turn_example = threads_in_turn 100 table returned refl one_call

table-IsReady : IsReady 100 table
table-IsReady = (
  refl,
  record {
    small = omega arith;
    i_small = omega arith;
    j_small = omega arith;
    i_inside = inr (omega arith);
    j_inside = inr (omega arith);
    above = λ e. ground (arith, e);
    mapped = λ i l. (_, refl);
  },
)

-- Thread 7 is behind the lock.
on_the_way : Reach 100 (beginning table) entered
on_the_way =
    next here (enter (beginning table) 7 drawing entered.statics refl (lock-takes table refl))

entered-IsPlainPhase : (u : ℕ) → IsPlainPhase (entered.phase u)
entered-IsPlainPhase u =
    let either : (b : Bool) → IsPlainPhase (if b then locked drawing else outside) = λ b.
      elim b as (λ c. IsPlainPhase (if c then locked drawing else outside)) [
        | true ↦ tt
        | false ↦ tt
      ] in
    either (7 == u)

call_returns_example :
    (v : World) × (r : Option ℕ) × (earlier : List Event) × Reach 100 entered v
    × (v.log ≡ record { thread = 8; op = seeding 5; result = r } ∷ earlier)
    × (v.statics.lock ≡ 0)
    × (in_turn 100 (map (λ e. e.op) v.log) table ≡ ok (map (λ e. e.result) v.log, v.statics))
call_returns_example =
    call_returns 100 table entered table-IsReady (inr (omega arith)) on_the_way tt
      entered-IsPlainPhase 8 (seeding 5) tt
