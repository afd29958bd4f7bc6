-- ===== src/Prng/Random/Threads/Serial.antt =====
-- What threads that call random, srandom and setstate get: the results of the same calls one after the other.
use mytilus.Base.{
  ℕ, ◌≡◌, ◌≢◌, inl, inr, ◌==◌, if◌then◌else◌, List, [], ◌∷◌, Option, none, map, put, arith, refl,
  ap, sym, ◌∙◌, Bool-cases, put_at, put_other,
}
use mytilus.Memory.{Run, ok, fault, out_of_fuel, ◌>>=◌}
use mytilus.Prng.Random.{Random, lock, unlock}
use mytilus.Prng.Random.Spin.Keeping.{Keeps-ok, lock-free, lock-takes, unlock-frees}
use mytilus.Prng.Random.Threads.{
  Op, Phase, outside, locked, finished, World, inner, perform, in_turn, Step, enter, spin, work,
  leave, Reach, here, next,
}
use mytilus.Prng.Random.Threads.Calls.{with_lock, unlocked, perform_lem, inner-lock}

-- The lock and the statics as they are, no thread in a call, and none returned.
abbrev pub beginning : Random → World
beginning s = record { statics = s; phase = λ u. outside; log = [] }

abbrev pub add : List (Option ℕ) → Option ℕ × Random → Run (List (Option ℕ) × Random)
add rs a = ok (a.0 ∷ rs, a.1)

pub ok_value : {A : Type 0} (a b : A) → ok a ≡ ok b → a ≡ b
ok_value a b e = ap (λ r. elim r [ ok v ↦ v | fault ↦ a | out_of_fuel ↦ a ]) e

-- Which of the three a phase is, and the call and the result in it.
abbrev kind : Phase → ℕ
kind outside = 0
kind (locked c) = 1
kind (finished c r) = 2

abbrev op_in : Op → Phase → Op
op_in d outside = d
op_in d (locked c) = c
op_in d (finished c r) = c

abbrev result_in : Phase → Option ℕ
result_in outside = none
result_in (locked c) = none
result_in (finished c r) = r

kinds_apart : (p q : Phase) → kind p ≢ kind q → p ≢ q
kinds_apart p q h e = h (ap kind e)

-- Every thread but one is outside.
abbrev pub Alone : ℕ → (ℕ → Phase) → Type 0
Alone t phase = (u : ℕ) → u ≢ t → phase u ≡ outside

the_one : (phase : ℕ → Phase) (t u : ℕ) → Alone u phase → phase t ≢ outside → t ≡ u
the_one phase t u alone inside = elim (Bool-cases (t == u)) [
  | inl e ↦ ground (arith, e)
  | inr e ↦ absurd (inside (alone t (λ h. ground (arith, e, h))))
]

pub put-Alone :
    (phase : ℕ → Phase) (t u : ℕ) (p : Phase) → t ≡ u → Alone u phase → Alone t (put phase t p)
put-Alone phase t u p e alone v h = put_other phase t p v h ∙ alone v (λ h'. h (h' ∙ sym e))

pub all-put :
    (phase : ℕ → Phase) (t u : ℕ)
    → t ≡ u
    → Alone u phase
    → (v : ℕ) → put phase t outside v ≡ outside
all-put phase t u e alone v = elim (Bool-cases (t == v)) [
  | inl same ↦ ap (λ b. if b then outside else phase v) same
  | inr other ↦ put-Alone phase t u outside e alone v (λ h. ground (arith, other, h))
]

module _ (init : ℕ) where
  -- Where the threads are when the calls that have returned have left the statics s: nobody is in a call, or
  -- one thread is and has not or has done its inner part.
  pub data Situation (s : Random) (w : World) : Type 0 where
    empty : ((u : ℕ) → w.phase u ≡ outside) → w.statics ≡ s → Situation s w
    entered :
        (t : ℕ) (c : Op)
        → w.phase t ≡ locked c
        → Alone t w.phase
        → w.statics ≡ with_lock s
        → Situation s w
    worked :
        (t : ℕ) (c : Op) (r : Option ℕ)
        → w.phase t ≡ finished c r
        → Alone t w.phase
        → w.statics.lock ≡ 1
        → inner init c (with_lock s) ≡ ok (r, w.statics)
        → Situation s w

  -- The calls that have returned, as calls one after the other from a start.
  abbrev pub IsSerial : Random → World → Random → Type 0
  IsSerial start w s =
      (s.lock ≡ 0)
      × (in_turn init (map (λ e. e.op) w.log) start ≡ ok (map (λ e. e.result) w.log, s))

  module _ (start : Random) where
    abbrev pub Inv : World → Type 0
    Inv w = (s : Random) × IsSerial start w s × Situation s w

    -- The call whose inner part is done, behind those that have returned.
    logged :
        (w : World) (c : Op) (r : Option ℕ) (s0 : Random)
        → IsSerial start w s0
        → inner init c (with_lock s0) ≡ ok (r, w.statics)
        → in_turn init (c ∷ map (λ e. e.op) w.log) start
          ≡ ok (r ∷ map (λ e. e.result) w.log, unlock w.statics)
    unfolding in_turn
    logged w c r s0 serial done =
        let call = perform_lem init c s0 (with_lock s0) (lock-takes s0 serial.0) in
        ap (λ b. b >>= λ a. perform init c a.1 >>= add a.0) serial.1
        ∙ ap (λ b. b >>= add (map (λ e. e.result) w.log)) (call ∙ ap (λ b. b >>= unlocked) done)

    entering :
        (w : World) (t : ℕ) (c : Op) (s s0 : Random)
        → lock w.statics ≡ ok s
        → IsSerial start w s0
        → Situation s0 w
        → Inv (record w { statics = s; phase = put w.phase t (locked c) })
    entering w t c s s0 e serial (empty all e0) =
        let taken : s ≡ with_lock s0 =
          ok_value s (with_lock s0) (sym e ∙ ap lock e0 ∙ lock-takes s0 serial.0) in
        (
          s0,
          serial,
          entered t c (put_at w.phase t (locked c))
              (λ v h. put_other w.phase t (locked c) v h ∙ all v) taken,
        )
    entering w t c s s0 e serial (entered u d at alone e0) =
        let free = (Keeps-ok _ _ _ (lock-free w.statics) e).0 in
        absurd (omega (arith, free, ap (λ v. v.lock) e0))
    entering w t c s s0 e serial (worked u d q at alone taken e0) =
        let free = (Keeps-ok _ _ _ (lock-free w.statics) e).0 in absurd (omega (arith, free, taken))

    working :
        (w : World) (t : ℕ) (c : Op) (r : Option ℕ) (s s0 : Random)
        → w.phase t ≡ locked c
        → inner init c w.statics ≡ ok (r, s)
        → IsSerial start w s0
        → Situation s0 w
        → Inv (record w { statics = s; phase = put w.phase t (finished c r) })
    working w t c r s s0 here' e serial (empty all e0) =
        absurd (kinds_apart outside (locked c) (λ h. omega (arith, h)) (sym (all t) ∙ here'))
    working w t c r s s0 here' e serial (entered u d at alone e0) =
        let inside : w.phase t ≢ outside =
          λ h. kinds_apart outside (locked c) (λ z. omega (arith, z)) (sym h ∙ here') in
        let same = the_one w.phase t u alone inside in
        let kept = Keeps-ok _ _ _ (inner-lock init c w.statics) e in
        (
          s0,
          serial,
          worked t c r (put_at w.phase t (finished c r))
              (put-Alone w.phase t u (finished c r) same alone) (kept ∙ ap (λ v. v.lock) e0)
              (ap (inner init c) (sym e0) ∙ e),
        )
    working w t c r s s0 here' e serial (worked u d q at alone taken e0) =
        let inside : w.phase t ≢ outside =
          λ h. kinds_apart outside (locked c) (λ z. omega (arith, z)) (sym h ∙ here') in
        let same = the_one w.phase t u alone inside in
        absurd (
          kinds_apart (locked c) (finished d q) (λ z. omega (arith, z))
            (sym here' ∙ ap w.phase same ∙ at))

    leaving :
        (w : World) (t : ℕ) (c : Op) (r : Option ℕ) (s0 : Random)
        → w.phase t ≡ finished c r
        → IsSerial start w s0
        → Situation s0 w
        → Inv (record {
          statics = unlock w.statics;
          phase = put w.phase t outside;
          log = record { thread = t; op = c; result = r } ∷ w.log;
        })
    leaving w t c r s0 here' serial (empty all e0) =
        absurd (kinds_apart outside (finished c r) (λ z. omega (arith, z)) (sym (all t) ∙ here'))
    leaving w t c r s0 here' serial (entered u d at alone e0) =
        let inside : w.phase t ≢ outside =
          λ h. kinds_apart outside (finished c r) (λ z. omega (arith, z)) (sym h ∙ here') in
        let same = the_one w.phase t u alone inside in
        absurd (
          kinds_apart (locked d) (finished c r) (λ z. omega (arith, z))
            (sym at ∙ sym (ap w.phase same) ∙ here'))
    leaving w t c r s0 here' serial (worked u d q at alone taken e0) =
        let inside : w.phase t ≢ outside =
          λ h. kinds_apart outside (finished c r) (λ z. omega (arith, z)) (sym h ∙ here') in
        let same = the_one w.phase t u alone inside in
        let phases : finished c r ≡ finished d q = sym here' ∙ ap w.phase same ∙ at in
        let done : inner init c (with_lock s0) ≡ ok (r, w.statics) =
          ap (λ o. inner init o (with_lock s0)) (ap (op_in c) phases)
          ∙ e0
          ∙ ap (λ z. ok (z, w.statics)) (sym (ap result_in phases)) in
        (
          unlock w.statics,
          (unlock-frees w.statics, logged w c r s0 serial done),
          empty (all-put w.phase t u same alone) refl,
        )

    Step-Inv : {w v : World} → Step init w v → Inv w → Inv v
    Step-Inv (enter w t c s out e) (s0, serial, at) = entering w t c s s0 e serial at
    Step-Inv (spin w t out e) h = h
    Step-Inv (work w t c r s at' e) (s0, serial, at) = working w t c r s s0 at' e serial at
    Step-Inv (leave w t c r at') (s0, serial, at) = leaving w t c r s0 at' serial at

    pub Reach-Inv : {w v : World} → Inv w → Reach init w v → Inv v
    Reach-Inv h here = h
    Reach-Inv h (next r s) = Step-Inv s (Reach-Inv h r)

  settled :
      (s : Random) (w : World) → Situation s w → ((u : ℕ) → w.phase u ≡ outside) → w.statics ≡ s
  settled s w (empty all e) out = e
  settled s w (entered t c at alone e) out =
      absurd (kinds_apart outside (locked c) (λ z. omega (arith, z)) (sym (out t) ∙ at))
  settled s w (worked t c r at alone taken e) out =
      absurd (kinds_apart outside (finished c r) (λ z. omega (arith, z)) (sym (out t) ∙ at))

  -- Where the lock starts free with all threads outside, then after any interleaving of threads that call random,
  -- srandom and setstate: the calls that have returned gave the results that the same calls give one after the
  -- other, in the order in which they returned, and where no thread is in a call the statics are those
  -- that these calls leave.
  pub threads_in_turn :
      (start : Random) (w : World)
      → start.lock ≡ 0
      → Reach init (beginning start) w
      → (s : Random) × (in_turn init (map (λ e. e.op) w.log) start
          ≡ ok (map (λ e. e.result) w.log, s))
        × (((u : ℕ) → w.phase u ≡ outside) → w.statics ≡ s)
  unfolding in_turn
  threads_in_turn start w free r =
      let (s, serial, at) = Reach-Inv start (start, (free, refl), empty (λ u. refl) refl) r in
      (s, serial.1, settled s w at)
