-- ===== src/Sigset/Subsets/Calls/Replay.antt =====
-- The calls on a word of crates/mytilus-signal/src/sigset.rs, against the same calls on a subset.
use mathlib.Core.Path.{fun_ext}
use mytilus.Base.{
  ℕ, ◌-◌, inl, inr, Bool-cases, ◌≡◌, Bool, true, false, ◌==◌, ◌||◌, ◌&&◌, not, if◌then◌else◌, leb,
  ltb, List, [], ◌∷◌, arith, refl, ap, sym, ◌∙◌,
}
use mytilus.Sys.{einval}
use mytilus.Sigset.{
  Answer, minus_one, sigemptyset, sigfillset, sigorset, sigandset, sigaddset, sigdelset,
  sigismember, validate_sig, signal_index,
}
use mytilus.Sigset.Members.{
  IsSignal, IsFree, IsRefused, refusal, signals_refused, sigaddset-inserts, sigdelset-removes,
  sigset_members,
}
use mytilus.Sigset.Subsets.Calls.{
  Call, CInt, empty, fill, add, delete, ask, join, meet, After, call, answer, accepts, spec, Trace,
  run,
}
use mytilus.Sigset.Subsets.{
  nth_signal, nth_signal-eq, SetWord, Signal, members, union, intersection, members-union,
  members-intersection, members-insert, members-remove, sigismember-bit,
}

-- What sigismember shows of a word.
abbrev pub seen : After SetWord → After (Signal → Bool)
seen a = record { result = a.result; errno = a.errno; set = members a.set }

abbrev pub seen_trace : Trace SetWord → Trace (Signal → Bool)
seen_trace t = record { results = t.results; errno = t.errno; set = members t.set }

accepted : (sig : CInt) → accepts sig.0 ≡ true → IsFree sig.0
unfolding accepts
accepted (sig, small) h = ground (arith, h)

rejected : (sig : CInt) → accepts sig.0 ≡ false → IsRefused sig.0
unfolding accepts
rejected (sig, small) h = ground (arith, h)

After-path :
    {S : Type 0} (r r' e e' : ℕ) (s s' : S)
    → r ≡ r'
    → e ≡ e'
    → s ≡ s'
    → ◌≡◌ {A = After S}
        (record { result = r; errno = e; set = s })
        (record { result = r'; errno = e'; set = s' })
After-path r r' e e' s s' p q t = λ i. record { result = p i; errno = q i; set = t i }

-- The members of the set that an answer leaves.
abbrev left : Answer → Signal → Bool
left a s = sigismember a.bits s.0 == 1

-- A call that changes the set for the signals it accepts, and refuses the others.
change_refines :
    (accepting : Bool) (e : ℕ) (w : SetWord) (f : Signal → Bool) (a : Answer)
    → (accepting ≡ true → (a.result ≡ 0) × (a.errno ≡ e) × (left a ≡ f))
    → (accepting ≡ false → a ≡ refusal w.0)
    → ◌≡◌ {A = After (Signal → Bool)}
        (if accepting
          then record { result = 0; errno = e; set = f }
          else record { result = minus_one; errno = einval; set = members w })
        (record { result = a.result; errno = a.errno; set = left a })
change_refines true e w f a done refused =
    let (result, errno, inside) = done refl in
    After-path 0 a.result e a.errno f (left a) (sym result) (sym errno) (sym inside)
change_refines false e w f a done refused =
    let same = refused refl in
    After-path minus_one a.result einval a.errno (members w) (left a) (sym (ap Answer.result same))
      (sym (ap Answer.errno same)) (sym (ap left same))

filled : (w : SetWord) (s : Signal) → accepts s.0 ≡ (sigismember (sigfillset w.0).1 s.0 == 1)
unfolding accepts validate_sig signal_index
filled w (k, signal) =
    let found = (sigset_members w.0 w.0 k signal).0 in ground (arith, found, signal)

asked_signal : (sig : ℕ) (w : SetWord) → IsSignal sig → answer sig (members w) ≡ sigismember w.0 sig
unfolding answer
asked_signal sig w signal =
    let e = nth_signal-eq (sig, signal) in
    let found : members w (nth_signal (sig - 1)) ≡ (sigismember w.0 sig == 1) = ap (members w) e in
    let small = sigismember-bit w (sig, signal) in ground (arith, found, small, signal)

asked_other :
    (sig : CInt) (w : SetWord)
    → (ltb 0 sig.0 && leb sig.0 64) ≡ false
    → answer sig.0 (members w) ≡ sigismember w.0 sig.0
unfolding answer sigismember signal_index
asked_other (sig, small) w h = ground (arith, h)

asked : (sig : CInt) (w : SetWord) → answer sig.0 (members w) ≡ sigismember w.0 sig.0
asked sig w = elim (Bool-cases (ltb 0 sig.0 && leb sig.0 64)) [
  | inl h ↦ asked_signal sig.0 w (ground (arith, h))
  | inr h ↦ asked_other sig w h
]

call_refines : (c : Call) (e : ℕ) (w : SetWord) → spec c e (members w) ≡ seen (call c e w)
unfolding spec call sigorset sigandset
call_refines empty e w =
    After-path 0 0 e e (λ (s : Signal). false) (members ((sigemptyset w.0).1, omega arith)) refl
      refl (fun_ext (λ s. let found = (sigset_members w.0 w.0 s.0 s.1).1 in ground (arith, found)))
call_refines fill e w =
    After-path 0 0 e e (λ (s : Signal). accepts s.0) (members ((sigfillset w.0).1, omega arith))
      refl refl (fun_ext (filled w))
call_refines (add sig) e w =
    change_refines (accepts sig.0) e w (λ s. s.0 == sig.0 || members w s) (sigaddset e w.0 sig.0)
      (λ h.
        let free = accepted sig h in
        let (result, errno, inside) = sigaddset-inserts e w.0 sig.0 free in
        (result, errno, members-insert e sig.0 free w))
      (λ h. (signals_refused e w.0 sig.0 sig.1 (rejected sig h)).0)
call_refines (delete sig) e w =
    change_refines (accepts sig.0) e w (λ s. not (s.0 == sig.0) && members w s)
      (sigdelset e w.0 sig.0)
      (λ h.
        let free = accepted sig h in
        let (result, errno, inside) = sigdelset-removes e w.0 sig.0 free in
        (result, errno, members-remove e sig.0 free w))
      (λ h. (signals_refused e w.0 sig.0 sig.1 (rejected sig h)).1)
call_refines (ask sig) e w =
    After-path (answer sig.0 (members w)) (sigismember w.0 sig.0) e e (members w) (members w)
      (asked sig w) refl refl
call_refines (join v) e w =
    After-path 0 0 e e (λ (s : Signal). members w s || members v s) (members (union w v)) refl refl
      (sym (members-union w v))
call_refines (meet v) e w =
    After-path 0 0 e e (λ (s : Signal). members w s && members v s) (members (intersection w v))
      refl refl (sym (members-intersection w v))

-- Whatever of sigemptyset, sigfillset, sigaddset, sigdelset, sigismember, sigorset and sigandset a
-- program calls on a set, in any order, with any integer as the signal and any word as the other
-- set, the results, errno and the members of the set at the end are those of the same calls on a subset of the
-- signals 1 to 64, where adding and deleting refuse, with EINVAL, what is not a signal and the
-- signals 32 to 34, and asking is 0 for what is not a signal.
pub run_refines :
    (cs : List Call) (e : ℕ) (w : SetWord)
    → run spec cs e (members w) ≡ seen_trace (run call cs e w)
unfolding run
run_refines [] e w = refl
run_refines (c ∷ cs) e w =
    let onward : After (Signal → Bool) → Trace (Signal → Bool) = λ a.
      let rest = run spec cs a.errno a.set in
      record { results = a.result ∷ rest.results; errno = rest.errno; set = rest.set } in
    let before = call c e w in
    let front : Trace (Signal → Bool) → Trace (Signal → Bool) =
      λ t. record { results = before.result ∷ t.results; errno = t.errno; set = t.set } in
    ap onward (call_refines c e w) ∙ ap front (run_refines cs before.errno before.set)
