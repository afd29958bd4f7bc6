-- ===== src/Sigset/Subsets/Calls.antt =====
-- The calls of a program on a signal set, crates/mytilus-signal/src/sigset.rs, and the same calls on a subset of the signals.
pub mod Replay
use mathlib.Core.Path.{fun_ext}
use mytilus.Base.{
  ℕ, ◌-◌, Bool-cases, ◌^◌, ◌<◌, ◌≡◌, Bool, true, false, ◌==◌, ◌||◌, ◌&&◌, not, if◌then◌else◌, leb,
  ltb, List, [], ◌∷◌, arith, refl, ap, sym, ◌∙◌,
}
use mytilus.Sys.{einval}
use mytilus.Sigset.{
  Answer, minus_one, sigemptyset, sigfillset, sigorset, sigandset, sigaddset, sigdelset,
  sigismember, validate_sig, signal_index,
}
use mytilus.Sigset.Members.{
  IsSignal, IsFree, IsRefused, refusal, signals_refused, sigaddset-inserts, sigdelset-removes,
  sigset_members,
}
use mytilus.Sigset.Subsets.{
  nth_signal, nth_signal-eq, SetWord, Signal, members, insert, remove, union, intersection,
  members-union, members-intersection, members-insert, members-remove, sigismember-bit,
}

-- The calls, with a signal as the 32-bit pattern of a c_int.
abbrev pub CInt : Type 0
CInt = (n : ℕ) × (n < 2 ^ 32)

pub data Call : Type 0 where
  empty : Call
  fill : Call
  add : CInt → Call
  delete : CInt → Call
  ask : CInt → Call
  join : SetWord → Call
  meet : SetWord → Call

-- The result of a call, errno and the set behind it.
pub record After (Set : Type 0) : Type 0 where
  pub result : ℕ
  pub errno : ℕ
  pub set : Set

pub call : Call → ℕ → SetWord → After SetWord
unfolding sigemptyset sigfillset
call empty e w = record {
  result = (sigemptyset w.0).0;
  errno = e;
  set = ((sigemptyset w.0).1, omega arith);
}
call fill e w = record {
  result = (sigfillset w.0).0;
  errno = e;
  set = ((sigfillset w.0).1, omega arith);
}
call (add sig) e w =
    let a = sigaddset e w.0 sig.0 in
    record { result = a.result; errno = a.errno; set = insert e w sig.0 }
call (delete sig) e w =
    let a = sigdelset e w.0 sig.0 in
    record { result = a.result; errno = a.errno; set = remove e w sig.0 }
call (ask sig) e w = record { result = sigismember w.0 sig.0; errno = e; set = w }
call (join v) e w = record { result = (sigorset w.0 v.0).0; errno = e; set = union w v }
call (meet v) e w = record { result = (sigandset w.0 v.0).0; errno = e; set = intersection w v }

-- The signals that a program may add and remove.
pub accepts : ℕ → Bool
accepts sig = ltb 0 sig && leb sig 64 && not (leb 32 sig && leb sig 34)

-- Whether a number is a signal of the subset, as 1 or 0.
pub answer : ℕ → (Signal → Bool) → ℕ
answer sig f = if ltb 0 sig && leb sig 64 && f (nth_signal (sig - 1)) then 1 else 0

-- The same calls on a subset of the signals.
pub spec : Call → ℕ → (Signal → Bool) → After (Signal → Bool)
spec empty e f = record { result = 0; errno = e; set = λ s. false }
spec fill e f = record { result = 0; errno = e; set = λ s. accepts s.0 }
spec (add sig) e f =
    if accepts sig.0
    then record { result = 0; errno = e; set = λ s. s.0 == sig.0 || f s }
    else record { result = minus_one; errno = einval; set = f }
spec (delete sig) e f =
    if accepts sig.0
    then record { result = 0; errno = e; set = λ s. not (s.0 == sig.0) && f s }
    else record { result = minus_one; errno = einval; set = f }
spec (ask sig) e f = record { result = answer sig.0 f; errno = e; set = f }
spec (join v) e f = record { result = 0; errno = e; set = λ s. f s || members v s }
spec (meet v) e f = record { result = 0; errno = e; set = λ s. f s && members v s }

-- The program: the results of its calls, the last errno and the last set.
pub record Trace (Set : Type 0) : Type 0 where
  pub results : List ℕ
  pub errno : ℕ
  pub set : Set

pub run : {S : Type 0} → (Call → ℕ → S → After S) → List Call → ℕ → S → Trace S
run step [] e s = record { results = []; errno = e; set = s }
run step (c ∷ cs) e s =
    let a = step c e s in
    let rest = run step cs a.errno a.set in
    record { results = a.result ∷ rest.results; errno = rest.errno; set = rest.set }
