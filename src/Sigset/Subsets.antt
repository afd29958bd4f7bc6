-- ===== src/Sigset/Subsets.antt =====
-- The words of crates/mytilus-signal/src/sigset.rs as subsets of the signals 1 to 64: the isomorphism,
-- and the functions on both sides.
use std.Equiv.{Iso, iso_to_equiv}
use std.Univalence.{ua, ua-β, ua-glue_op₂}
use std.Path.{transport}
use mathlib.Core.Path.{PathP, fun_ext}
use mathlib.Core.HLevel.{Σ_prop_path}
use native.Mathlib.Bridge.{le_prop}
use mytilus.Base.{
  sym, ◌∙◌, ℕ, ◌+◌, ◌-◌, ◌^◌, ◌<◌, ◌≡◌, Bool, ◌==◌, ◌||◌, ◌&&◌, not, test_bit-lt, arith, ap, min,
  max,
}
use mytilus.Sigset.{sigismember, sigorset, sigandset, sigaddset, sigdelset}
use mytilus.Sigset.Words.{
  word_of, word_of-bound, test_bit-word_of, same_bits, or_bound, and_bound, sigaddset-bound,
  sigdelset-bound,
}
use mytilus.Sigset.Members.{
  IsSignal, IsFree, sigismember-eq, sigset_members, sigaddset-inserts, sigdelset-removes,
}
pub mod Calls

-- The words that a set may hold, and the signals.
abbrev pub SetWord : Type 0
SetWord = (w : ℕ) × (w < 2 ^ 64)

abbrev pub Signal : Type 0
Signal = (k : ℕ) × IsSignal k

SetWord-ext : (v w : SetWord) → v.0 ≡ w.0 → v ≡ w
SetWord-ext v w h = Σ_prop_path (λ n. le_prop) h

-- The signals that sigismember finds in a word.
abbrev pub members : SetWord → Signal → Bool
members w s = sigismember w.0 s.0 == 1

-- The signal of bit k, for k up to 63.
pub nth_signal : ℕ → Signal
nth_signal k = (min k 63 + 1, (omega arith, omega arith))

pub nth_signal-eq : (s : Signal) → nth_signal (s.0 - 1) ≡ s
unfolding nth_signal
nth_signal-eq (k, s) = Σ_prop_path (λ n. hlevel le_prop) (omega (arith, s))

-- The set of the signals of a subset.
set_of : (Signal → Bool) → SetWord
set_of f = (word_of 64 (λ k. f (nth_signal k)), word_of-bound 64 (λ k. f (nth_signal k)))

members-set_of : (f : Signal → Bool) → members (set_of f) ≡ f
unfolding set_of
members-set_of f = fun_ext (λ s.
    let bit = test_bit-word_of 64 (s.0 - 1) (λ k. f (nth_signal k)) (omega (arith, s.1)) in
    let found = sigismember-eq (set_of f).0 s.0 s.1 in
    ground (arith, found, bit, ap f (nth_signal-eq s)))

set_of-members : (w : SetWord) → set_of (members w) ≡ w
unfolding set_of nth_signal
set_of-members w = SetWord-ext (set_of (members w)) w (
    same_bits 64 (set_of (members w)).0 w.0 (set_of (members w)).1 w.1 (λ k l.
      let bit = test_bit-word_of 64 k (λ k. members w (nth_signal k)) l in
      let e : (nth_signal k).0 ≡ k + 1 = omega (arith, l) in
      let found = sigismember-eq w.0 (nth_signal k).0 (nth_signal k).1 in
      let small = test_bit-lt w.0 k in ground (arith, bit, found, e, small)))

-- Words with the same members are equal.
pub same_members : (v w : SetWord) → members v ≡ members w → v ≡ w
same_members v w h = sym (set_of-members v) ∙ ap set_of h ∙ set_of-members w

set_iso : Iso SetWord (Signal → Bool)
set_iso = record { fun = members; inv = set_of; rinv = members-set_of; linv = set_of-members }

pub set_path : SetWord ≡ (Signal → Bool)
set_path = ua (iso_to_equiv set_iso)

-- What the functions make of words.
abbrev pub insert : ℕ → SetWord → ℕ → SetWord
insert errno w sig = ((sigaddset errno w.0 sig).bits, sigaddset-bound errno w.0 sig w.1)

abbrev pub remove : ℕ → SetWord → ℕ → SetWord
remove errno w sig = ((sigdelset errno w.0 sig).bits, sigdelset-bound errno w.0 sig w.1)

abbrev pub union : SetWord → SetWord → SetWord
unfolding sigorset
union v w = ((sigorset v.0 w.0).1, or_bound 64 v.0 w.0 v.1 w.1)

abbrev pub intersection : SetWord → SetWord → SetWord
unfolding sigandset
intersection v w = ((sigandset v.0 w.0).1, and_bound 64 v.0 w.0 v.1 w.1)

one_of : (a b c : ℕ) → a < 2 → b < 2 → c ≡ max a b → (c == 1) ≡ (a == 1 || b == 1)
one_of a b c la lb e = ground arith

both_of : (a b c : ℕ) → a < 2 → b < 2 → c ≡ min a b → (c == 1) ≡ (a == 1 && b == 1)
both_of a b c la lb e = ground arith

pub sigismember-bit : (w : SetWord) (s : Signal) → sigismember w.0 s.0 < 2
sigismember-bit w s = rw (sigismember-eq w.0 s.0 s.1) (test_bit-lt w.0 (s.0 - 1))

pub members-union : (v w : SetWord) → members (union v w) ≡ (λ s. members v s || members w s)
unfolding union sigorset
members-union v w = fun_ext (λ s.
    let (filled, empty, either, both) = sigset_members v.0 w.0 s.0 s.1 in
    one_of (sigismember v.0 s.0) (sigismember w.0 s.0) (sigismember (sigorset v.0 w.0).1 s.0)
      (sigismember-bit v s) (sigismember-bit w s) either)

pub members-intersection :
    (v w : SetWord) → members (intersection v w) ≡ (λ s. members v s && members w s)
unfolding intersection sigandset
members-intersection v w = fun_ext (λ s.
    let (filled, empty, either, both) = sigset_members v.0 w.0 s.0 s.1 in
    both_of (sigismember v.0 s.0) (sigismember w.0 s.0) (sigismember (sigandset v.0 w.0).1 s.0)
      (sigismember-bit v s) (sigismember-bit w s) both)

pub members-insert :
    (errno sig : ℕ)
    → IsFree sig
    → (w : SetWord) → members (insert errno w sig) ≡ (λ s. s.0 == sig || members w s)
members-insert errno sig free w =
    fun_ext (λ s. let e = (sigaddset-inserts errno w.0 sig free).2 s.0 s.1 in ground (arith, e))

pub members-remove :
    (errno sig : ℕ)
    → IsFree sig
    → (w : SetWord) → members (remove errno w sig) ≡ (λ s. not (s.0 == sig) && members w s)
members-remove errno sig free w =
    fun_ext (λ s. let e = (sigdelset-removes errno w.0 sig free).2 s.0 s.1 in ground (arith, e))

-- The words below 2 ^ 64 and the subsets of the signals 1 to 64 are the same type: along that
-- equation a word becomes the set of the signals that sigismember finds in it, sigorset becomes the
-- union, sigandset the intersection, and sigaddset and sigdelset of a signal that is free for the
-- program become the insertion and the removal of this signal.
pub words_are_subsets :
    (errno sig : ℕ)
    → IsFree sig
    → ((w : SetWord) → transport set_path w ≡ members w)
      × PathP (λ i. set_path i → set_path i → set_path i) union (λ f g s. f s || g s)
      × PathP (λ i. set_path i → set_path i → set_path i) intersection (λ f g s. f s && g s)
      × PathP (λ i. set_path i → set_path i) (λ w. insert errno w sig) (λ f s. s.0 == sig || f s)
      × PathP
          (λ i. set_path i → set_path i)
          (λ w. remove errno w sig)
          (λ f s. not (s.0 == sig) && f s)
unfolding set_path set_iso
words_are_subsets errno sig free =
    let e = iso_to_equiv set_iso in
    let inserting =
      ua-glue_op₂ e {f = λ v w. insert errno v sig} {g = λ f g s. s.0 == sig || f s}
        (λ v w. members-insert errno sig free v) in
    let removing =
      ua-glue_op₂ e {f = λ v w. remove errno v sig} {g = λ f g s. not (s.0 == sig) && f s}
        (λ v w. members-remove errno sig free v) in
    (
      ua-β e,
      ua-glue_op₂ e members-union,
      ua-glue_op₂ e members-intersection,
      λ i w. inserting i w w,
      λ i w. removing i w w,
    )
