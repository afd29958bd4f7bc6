-- ===== src/Sigset/Members.antt =====
-- A signal set as the set of its members: what each function of sigset.rs changes, seen through sigismember.
use native.Mathlib.Nat.{pow-suc, one-le-pow, pow-le-pow_right}
use mytilus.Base.{
  ℕ, zero, suc, ◌+◌, ◌-◌, ◌*◌, ◌/◌, ◌%◌, ◌^◌, ◌<◌, ◌≤◌, ◌≡◌, ◌⊎◌, ◌↔◌, ◌∙◌, inl, inr, Bool, true,
  false, ◌==◌, if◌then◌else◌, bit_and, bit_or, min, max, test_bit, test_bit-or, test_bit-and,
  test_bit-zero, test_bit-lt, test_bit-power, arith, refl, ap, sym, Bool-cases, bit_and-power,
  all_below, all_below_sound,
}
use mytilus.Sys.{einval}
use mytilus.Sigset.{
  Answer, minus_one, signal_index, bit_index, validate_sig, complement, sigemptyset, sigfillset,
  sigaddset, sigdelset, sigismember, sigorset, sigandset, sigisemptyset,
}

pub complement_bits :
    (n a k : ℕ) → a < 2 ^ n → k < n → test_bit (2 ^ n - 1 - a) k ≡ 1 - test_bit a k
unfolding test_bit
complement_bits zero a k small l = absurd (omega arith)
complement_bits (suc n) a zero small l = omega (arith, pow-suc 2 n)
complement_bits (suc n) a (suc k) small l =
    let half : (2 ^ suc n - 1 - a) / 2 ≡ 2 ^ n - 1 - a / 2 = omega (arith, pow-suc 2 n) in
    rw half (complement_bits n (a / 2) k (omega (arith, pow-suc 2 n)) (omega arith))

pub no_bits : (n a : ℕ) → a < 2 ^ n → ((k : ℕ) → k < n → test_bit a k ≡ 0) → a ≡ 0
unfolding test_bit
no_bits zero a small h = omega arith
no_bits (suc n) a small h =
    let rest = no_bits n (a / 2) (omega (arith, pow-suc 2 n)) (λ k l. h (suc k) (omega arith)) in
    omega (arith, rest, h 0 (omega arith))

-- The signals 1 .. 64.
abbrev pub IsSignal : ℕ → Type 0
IsSignal sig = (1 ≤ sig) × (sig ≤ 64)

-- The signals that a program may add and remove: 32, 33 and 34 belong to the library.
abbrev pub IsFree : ℕ → Type 0
IsFree sig = IsSignal sig × ((sig < 32) ⊎ (34 < sig))

abbrev pub IsRefused : ℕ → Type 0
IsRefused sig = ((sig ≡ 0) ⊎ (64 < sig)) ⊎ ((32 ≤ sig) × (sig ≤ 34))

abbrev pub refusal : ℕ → Answer
refusal set = record { result = minus_one; bits = set; errno = einval }

signal_index-eq : (sig : ℕ) → IsSignal sig → signal_index sig ≡ sig - 1
unfolding signal_index
signal_index-eq sig (low, high) = omega arith

pub bit_index-eq : (sig : ℕ) → IsSignal sig → bit_index sig ≡ 2 ^ (sig - 1)
unfolding bit_index
bit_index-eq sig (low, high) =
    let e : signal_index sig % 64 ≡ sig - 1 = omega (arith, signal_index-eq sig (low, high)) in
    ap (λ (t : ℕ). 2 ^ t) e

pub sigismember-eq : (set sig : ℕ) → IsSignal sig → sigismember set sig ≡ test_bit set (sig - 1)
unfolding sigismember
sigismember-eq set sig s =
    let bound = test_bit-lt set (sig - 1) in
    let picked : bit_and set (bit_index sig) ≡ test_bit set (sig - 1) * 2 ^ (sig - 1) =
      rw (bit_index-eq sig s) (bit_and-power set (sig - 1)) in
    elim (Bool-cases (test_bit set (sig - 1) == 0)) [
      | inl off ↦ ground (arith, picked, s, signal_index-eq sig s)
      | inr on ↦
          let one : test_bit set (sig - 1) ≡ 1 = ground arith in
          let whole : bit_and set (bit_index sig) ≡ 2 ^ (sig - 1) = ground (arith, picked) in
          ground (arith, whole, one, s, signal_index-eq sig s, one-le-pow (sig - 1) 2)
    ]

free_lem : (sig : ℕ) → IsFree sig → validate_sig sig ≡ false
unfolding validate_sig signal_index
free_lem sig ((low, high), apart) = ground (arith, apart)

refused_lem : (sig : ℕ) → sig < 2 ^ 32 → IsRefused sig → validate_sig sig ≡ true
unfolding validate_sig signal_index
refused_lem sig small r = ground (arith, r)

-- sigaddset and sigdelset refuse signal 0, the signals 32, 33 and 34 and everything above 64: they
-- return -1, set errno to EINVAL and leave the set alone.
pub signals_refused :
    (errno set sig : ℕ)
    → sig < 2 ^ 32
    → IsRefused sig
    → (sigaddset errno set sig ≡ refusal set) × (sigdelset errno set sig ≡ refusal set)
unfolding sigaddset sigdelset
signals_refused errno set sig small r =
    let e = refused_lem sig small r in (ground (arith, e), ground (arith, e))

added :
    (set sig k : ℕ)
    → IsSignal sig
    → IsSignal k
    → sigismember (bit_or set (bit_index sig)) k ≡ (if k == sig then 1 else sigismember set k)
added set sig k s t =
    let bound = test_bit-lt set (k - 1) in
    ground (
      arith,
      sigismember-eq (bit_or set (bit_index sig)) k t,
      sigismember-eq set k t,
      test_bit-or set (bit_index sig) (k - 1),
      bit_index-eq sig s,
      test_bit-power (sig - 1) (k - 1),
      bound,
      s,
      t,
    )

removed :
    (set sig k : ℕ)
    → IsSignal sig
    → IsSignal k
    → sigismember (bit_and set (complement (bit_index sig))) k
      ≡ (if k == sig then 0 else sigismember set k)
removed set sig k s t =
    let bound = test_bit-lt set (k - 1) in
    let i = sig - 1 in
    let two_positive : 0 < 2 = omega arith in
    let next : suc i ≤ 64 = omega (arith, s) in
    let fits : 2 ^ i < 2 ^ 64 =
      omega (arith, pow-suc 2 i, pow-le-pow_right (two_positive) ((next))) in
    ground (
      arith,
      sigismember-eq (bit_and set (complement (bit_index sig))) k t,
      sigismember-eq set k t,
      test_bit-and set (complement (bit_index sig)) (k - 1),
      ap complement (bit_index-eq sig s),
      complement_bits 64 (2 ^ i) (k - 1) fits (omega (arith, t)),
      test_bit-power i (k - 1),
      bound,
      s,
      t,
    )

-- sigaddset of a signal that is free for the program returns 0, keeps errno, and the members are
-- then the old ones and this signal.
pub sigaddset-inserts :
    (errno set sig : ℕ)
    → IsFree sig
    → let a = sigaddset errno set sig in
      (a.result ≡ 0)
      × (a.errno ≡ errno)
      × ((k : ℕ) → IsSignal k → sigismember a.bits k ≡ (if k == sig then 1 else sigismember set k))
unfolding sigaddset
sigaddset-inserts errno set sig (s, apart) =
    let e = free_lem sig (s, apart) in rw e (refl, refl, λ k t. added set sig k s t)

-- sigdelset of a signal that is free for the program returns 0, keeps errno, and the members are
-- then the old ones without this signal.
pub sigdelset-removes :
    (errno set sig : ℕ)
    → IsFree sig
    → let a = sigdelset errno set sig in
      (a.result ≡ 0)
      × (a.errno ≡ errno)
      × ((k : ℕ) → IsSignal k → sigismember a.bits k ≡ (if k == sig then 0 else sigismember set k))
unfolding sigdelset
sigdelset-removes errno set sig (s, apart) =
    let e = free_lem sig (s, apart) in rw e (refl, refl, λ k t. removed set sig k s t)

full : ℕ → Bool
full k = sigismember (sigfillset 0).1 (k + 1) == (if validate_sig (k + 1) then 0 else 1)

full_lem :
    (k : ℕ)
    → full k ≡ true
    → sigismember (sigfillset 0).1 (k + 1) ≡ (if validate_sig (k + 1) then 0 else 1)
unfolding full
full_lem k h = ground (arith, h)

full_checked : all_below 64 full ≡ true
unfolding all_below full sigfillset sigismember signal_index bit_index validate_sig
full_checked = refl

-- The members of a full set are the signals that sigaddset accepts, those of an empty set none, those
-- of sigorset and sigandset the members of one or both sets.
pub sigset_members :
    (left right k : ℕ)
    → IsSignal k
    → (sigismember (sigfillset left).1 k ≡ (if validate_sig k then 0 else 1))
      × (sigismember (sigemptyset left).1 k ≡ 0)
      × (sigismember (sigorset left right).1 k ≡ max (sigismember left k) (sigismember right k))
      × (sigismember (sigandset left right).1 k ≡ min (sigismember left k) (sigismember right k))
unfolding sigfillset sigemptyset sigorset sigandset
sigset_members left right k s =
    let e : k - 1 + 1 ≡ k = omega (arith, s) in
    let checked = all_below_sound 64 full (k - 1) full_checked (omega (arith, s)) in
    let full_at = full_lem (k - 1) checked in
    (
      rw e at full_at,
      sigismember-eq 0 k s ∙ test_bit-zero (k - 1),
      ground (
        arith,
        sigismember-eq (bit_or left right) k s,
        sigismember-eq left k s,
        sigismember-eq right k s,
        test_bit-or left right (k - 1),
      ),
      ground (
        arith,
        sigismember-eq (bit_and left right) k s,
        sigismember-eq left k s,
        sigismember-eq right k s,
        test_bit-and left right (k - 1),
      ),
    )

-- sigisemptyset returns 1 exactly for a set without members.
pub sigisemptyset_iff :
    (set : ℕ)
    → set < 2 ^ 64
    → (sigisemptyset set ≡ 1) ↔ ((k : ℕ) → IsSignal k → sigismember set k ≡ 0)
unfolding sigisemptyset
sigisemptyset_iff set small = (
  λ h k s.
      let none : set ≡ 0 = ground (arith, h) in
      sigismember-eq set k s ∙ ap (λ (w : ℕ). test_bit w (k - 1)) none ∙ test_bit-zero (k - 1),
  λ h.
      let empty = no_bits 64 set small (λ k l.
        let e : k + 1 - 1 ≡ k = omega arith in
        let s : IsSignal (k + 1) = (omega arith, omega arith) in
        rw e at (sym {a = sigismember set (k + 1)} (sigismember-eq set (k + 1) s) ∙ h (k + 1) s)) in
      ground (arith, empty),
)
