-- ===== src/Tests/Threads.antt =====
-- The theorems on the lock of random, at an interleaving in which one thread takes the lock and
-- another one spins, and on errno of three threads that make system calls in turn.
use mytilus.Base.{
  ℕ, ◌+◌, ◌*◌, ◌-◌, ◌^◌, ◌≡◌, ◌⊎◌, ◌==◌, if◌then◌else◌, true, false, none, some, List, [], ◌∷◌, map,
  arith, refl,
}
use mytilus.Errno.Location.{
  Process, errno_location, interleave, answers, outcome, last_error, errno_per_thread,
}
use mytilus.Prng.Random.Spin.{World, set_inside, acquire, spin, Reach, here, next}
use mytilus.Prng.Random.Spin.Keeping.{lock-takes, lock-spins}
use mytilus.Prng.Random.Spin.Exclusion.{one_inside}

abbrev start : World
start = record {
  statics = record { lock = 0; n = 31; i = 3; j = 0; x = none; mem = λ q. some q };
  inside = λ u. false;
}

-- Thread 7 has the lock.
abbrev held : World
held = record {
  statics = record start.statics { lock = 1 };
  inside = set_inside 7 true start.inside;
}

contended : Reach 100 start held
contended =
    next (next here (acquire start 7 held.statics refl (lock-takes start.statics refl)))
      (spin held 8 refl (lock-spins held.statics (λ e. omega (arith, e))))

one_inside_example :
    ((t u : ℕ) → held.inside t ≡ true → held.inside u ≡ true → t ≡ u)
    × (((held.statics.lock ≡ 0) × ((u : ℕ) → held.inside u ≡ false))
        ⊎ ((held.statics.lock ≡ 1) × ((t : ℕ) × (held.inside t ≡ true))))
one_inside_example = one_inside 100 start held refl (λ u. refl) contended

-- The storage of a thread, with ERRNO_VAL at its end.
abbrev storage : ℕ → ℕ
storage t = 4096 * t + 4092

-- A kernel that knows two calls and has no memory; 9 is EBADF and 38 ENOSYS.
abbrev service : ℕ → List ℕ → ℕ → ℕ × ℕ
service n args k = (if n == 57 then 2 ^ 64 - 9 else if n == 172 then 41 else 2 ^ 64 - 38, k + 1)

abbrev calls : List (ℕ × ℕ × List ℕ)
calls = (3, 57, 5 ∷ []) ∷ (4, 172, []) ∷ (5, 999, []) ∷ (3, 172, []) ∷ []

abbrev fresh : Process ℕ
fresh = record { kernel = 0; cells = λ a. 0 }

errno_per_thread_example :
    ((interleave storage service calls fresh).0
      ≡ map (λ a. outcome a.1) (answers storage service calls 0))
    × ((interleave storage service calls fresh).1.cells (errno_location storage 3)
        ≡ last_error 3 (answers storage service calls 0) 0)
errno_per_thread_example =
    errno_per_thread storage (λ t u h. omega (arith, h)) service 3 calls fresh
