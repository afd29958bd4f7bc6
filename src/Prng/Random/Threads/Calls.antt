-- ===== src/Prng/Random/Threads/Calls.antt =====
-- A call of random, srandom or setstate as lock, its inner part, and unlock.
use mytilus.Base.{ℕ, ◌≡◌, Option, none, some, refl, ap, ◌∙◌}
use mytilus.Memory.{Run, ok, fault, out_of_fuel, ◌>>=◌}
use mytilus.Prng.Random.{
  Random, lock, unlock, savestate, loadstate, srandom_locked, random_locked, random, srandom,
  setstate,
}
use mytilus.Prng.Random.Spin.Keeping.{
  Keeps, Keeps-value, Keeps-then, random_locked-lock, srandom_locked-lock, savestate-lock,
  loadstate-lock,
}
use mytilus.Prng.Random.Threads.{Op, drawing, seeding, switching, inner, perform}

abbrev pub with_lock : Random → Random
with_lock s = record s { lock = 1 }

-- How the functions go on behind the lock and behind the inner part.
abbrev pub unlocked : {A : Type 0} → A × Random → Run (A × Random)
unlocked a = ok (a.0, unlock a.1)

abbrev given : ℕ × Random → Run (Option ℕ × Random)
given a = ok (some a.0, a.1)

abbrev silent : Random → Run (Option ℕ × Random)
silent s = ok (none, s)

abbrev freed : Random → Run Random
freed s = ok (unlock s)

abbrev old_and_freed : ℕ → Random → Run (ℕ × Random)
old_and_freed old s = ok (old, unlock s)

abbrev old_given : ℕ → Random → Run (Option ℕ × Random)
old_given old s = ok (some old, s)

drawn : (b : Run (ℕ × Random)) → ((b >>= unlocked) >>= given) ≡ ((b >>= given) >>= unlocked)
drawn (ok a) = refl
drawn fault = refl
drawn out_of_fuel = refl

reseeded : (b : Run Random) → ((b >>= freed) >>= silent) ≡ ((b >>= silent) >>= unlocked)
reseeded (ok s) = refl
reseeded fault = refl
reseeded out_of_fuel = refl

loaded :
    (old : ℕ) (b : Run Random)
    → ((b >>= old_and_freed old) >>= given) ≡ ((b >>= old_given old) >>= unlocked)
loaded old (ok s) = refl
loaded old fault = refl
loaded old out_of_fuel = refl

switched :
    (b : Run (ℕ × Random)) (f : Random → Run Random)
    → ((b >>= λ a. f a.1 >>= old_and_freed a.0) >>= given)
      ≡ ((b >>= λ a. f a.1 >>= old_given a.0) >>= unlocked)
switched (ok (old, s)) f = loaded old (f s)
switched fault f = refl
switched out_of_fuel f = refl

module _ (init : ℕ) where
  -- A call is lock, its inner part, and unlock.
  pub perform_lem :
      (c : Op) (s s1 : Random) → lock s ≡ ok s1 → perform init c s ≡ (inner init c s1 >>= unlocked)
  unfolding perform inner random srandom setstate
  perform_lem drawing s s1 e =
      ap (λ l. (l >>= λ u. random_locked init u >>= unlocked) >>= given) e
      ∙ drawn (random_locked init s1)
  perform_lem (seeding seed) s s1 e =
      ap (λ l. (l >>= λ u. srandom_locked init seed u >>= freed) >>= silent) e
      ∙ reseeded (srandom_locked init seed s1)
  perform_lem (switching state) s s1 e =
      ap
        (λ l.
          (l >>= λ u. savestate init u >>= λ a. loadstate state a.1 >>= old_and_freed a.0)
          >>= given)
        e
      ∙ switched (savestate init s1) (loadstate state)

  pub inner-lock : (c : Op) (s : Random) → Keeps (λ a. a.1.lock ≡ s.lock) (inner init c s)
  unfolding inner
  inner-lock drawing s =
      Keeps-then (λ a. a.1.lock ≡ s.lock) (λ a. a.1.lock ≡ s.lock) (random_locked init s) given
        (random_locked-lock init s) (λ a h. Keeps-value (λ b. b.1.lock ≡ s.lock) (some a.0, a.1) h)
  inner-lock (seeding seed) s =
      Keeps-then (λ a. a.lock ≡ s.lock) (λ a. a.1.lock ≡ s.lock) (srandom_locked init seed s) silent
        (srandom_locked-lock init seed s) (λ a h. Keeps-value (λ b. b.1.lock ≡ s.lock) (none, a) h)
  inner-lock (switching state) s =
      Keeps-then (λ a. a.1.lock ≡ s.lock) (λ a. a.1.lock ≡ s.lock) (savestate init s)
        (λ a. loadstate state a.1 >>= old_given a.0) (savestate-lock init s)
        (λ a h.
          Keeps-then (λ u. u.lock ≡ a.1.lock) (λ b. b.1.lock ≡ s.lock) (loadstate state a.1)
            (old_given a.0) (loadstate-lock state a.1)
            (λ u k. Keeps-value (λ b. b.1.lock ≡ s.lock) (some a.0, u) (k ∙ h)))
