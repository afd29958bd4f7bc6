-- ===== src/Prng/Random/Spin/Exclusion.antt =====
-- At most one thread is inside.
use mytilus.Base.{ℕ, ◌+◌, ◌≡◌, ◌⊎◌, inl, inr, true, false, some, arith, refl, sym, ◌∙◌, Bool-cases}
use mytilus.Memory.{ok}
use mytilus.Prng.Random.{Random, lock, unlock, words_of_size}
use mytilus.Prng.Random.Spin.{
  World, set_inside, Step, acquire, spin, draw, reseed, save, adopt, restore, release, Reach, here,
  next,
}
use mytilus.Prng.Random.Spin.Keeping.{
  Keeps-ok, random_locked-lock, srandom_locked-lock, savestate-lock, loadstate-lock, lock-free,
  unlock-frees,
}

-- The lock is free and no thread is inside, or it is taken and one thread is.
abbrev pub IsHeld : World → Type 0
IsHeld w =
    ((w.statics.lock ≡ 0) × ((u : ℕ) → w.inside u ≡ false))
    ⊎ ((w.statics.lock ≡ 1)
        × ((t : ℕ) × (w.inside t ≡ true) × ((u : ℕ) → w.inside u ≡ true → u ≡ t)))

-- A step of the thread inside that leaves the lock alone.
kept-IsHeld :
    (w : World) (s : Random)
    → s.lock ≡ w.statics.lock
    → IsHeld w
    → IsHeld (record w { statics = s })
kept-IsHeld w s e (inl (free, nobody)) = inl (e ∙ free, nobody)
kept-IsHeld w s e (inr (taken, one)) = inr (e ∙ taken, one)

acquired-IsHeld :
    (w : World) (t : ℕ) (s : Random)
    → lock w.statics ≡ ok s
    → IsHeld w
    → IsHeld (record { statics = s; inside = set_inside t true w.inside })
acquired-IsHeld w t s e (inl (free, nobody)) =
    let taken = (Keeps-ok _ _ _ (lock-free w.statics) e).1 in
    inr (taken, (t, ground arith, λ u i. ground (arith, i, nobody u)))
acquired-IsHeld w t s e (inr (taken, one)) =
    let free = (Keeps-ok _ _ _ (lock-free w.statics) e).0 in absurd (omega (arith, free, taken))

released-IsHeld :
    (w : World) (t : ℕ)
    → w.inside t ≡ true
    → IsHeld w
    → IsHeld (record { statics = unlock w.statics; inside = set_inside t false w.inside })
released-IsHeld w t i (inl (free, nobody)) = absurd (ground (arith, i, nobody t))
released-IsHeld w t i (inr (taken, (t', inside, only))) =
    let e = only t i in
    inl (
      unlock-frees w.statics,
      λ u. elim (Bool-cases (w.inside u)) [
        | inl j ↦ let e' = only u j in ground (arith, e, e')
        | inr j ↦ ground (arith, j)
      ],
    )

Step-IsHeld : {init : ℕ} {w v : World} → Step init w v → IsHeld w → IsHeld v
Step-IsHeld (acquire w t s out e) h = acquired-IsHeld w t s e h
Step-IsHeld (spin w t out e) h = h
Step-IsHeld {init} (draw w t v s i e) h =
    kept-IsHeld w s (Keeps-ok _ _ _ (random_locked-lock init w.statics) e) h
Step-IsHeld {init} (reseed w t seed s i e) h =
    kept-IsHeld w s (Keeps-ok _ _ _ (srandom_locked-lock init seed w.statics) e) h
Step-IsHeld {init} (save w t old s i e) h =
    kept-IsHeld w s (Keeps-ok _ _ _ (savestate-lock init w.statics) e) h
Step-IsHeld (adopt w t state size i) h =
    kept-IsHeld w (record w.statics { n = words_of_size size; x = some (state + 1) }) refl h
Step-IsHeld (restore w t state s i e) h =
    kept-IsHeld w s (Keeps-ok _ _ _ (loadstate-lock state w.statics) e) h
Step-IsHeld (release w t i) h = released-IsHeld w t i h

Reach-IsHeld : {init : ℕ} {w v : World} → IsHeld w → Reach init w v → IsHeld v
Reach-IsHeld h here = h
Reach-IsHeld h (next r s) = Step-IsHeld s (Reach-IsHeld h r)

at_most_one : (w : World) → IsHeld w → (t u : ℕ) → w.inside t ≡ true → w.inside u ≡ true → t ≡ u
at_most_one w (inl (free, nobody)) t u i j = absurd (ground (arith, i, nobody t))
at_most_one w (inr (taken, (one, inside, only))) t u i j = only t i ∙ sym (only u j)

holder :
    (w : World)
    → IsHeld w
    → ((w.statics.lock ≡ 0) × ((u : ℕ) → w.inside u ≡ false))
      ⊎ ((w.statics.lock ≡ 1) × ((t : ℕ) × (w.inside t ≡ true)))
holder w (inl h) = inl h
holder w (inr (taken, (one, inside, only))) = inr (taken, (one, inside))

-- Where the lock starts free with no thread inside, then after any interleaving of the threads'
-- attempts, critical steps and releases at most one thread is inside, and the lock is taken exactly
-- while one is: its word is 0 with no thread inside and 1 with one.
pub one_inside :
    (init : ℕ) (start w : World)
    → start.statics.lock ≡ 0
    → ((u : ℕ) → start.inside u ≡ false)
    → Reach init start w
    → ((t u : ℕ) → w.inside t ≡ true → w.inside u ≡ true → t ≡ u)
      × (((w.statics.lock ≡ 0) × ((u : ℕ) → w.inside u ≡ false))
          ⊎ ((w.statics.lock ≡ 1) × ((t : ℕ) × (w.inside t ≡ true))))
one_inside init start w free nobody r =
    let h = Reach-IsHeld (inl (free, nobody)) r in (at_most_one w h, holder w h)
