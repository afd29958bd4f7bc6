-- ===== src/Prng/Random/Spin.antt =====
-- RANDOM_LOCK under several threads. A thread is inside from the compare_exchange that succeeds to
-- its call of unlock; what random, srandom, initstate and setstate do there are the steps draw,
-- reseed, save, adopt and restore, in any order, and it may leave at any time: the relation has more
-- runs than the functions, whose order of steps is in Threads.antt. An attempt that fails leaves the
-- thread spinning.
pub mod Keeping
pub mod Exclusion
use mytilus.Base.{
  ℕ, ◌-◌, ◌/◌, ◌%◌, ◌^◌, ◌||◌, bit_and, bit_or, ◌+◌, ◌≡◌, ◌≢◌, ◌⊎◌, inl, inr, Bool, true, false,
  ◌==◌, if◌then◌else◌, Option, none, some, arith, refl, ap, subst, sym, ◌∙◌, Bool-cases,
}
use mytilus.Memory.{Mem, Run, ok, fault, out_of_fuel, ◌>>=◌, load, store}
use mytilus.Prng.Lcg.{lcg31}
use mytilus.Prng.Random.{
  Random, lock, unlock, x_ptr, savestate, loadstate, header, words_of_size, seed_words,
  srandom_locked, random_locked,
}

-- The statics, and which threads are inside.
pub record World : Type 0 where
  pub statics : Random
  pub inside : ℕ → Bool

abbrev pub set_inside : ℕ → Bool → (ℕ → Bool) → ℕ → Bool
set_inside t b inside u = if u == t then b else inside u

pub data Step (init : ℕ) : World → World → Type 0 where
  acquire :
      (w : World) (t : ℕ) (s : Random)
      → w.inside t ≡ false
      → lock w.statics ≡ ok s
      → Step init w (record { statics = s; inside = set_inside t true w.inside })
  spin : (w : World) (t : ℕ) → w.inside t ≡ false → lock w.statics ≡ out_of_fuel → Step init w w
  draw :
      (w : World) (t v : ℕ) (s : Random)
      → w.inside t ≡ true
      → random_locked init w.statics ≡ ok (v, s)
      → Step init w (record w { statics = s })
  reseed :
      (w : World) (t seed : ℕ) (s : Random)
      → w.inside t ≡ true
      → srandom_locked init seed w.statics ≡ ok s
      → Step init w (record w { statics = s })
  save :
      (w : World) (t old : ℕ) (s : Random)
      → w.inside t ≡ true
      → savestate init w.statics ≡ ok (old, s)
      → Step init w (record w { statics = s })
  adopt :
      (w : World) (t state size : ℕ)
      → w.inside t ≡ true
      → Step init w
          (record w { statics = record w.statics { n = words_of_size size; x = some (state + 1) } })
  restore :
      (w : World) (t state : ℕ) (s : Random)
      → w.inside t ≡ true
      → loadstate state w.statics ≡ ok s
      → Step init w (record w { statics = s })
  release :
      (w : World) (t : ℕ)
      → w.inside t ≡ true
      → Step init w (record { statics = unlock w.statics; inside = set_inside t false w.inside })

pub data Reach (init : ℕ) (w : World) : World → Type 0 where
  here : Reach init w w
  next : {v u : World} → Reach init w v → Step init v u → Reach init w u
