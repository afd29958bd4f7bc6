-- ===== src/Prng/Random/Threads.antt =====
-- Threads that call random, srandom and setstate of crates/mytilus-prng/src/lib.rs: each call takes RANDOM_LOCK,
-- works on the statics, gives the lock back and returns, with the steps of other threads anywhere
-- between. An attempt on a lock that is taken leaves the thread spinning.
pub mod Calls
pub mod Serial
pub mod Returns
pub mod Progress
use mytilus.Base.{ℕ, ◌≡◌, List, [], ◌∷◌, Option, none, some, put}
use mytilus.Memory.{Run, ok, fault, out_of_fuel, ◌>>=◌}
use mytilus.Prng.Random.{
  Random, lock, unlock, savestate, loadstate, srandom_locked, random_locked, random, srandom,
  setstate,
}

pub data Op : Type 0 where
  drawing : Op
  seeding : ℕ → Op
  switching : ℕ → Op

-- Where a thread is: outside of a call or spinning, behind the lock, or in front of unlock with its
-- result.
pub data Phase : Type 0 where
  outside : Phase
  locked : Op → Phase
  finished : Op → Option ℕ → Phase

pub record Event : Type 0 where
  pub thread : ℕ
  pub op : Op
  pub result : Option ℕ

-- The statics, the place of every thread, and the calls that have returned, the last one first.
pub record World : Type 0 where
  pub statics : Random
  pub phase : ℕ → Phase
  pub log : List Event

module _ (init : ℕ) where
  -- What a call does between lock and unlock.
  unfoldable pub inner : Op → Random → Run (Option ℕ × Random)
  inner drawing s = do (v, s1) ← random_locked init s; ok (some v, s1)
  inner (seeding seed) s = do s1 ← srandom_locked init seed s; ok (none, s1)
  inner (switching state) s = do
    (old, s1) ← savestate init s
    s2 ← loadstate state s1
    ok (some old, s2)

  -- The whole call, by a thread alone.
  unfoldable pub perform : Op → Random → Run (Option ℕ × Random)
  perform drawing s = do (v, s1) ← random init s; ok (some v, s1)
  perform (seeding seed) s = do s1 ← srandom init seed s; ok (none, s1)
  perform (switching state) s = do (old, s1) ← setstate init state s; ok (some old, s1)

  -- One call after the other, the last one first: their results, and the statics at the end.
  unfoldable pub in_turn : List Op → Random → Run (List (Option ℕ) × Random)
  in_turn [] s = ok ([], s)
  in_turn (c ∷ cs) s = do (rs, s1) ← in_turn cs s; (r, s2) ← perform c s1; ok (r ∷ rs, s2)

  pub data Step : World → World → Type 0 where
    enter :
        (w : World) (t : ℕ) (c : Op) (s : Random)
        → w.phase t ≡ outside
        → lock w.statics ≡ ok s
        → Step w (record w { statics = s; phase = put w.phase t (locked c) })
    spin : (w : World) (t : ℕ) → w.phase t ≡ outside → lock w.statics ≡ out_of_fuel → Step w w
    work :
        (w : World) (t : ℕ) (c : Op) (r : Option ℕ) (s : Random)
        → w.phase t ≡ locked c
        → inner c w.statics ≡ ok (r, s)
        → Step w (record w { statics = s; phase = put w.phase t (finished c r) })
    leave :
        (w : World) (t : ℕ) (c : Op) (r : Option ℕ)
        → w.phase t ≡ finished c r
        → Step w (record {
          statics = unlock w.statics;
          phase = put w.phase t outside;
          log = record { thread = t; op = c; result = r } ∷ w.log;
        })

  pub data Reach (w : World) : World → Type 0 where
    here : Reach w w
    next : {v u : World} → Reach w v → Step v u → Reach w u
