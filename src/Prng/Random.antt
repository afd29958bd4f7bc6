-- ===== src/Prng/Random.antt =====
-- crates/mytilus-prng/src/lib.rs: random, srandom, initstate and setstate.
-- A pointer to `u32` is a word address, and the memory holds a 32-bit word at each mapped one:
-- the default table RANDOM_INIT and the buffers of the callers. Taking the spinlock while it is
-- held never ends, which is `out_of_fuel` here.
pub mod Header
pub mod Switch
pub mod Seed
pub mod Buffer
pub mod State
pub mod Spin
pub mod Threads
pub mod Lagged
pub mod Seeded
pub mod Initial
pub mod Resume
use mytilus.Base.{
  ℕ, zero, suc, ◌+◌, ◌-◌, ◌*◌, ◌/◌, ◌%◌, ◌^◌, Bool, ◌||◌, ◌==◌, ltb, if◌then◌else◌, Option, none,
  some, bit_and, bit_or,
}
use mytilus.Memory.{Mem, Run, ok, out_of_fuel, ◌>>=◌, load, store}
use mytilus.Prng.Lcg.{lcg31, lcg64}

-- The statics: RANDOM_LOCK, RAND_N, RAND_I, RAND_J, RAND_X, where `none` is NULL, and the memory.
pub record Random : Type 0 where
  pub lock : ℕ
  pub n : ℕ
  pub i : ℕ
  pub j : ℕ
  pub x : Option ℕ
  pub mem : Mem

pub lock : Random → Run Random
lock s = if s.lock == 0 then ok (record s { lock = 1 }) else out_of_fuel

pub unlock : Random → Random
unlock s = record s { lock = 0 }

-- `(n << 16) | (i << 8) | j` on u32.
pub header : ℕ → ℕ → ℕ → ℕ
header n i j = bit_or (bit_or (n * 2 ^ 16 % 2 ^ 32) (i * 2 ^ 8 % 2 ^ 32)) j

-- `init` is the address of RANDOM_INIT.
module _ (init : ℕ) where
  unfoldable pub x_ptr : Random → ℕ × Random
  x_ptr s = elim s.x [ some p ↦ (p, s) | none ↦ (init + 1, record s { x = some (init + 1) }) ]

  pub savestate : Random → Run (ℕ × Random)
  savestate s =
      let (x, s') = x_ptr s in
      do mem ← store s'.mem (x - 1) (header s'.n s'.i s'.j); ok (x - 1, record s' { mem = mem })

pub loadstate : ℕ → Random → Run Random
loadstate state s = do
  header ← load s.mem state
  ok (record s {
    x = some (state + 1);
    n = header / 2 ^ 16;
    i = bit_and (header / 2 ^ 8) 0xff;
    j = bit_and header 0xff;
  })

-- `for k in 0..RAND_N`, `left` being RAND_N - k.
pub seed_words : Mem → ℕ → ℕ → ℕ → ℕ → Run Mem
seed_words m x s zero k = ok m
seed_words m x s (suc left) k = do
  let s' = lcg64 s
  m' ← store m (x + k) (s' / 2 ^ 32)
  seed_words m' x s' left (k + 1)

-- The number of words that a buffer of `size` bytes gives the generator.
unfoldable pub words_of_size : ℕ → ℕ
words_of_size size =
    if ltb size 32
    then 0
    else if ltb size 64
    then 7
    else if ltb size 128
    then 15
    else if ltb size 256
    then 31
    else 63

module _ (init : ℕ) where
  pub srandom_locked : ℕ → Random → Run Random
  srandom_locked seed s =
      let (x, s') = x_ptr init s in
      let single : Run Random = (do mem ← store s'.mem x seed; ok (record s' { mem = mem })) in
      let table : Run Random = do
        mem ← seed_words s'.mem x seed s'.n 0
        v ← load mem x
        mem' ← store mem x (bit_or v 1)
        ok (record s' { i = if s'.n == 31 || s'.n == 7 then 3 else 1; j = 0; mem = mem' })
      in if s'.n == 0 then single else table

  pub srandom : ℕ → Random → Run Random
  srandom seed s = do s1 ← lock s; s2 ← srandom_locked seed s1; ok (unlock s2)

  -- The critical section of random.
  unfoldable pub random_locked : Random → Run (ℕ × Random)
  random_locked s =
      let (x, s') = x_ptr init s in
      let single : Run (ℕ × Random) = do
        w ← load s'.mem x
        mem ← store s'.mem x (lcg31 w)
        ok (lcg31 w, record s' { mem = mem })
      in let table : Run (ℕ × Random) = do
        a ← load s'.mem (x + s'.i)
        b ← load s'.mem (x + s'.j)
        let v = (a + b) % 2 ^ 32
        mem ← store s'.mem (x + s'.i) v
        ok (
          v / 2,
          record s' {
            i = if s'.i + 1 == s'.n then 0 else s'.i + 1;
            j = if s'.j + 1 == s'.n then 0 else s'.j + 1;
            mem = mem;
          },
        )
        in if s'.n == 0 then single else table

  pub random : Random → Run (ℕ × Random)
  random s = do s1 ← lock s; (v, s2) ← random_locked s1; ok (v, unlock s2)

  pub initstate : ℕ → ℕ → ℕ → Random → Run (Option ℕ × Random)
  initstate seed state size s = if ltb size 8 then ok (none, s) else do
    s1 ← lock s
    (old, s2) ← savestate init s1
    s3 ← srandom_locked seed (record s2 { n = words_of_size size; x = some (state + 1) })
    (_, s4) ← savestate init s3
    ok (some old, unlock s4)

  pub setstate : ℕ → Random → Run (ℕ × Random)
  setstate state s = do
    s1 ← lock s
    (old, s2) ← savestate init s1
    s3 ← loadstate state s2
    ok (old, unlock s3)
