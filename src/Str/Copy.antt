-- ===== src/Str/Copy.antt =====
-- crates/mytilus-string/src/str_fns.rs: stpcpy, strcpy, stpncpy, strncpy and strcat.
-- A call returns its pointer and the memory after it.
use mytilus.Base.{ℕ, zero, suc, ◌+◌, ◌==◌, if◌then◌else◌}
use mytilus.Memory.{Mem, Run, ok, out_of_fuel, ◌>>=◌, load, store}
use mytilus.Block.{fill_forward}
use mytilus.Str.Length.{strlen}
pub mod Laws
pub mod Bounded

-- `*s` is read again after the write through `d`.
pub stpcpy : ℕ → Mem → ℕ → ℕ → Run (ℕ × Mem)
stpcpy zero m d s = out_of_fuel
stpcpy (suc f) m d s = do
  b ← load m s
  m' ← store m d b
  c ← load m' s
  let more = stpcpy f m' (d + 1) (s + 1)
  if c == 0 then ok (d, m') else more

pub strcpy : ℕ → Mem → ℕ → ℕ → Run (ℕ × Mem)
strcpy f m d s = do (_, m') ← stpcpy f m d s; ok (d, m')

-- The first loop of stpncpy; it returns d, s and n as the loop leaves them, without s.
pub stpncpy_loop : Mem → ℕ → ℕ → ℕ → Run (ℕ × ℕ × Mem)
stpncpy_loop m d s zero = ok (d, 0, m)
stpncpy_loop m d s (suc n) = do
  b ← load m s
  m' ← store m d b
  c ← load m' s
  let more = stpncpy_loop m' (d + 1) (s + 1) n
  if c == 0 then ok (d, suc n, m') else more

pub stpncpy : Mem → ℕ → ℕ → ℕ → Run (ℕ × Mem)
unfolding stpncpy_loop
stpncpy m d s n = do
  (d', left, m') ← stpncpy_loop m d s n
  m'' ← fill_forward m' d' 0 left 0
  ok (d', m'')

pub strncpy : Mem → ℕ → ℕ → ℕ → Run (ℕ × Mem)
strncpy m d s n = do (_, m') ← stpncpy m d s n; ok (d, m')

-- Both calls get the same fuel.
pub strcat : ℕ → Mem → ℕ → ℕ → Run (ℕ × Mem)
strcat f m dest src = do len ← strlen f m dest; (_, m') ← strcpy f m (dest + len) src; ok (dest, m')
