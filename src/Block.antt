-- ===== src/Block.antt =====
-- crates/mytilus-string/src/mem.rs: memcpy, memmove and memset, as the byte loops written there.
-- (The aarch64 assembly that takes the place of memcpy and memset on the target is not modelled.)
pub mod Move
use mytilus.Base.{ℕ, zero, suc, ◌+◌, ◌%◌, ltb, if◌then◌else◌}
use mytilus.Memory.{Mem, Run, ok, ◌>>=◌, load, store}

-- `while i < n { *d.add(i) = *s.add(i); i += 1; }`, `left` being n - i.
pub copy_forward : Mem → ℕ → ℕ → ℕ → ℕ → Run Mem
copy_forward m d s zero i = ok m
copy_forward m d s (suc left) i = do
  b ← load m (s + i)
  m' ← store m (d + i) b
  copy_forward m' d s left (i + 1)

-- `while i > 0 { i -= 1; *d.add(i) = *s.add(i); }`
pub copy_backward : Mem → ℕ → ℕ → ℕ → Run Mem
copy_backward m d s zero = ok m
copy_backward m d s (suc i) = do b ← load m (s + i); m' ← store m (d + i) b; copy_backward m' d s i

unfoldable pub fill_forward : Mem → ℕ → ℕ → ℕ → ℕ → Run Mem
fill_forward m d byte zero i = ok m
fill_forward m d byte (suc left) i = do
  m' ← store m (d + i) byte
  fill_forward m' d byte left (i + 1)

-- Each returns `dest` and the memory after the call.
unfoldable pub memcpy : Mem → ℕ → ℕ → ℕ → Run (ℕ × Mem)
unfolding copy_forward
memcpy m dest src n = do m' ← copy_forward m dest src n 0; ok (dest, m')

unfoldable pub memmove : Mem → ℕ → ℕ → ℕ → Run (ℕ × Mem)
unfolding copy_forward copy_backward
memmove m dest src n = do
  m' ←
      if ltb dest src
      then copy_forward m dest src n 0
      else if ltb src dest
      then copy_backward m dest src n
      else ok m
  ok (dest, m')

unfoldable pub memset : Mem → ℕ → ℕ → ℕ → Run (ℕ × Mem)
unfolding fill_forward
memset m dest c n = do m' ← fill_forward m dest (c % 256) n 0; ok (dest, m')
