-- ===== src/Str/Tokens.antt =====
-- crates/mytilus-string/src/str_search.rs: strsep, strtok_r and strtok.
-- The pointer that a call keeps for the next one, `*str` of strsep, `*p` of strtok_r and STRTOK_STATE,
-- is an argument and part of the result; it does not stand in the bytes of the strings.
use mytilus.Base.{ℕ, ◌+◌, not, ◌==◌, if◌then◌else◌, Option, none, some}
use mytilus.Memory.{Mem, Run, ok, ◌>>=◌, load, store}
use mytilus.Str.Search.{strspn, strcspn}
pub mod Laws
pub mod Words
pub mod Fields

-- The returned pointer, the kept one, and the memory.
abbrev pub Token : Type 0
Token = Option ℕ × Option ℕ × Mem

-- `if *end != 0 { *end = 0; .. end.add(1) } else { null }`
pub cut : Mem → ℕ → ℕ → Run Token
cut m s end = do
  b ← load m end
  let cut_here = store m end 0 >>= λ m'. ok (some s, some (end + 1), m')
  if not (b == 0) then cut_here else ok (some s, none, m)

pub strsep : ℕ → Mem → Option ℕ → ℕ → Run Token
strsep f m none sep = ok (none, none, m)
strsep f m (some s) sep = do n ← strcspn f m s sep; cut m s (s + n)

-- The part of strtok_r behind the choice of s.
pub strtok_from : ℕ → Mem → ℕ → ℕ → Run Token
strtok_from f m s sep = do
  k ← strspn f m s sep
  b ← load m (s + k)
  let token : Run Token = do n ← strcspn f m (s + k) sep; cut m (s + k) (s + k + n)
  if b == 0 then ok (none, none, m) else token

pub strtok_r : ℕ → Mem → Option ℕ → ℕ → Option ℕ → Run Token
strtok_r f m (some s) sep p = strtok_from f m s sep
strtok_r f m none sep (some s) = strtok_from f m s sep
strtok_r f m none sep none = ok (none, none, m)

pub strtok : ℕ → Mem → Option ℕ → ℕ → Option ℕ → Run Token
strtok f m s sep state = do (r, local, m') ← strtok_r f m s sep state; ok (r, local, m')
