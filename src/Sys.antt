-- ===== src/Sys.antt =====
-- crates/mytilus-sys/src/syscall.rs: the system calls, is_err and ret.
-- The kernel is a parameter: `svc` takes the number in x8 and the arguments in x0 .. x5, and leaves a
-- new state of the kernel, which holds the memory of the process, with the answer in x0. A c_long is
-- its 64-bit pattern, a c_int its 32-bit one. errno is a c_int.
use mytilus.Base.{ℕ, ◌+◌, ◌-◌, ◌%◌, ◌^◌, Bool, ◌==◌, leb, if◌then◌else◌, List, [], ◌∷◌}
pub mod Numbers
pub mod Errors

pub record Machine (K : Type 0) : Type 0 where
  pub kernel : K
  pub errno : ℕ

-- A function that uses the kernel and errno.
abbrev pub Call : Type 0 → Type 0 → Type 0
Call K A = Machine K → A × Machine K

infixl 5 ◌>>=◌
abbrev pub ◌>>=◌ : {K A B : Type 0} → Call K A → (A → Call K B) → Call K B
(m >>= f) p = f (m p).0 (m p).1

abbrev pub value : {K A : Type 0} → A → Call K A
value a p = (a, p)

-- `-r` of a c_long.
abbrev pub neg : ℕ → ℕ
neg r = if r == 0 then 0 else 2 ^ 64 - r

-- `x as c_long` of a c_int.
abbrev pub sign_extend : ℕ → ℕ
sign_extend x = if leb (2 ^ 31) x then x + (2 ^ 64 - 2 ^ 32) else x

-- `x as c_int` of a c_long.
abbrev pub as_c_int : ℕ → ℕ
as_c_int x = x % 2 ^ 32

-- -1 as a c_long; MAP_FAILED is the same pattern.
abbrev pub minus_one : ℕ
minus_one = 2 ^ 64 - 1

abbrev pub eperm : ℕ
eperm = 1

abbrev pub eintr : ℕ
eintr = 4

abbrev pub enomem : ℕ
enomem = 12

abbrev pub einval : ℕ
einval = 22

unfoldable pub is_err : ℕ → Bool
is_err rc = leb (2 ^ 64 - 4096) rc

unfoldable pub set_errno : {K : Type 0} → ℕ → Call K (Unit {0})
set_errno e p = (tt, record p { errno = e })

unfoldable pub ret : {K : Type 0} → ℕ → Call K ℕ
unfolding is_err set_errno
ret r = if is_err r then (do _ ← set_errno (as_c_int (neg r)); value minus_one) else value r

-- `ret(r) as c_int`
unfoldable pub returned : {K : Type 0} → ℕ → Call K ℕ
returned r = do n ← ret r; value (as_c_int n)

module _ {K : Type 0} (svc : ℕ → List ℕ → K → ℕ × K) where
  abbrev trap : ℕ → List ℕ → Call K ℕ
  trap n args p = ((svc n args p.kernel).0, record p { kernel = (svc n args p.kernel).1 })

  unfoldable pub syscall0 : ℕ → Call K ℕ
  syscall0 n = trap n []

  unfoldable pub syscall1 : ℕ → ℕ → Call K ℕ
  syscall1 n a0 = trap n (a0 ∷ [])

  unfoldable pub syscall2 : ℕ → ℕ → ℕ → Call K ℕ
  syscall2 n a0 a1 = trap n (a0 ∷ a1 ∷ [])

  unfoldable pub syscall3 : ℕ → ℕ → ℕ → ℕ → Call K ℕ
  syscall3 n a0 a1 a2 = trap n (a0 ∷ a1 ∷ a2 ∷ [])

  unfoldable pub syscall4 : ℕ → ℕ → ℕ → ℕ → ℕ → Call K ℕ
  syscall4 n a0 a1 a2 a3 = trap n (a0 ∷ a1 ∷ a2 ∷ a3 ∷ [])

  unfoldable pub syscall5 : ℕ → ℕ → ℕ → ℕ → ℕ → ℕ → Call K ℕ
  syscall5 n a0 a1 a2 a3 a4 = trap n (a0 ∷ a1 ∷ a2 ∷ a3 ∷ a4 ∷ [])

  unfoldable pub syscall6 : ℕ → ℕ → ℕ → ℕ → ℕ → ℕ → ℕ → Call K ℕ
  syscall6 n a0 a1 a2 a3 a4 a5 = trap n (a0 ∷ a1 ∷ a2 ∷ a3 ∷ a4 ∷ a5 ∷ [])

  -- __syscall_cp_asm reads the cancel flag, DUMMY_CANCEL, which is 0, and traps with all six
  -- registers set.
  unfoldable pub syscall_cp0 : ℕ → Call K ℕ
  syscall_cp0 n = trap n (0 ∷ 0 ∷ 0 ∷ 0 ∷ 0 ∷ 0 ∷ [])

  unfoldable pub syscall_cp1 : ℕ → ℕ → Call K ℕ
  syscall_cp1 n a0 = trap n (a0 ∷ 0 ∷ 0 ∷ 0 ∷ 0 ∷ 0 ∷ [])

  unfoldable pub syscall_cp2 : ℕ → ℕ → ℕ → Call K ℕ
  syscall_cp2 n a0 a1 = trap n (a0 ∷ a1 ∷ 0 ∷ 0 ∷ 0 ∷ 0 ∷ [])

  unfoldable pub syscall_cp3 : ℕ → ℕ → ℕ → ℕ → Call K ℕ
  syscall_cp3 n a0 a1 a2 = trap n (a0 ∷ a1 ∷ a2 ∷ 0 ∷ 0 ∷ 0 ∷ [])

  unfoldable pub syscall_cp4 : ℕ → ℕ → ℕ → ℕ → ℕ → Call K ℕ
  syscall_cp4 n a0 a1 a2 a3 = trap n (a0 ∷ a1 ∷ a2 ∷ a3 ∷ 0 ∷ 0 ∷ [])

  unfoldable pub syscall_cp5 : ℕ → ℕ → ℕ → ℕ → ℕ → ℕ → Call K ℕ
  syscall_cp5 n a0 a1 a2 a3 a4 = trap n (a0 ∷ a1 ∷ a2 ∷ a3 ∷ a4 ∷ 0 ∷ [])

  unfoldable pub syscall_cp6 : ℕ → ℕ → ℕ → ℕ → ℕ → ℕ → ℕ → Call K ℕ
  syscall_cp6 n a0 a1 a2 a3 a4 a5 = trap n (a0 ∷ a1 ∷ a2 ∷ a3 ∷ a4 ∷ a5 ∷ [])
