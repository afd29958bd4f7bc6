-- ===== src/Fcntl.antt =====
-- crates/mytilus-fcntl/src/lib.rs: opening files, fcntl, and the two posix_ functions. The variadic
-- argument of a call is an argument; open and openat use theirs only where the flags ask for it.
use mytilus.Base.{
  ℕ, ◌+◌, ◌-◌, ◌%◌, ◌^◌, Bool, not, ◌&&◌, ◌||◌, ◌==◌, ltb, if◌then◌else◌, List, bit_and, bit_or,
}
use mytilus.Sys.Numbers.{sys_fadvise64, sys_fallocate, sys_fcntl, sys_openat}
use mytilus.Sys.{
  returned, Machine, Call, ◌>>=◌, value, neg, sign_extend, as_c_int, ret, syscall3, syscall4,
  syscall_cp3, syscall_cp4,
}
pub mod Opening
pub mod Control
pub mod Flags

abbrev pub o_wronly : ℕ
o_wronly = 1

-- 0o100
abbrev pub o_creat : ℕ
o_creat = 0x40

-- 0o1000
abbrev pub o_trunc : ℕ
o_trunc = 0x200

-- 0o400000
abbrev pub o_largefile : ℕ
o_largefile = 0x20000

-- 0o2000000
abbrev pub o_cloexec : ℕ
o_cloexec = 0x80000

-- 0o20040000
abbrev pub o_tmpfile : ℕ
o_tmpfile = 0x404000

-- AT_FDCWD is -100.
abbrev pub at_fdcwd : ℕ
at_fdcwd = 2 ^ 32 - 100

abbrev pub f_setfd : ℕ
f_setfd = 2

abbrev pub f_setfl : ℕ
f_setfl = 4

abbrev pub f_setlkw : ℕ
f_setlkw = 7

abbrev pub fd_cloexec : ℕ
fd_cloexec = 1

module _ {K : Type 0} (svc : ℕ → List ℕ → K → ℕ × K) where
  unfoldable pub openat_inner : ℕ → ℕ → ℕ → ℕ → Call K ℕ
  openat_inner dirfd filename flags mode = do
    fd ←
        syscall_cp4 svc sys_openat (sign_extend dirfd) filename
          (sign_extend (bit_or flags o_largefile)) mode
    let marks : Call K (Unit {0}) = syscall3 svc sys_fcntl fd f_setfd fd_cloexec >>= λ _. value tt
    _ ← (if ltb fd (2 ^ 63) && not (bit_and flags o_cloexec == 0) then marks else value tt)
    returned fd

  -- Whether open and openat read a mode.
  abbrev pub wants_mode : ℕ → Bool
  wants_mode flags = not (bit_and flags o_creat == 0) || bit_and flags o_tmpfile == o_tmpfile

  unfoldable pub openat : ℕ → ℕ → ℕ → ℕ → Call K ℕ
  openat dirfd filename flags mode =
      openat_inner dirfd filename flags (if wants_mode flags then mode else 0)

  unfoldable pub open_file : ℕ → ℕ → ℕ → Call K ℕ
  open_file filename flags mode =
      openat_inner at_fdcwd filename flags (if wants_mode flags then mode else 0)

  unfoldable pub creat : ℕ → ℕ → Call K ℕ
  creat filename mode =
      openat_inner at_fdcwd filename (bit_or (bit_or o_creat o_wronly) o_trunc) mode

  unfoldable pub fcntl : ℕ → ℕ → ℕ → Call K ℕ
  fcntl fd cmd arg =
      let arg' = if cmd == f_setfl then bit_or arg o_largefile else arg in
      do
        r ←
            (if cmd == f_setlkw
              then syscall_cp3 svc sys_fcntl (sign_extend fd) (sign_extend cmd) arg'
              else syscall3 svc sys_fcntl (sign_extend fd) (sign_extend cmd) arg')
        returned r

  -- The error number is the result, not errno.
  unfoldable pub posix_fadvise : ℕ → ℕ → ℕ → ℕ → Call K ℕ
  posix_fadvise fd base len advice = do
    r ← syscall4 svc sys_fadvise64 (sign_extend fd) base len (sign_extend advice)
    value (as_c_int (neg r))

  unfoldable pub posix_fallocate : ℕ → ℕ → ℕ → Call K ℕ
  posix_fallocate fd base len = do
    r ← syscall4 svc sys_fallocate (sign_extend fd) 0 base len
    value (as_c_int (neg r))
