-- ===== src/Unistd.antt =====
-- crates/mytilus-unistd/src/lib.rs: sleep, descriptors and basic input and output.
use mytilus.Base.{ℕ, ◌+◌, ◌*◌, ◌/◌, ◌%◌, Bool, not, ◌==◌, if◌then◌else◌, List}
use mytilus.Sys.Numbers.{
  sys_close, sys_dup, sys_dup3, sys_fcntl, sys_fdatasync, sys_fsync, sys_lseek, sys_ppoll, sys_read,
  sys_sync, sys_write,
}
use mytilus.Sys.{
  eintr, returned, Machine, Call, ◌>>=◌, value, neg, sign_extend, as_c_int, is_err, ret, syscall0,
  syscall1, syscall2, syscall3, syscall_cp1, syscall_cp3, syscall_cp4,
}
use mytilus.Time.{nanosleep, read_word, write_timespec}
pub mod Descriptors
pub mod Sleeping

module _ {K : Type 0} (svc : ℕ → List ℕ → K → ℕ × K) where
  -- `tv` is the address of the local variable.
  unfoldable pub sleep : (ℕ → K → ℕ) → (ℕ → ℕ → K → K) → ℕ → ℕ → Call K ℕ
  sleep peek poke tv seconds = do
    _ ← write_timespec svc peek poke tv seconds 0
    r ← nanosleep svc tv tv
    left ← read_word svc peek poke tv
    value (if not (r == 0) then as_c_int left else 0)

  unfoldable pub usleep : (ℕ → K → ℕ) → (ℕ → ℕ → K → K) → ℕ → ℕ → Call K ℕ
  usleep peek poke tv useconds = do
    _ ← write_timespec svc peek poke tv (useconds / 1_000_000) (useconds % 1_000_000 * 1_000)
    nanosleep svc tv tv

  unfoldable pub pause : Call K ℕ
  pause = do r ← syscall_cp4 svc sys_ppoll 0 0 0 0; returned r

  unfoldable pub dup : ℕ → Call K ℕ
  dup fd = do r ← syscall1 svc sys_dup (sign_extend fd); returned r

  -- __dup3, and dup3, which calls it.
  unfoldable pub dup3 : ℕ → ℕ → ℕ → Call K ℕ
  dup3 old new flags = do
    r ← syscall3 svc sys_dup3 (sign_extend old) (sign_extend new) (sign_extend flags)
    returned r

  unfoldable pub dup2 : ℕ → ℕ → Call K ℕ
  dup2 old new =
      let same : Call K ℕ = do
        r ← syscall2 svc sys_fcntl (sign_extend old) 1
        if not (is_err r) then value old else returned r
      in let other : Call K ℕ = do
        r ← syscall3 svc sys_dup3 (sign_extend old) (sign_extend new) 0
        returned r
        in if old == new then same else other

  unfoldable pub getpagesize : ℕ
  getpagesize = 4096

  unfoldable pub sync : Call K (Unit {0})
  sync = do _ ← syscall0 svc sys_sync; value tt

  unfoldable pub fsync : ℕ → Call K ℕ
  fsync fd = do r ← syscall_cp1 svc sys_fsync (sign_extend fd); returned r

  unfoldable pub fdatasync : ℕ → Call K ℕ
  fdatasync fd = do r ← syscall_cp1 svc sys_fdatasync (sign_extend fd); returned r

  unfoldable pub read : ℕ → ℕ → ℕ → Call K ℕ
  read fd buf count = do r ← syscall_cp3 svc sys_read (sign_extend fd) buf count; ret r

  unfoldable pub write : ℕ → ℕ → ℕ → Call K ℕ
  write fd buf count = do r ← syscall_cp3 svc sys_write (sign_extend fd) buf count; ret r

  unfoldable pub close : ℕ → Call K ℕ
  close fd = do
    r ← syscall_cp1 svc sys_close (sign_extend fd)
    if r == neg eintr then value 0 else returned r

  -- __lseek, and lseek, which calls it.
  unfoldable pub lseek : ℕ → ℕ → ℕ → Call K ℕ
  lseek fd offset whence = do
    r ← syscall3 svc sys_lseek (sign_extend fd) offset (sign_extend whence)
    ret r
