-- ===== src/Fcntl/Flags.antt =====
-- The flags of open and openat, crates/mytilus-fcntl/src/lib.rs; a program combines them to a word.
pub mod Modes
use mytilus.Base.{ℕ, Bool, true, false}
use mytilus.Fcntl.{o_wronly, o_creat, o_trunc, o_largefile, o_cloexec, o_tmpfile}

abbrev pub o_rdonly : ℕ
o_rdonly = 0

abbrev pub o_rdwr : ℕ
o_rdwr = 2

abbrev pub o_excl : ℕ
o_excl = 0x80

abbrev pub o_noctty : ℕ
o_noctty = 0x100

abbrev pub o_append : ℕ
o_append = 0x400

abbrev pub o_nonblock : ℕ
o_nonblock = 0x800

abbrev pub o_ndelay : ℕ
o_ndelay = o_nonblock

abbrev pub o_dsync : ℕ
o_dsync = 0x1000

abbrev pub o_sync : ℕ
o_sync = 0x101000

abbrev pub o_rsync : ℕ
o_rsync = 0x101000

abbrev pub o_directory : ℕ
o_directory = 0x4000

abbrev pub o_nofollow : ℕ
o_nofollow = 0x8000

abbrev pub o_async : ℕ
o_async = 0x2000

abbrev pub o_direct : ℕ
o_direct = 0x10000

abbrev pub o_noatime : ℕ
o_noatime = 0x40000

abbrev pub o_path : ℕ
o_path = 0x200000

abbrev pub o_search : ℕ
o_search = o_path

abbrev pub o_exec : ℕ
o_exec = o_path

-- One flag; an access mode is a flag as well.
pub data OpenFlag : Type 0 where
  rdonly : OpenFlag
  wronly : OpenFlag
  rdwr : OpenFlag
  create : OpenFlag
  excl : OpenFlag
  noctty : OpenFlag
  trunc : OpenFlag
  append : OpenFlag
  nonblock : OpenFlag
  ndelay : OpenFlag
  dsync : OpenFlag
  synchronous : OpenFlag
  rsync : OpenFlag
  directory : OpenFlag
  nofollow : OpenFlag
  cloexec : OpenFlag
  async : OpenFlag
  direct : OpenFlag
  largefile : OpenFlag
  noatime : OpenFlag
  path : OpenFlag
  tmpfile : OpenFlag
  search : OpenFlag
  execute : OpenFlag

unfoldable pub flag_value : OpenFlag → ℕ
flag_value rdonly = o_rdonly
flag_value wronly = o_wronly
flag_value rdwr = o_rdwr
flag_value create = o_creat
flag_value excl = o_excl
flag_value noctty = o_noctty
flag_value trunc = o_trunc
flag_value append = o_append
flag_value nonblock = o_nonblock
flag_value ndelay = o_ndelay
flag_value dsync = o_dsync
flag_value synchronous = o_sync
flag_value rsync = o_rsync
flag_value directory = o_directory
flag_value nofollow = o_nofollow
flag_value cloexec = o_cloexec
flag_value async = o_async
flag_value direct = o_direct
flag_value largefile = o_largefile
flag_value noatime = o_noatime
flag_value path = o_path
flag_value tmpfile = o_tmpfile
flag_value search = o_search
flag_value execute = o_exec

-- The flags with which the caller passes a mode.
unfoldable pub takes_mode : OpenFlag → Bool
takes_mode create = true
takes_mode tmpfile = true
takes_mode f = false

unfoldable pub is_cloexec : OpenFlag → Bool
is_cloexec cloexec = true
is_cloexec f = false
