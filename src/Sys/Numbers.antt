-- ===== src/Sys/Numbers.antt =====
-- crates/mytilus-sys/src/nr.rs: the numbers of the system calls that the wrappers make.
use mytilus.Base.{ℕ}

abbrev pub sys_munmap : ℕ
sys_munmap = 215

abbrev pub sys_mremap : ℕ
sys_mremap = 216

abbrev pub sys_mmap : ℕ
sys_mmap = 222

abbrev pub sys_mprotect : ℕ
sys_mprotect = 226

abbrev pub sys_msync : ℕ
sys_msync = 227

abbrev pub sys_mlock : ℕ
sys_mlock = 228

abbrev pub sys_munlock : ℕ
sys_munlock = 229

abbrev pub sys_mlockall : ℕ
sys_mlockall = 230

abbrev pub sys_munlockall : ℕ
sys_munlockall = 231

abbrev pub sys_mincore : ℕ
sys_mincore = 232

abbrev pub sys_madvise : ℕ
sys_madvise = 233

abbrev pub sys_clock_settime : ℕ
sys_clock_settime = 112

abbrev pub sys_clock_gettime : ℕ
sys_clock_gettime = 113

abbrev pub sys_clock_getres : ℕ
sys_clock_getres = 114

abbrev pub sys_clock_nanosleep : ℕ
sys_clock_nanosleep = 115

abbrev pub sys_fcntl : ℕ
sys_fcntl = 25

abbrev pub sys_fallocate : ℕ
sys_fallocate = 47

abbrev pub sys_openat : ℕ
sys_openat = 56

abbrev pub sys_close : ℕ
sys_close = 57

abbrev pub sys_fadvise64 : ℕ
sys_fadvise64 = 223

abbrev pub sys_dup : ℕ
sys_dup = 23

abbrev pub sys_dup3 : ℕ
sys_dup3 = 24

abbrev pub sys_lseek : ℕ
sys_lseek = 62

abbrev pub sys_read : ℕ
sys_read = 63

abbrev pub sys_write : ℕ
sys_write = 64

abbrev pub sys_ppoll : ℕ
sys_ppoll = 73

abbrev pub sys_sync : ℕ
sys_sync = 81

abbrev pub sys_fsync : ℕ
sys_fsync = 82

abbrev pub sys_fdatasync : ℕ
sys_fdatasync = 83

abbrev pub sys_sched_yield : ℕ
sys_sched_yield = 124

abbrev pub sys_kill : ℕ
sys_kill = 129

abbrev pub sys_setpgid : ℕ
sys_setpgid = 154

abbrev pub sys_getpgid : ℕ
sys_getpgid = 155

abbrev pub sys_getsid : ℕ
sys_getsid = 156

abbrev pub sys_setsid : ℕ
sys_setsid = 157

abbrev pub sys_getpid : ℕ
sys_getpid = 172

abbrev pub sys_getppid : ℕ
sys_getppid = 173

abbrev pub sys_getuid : ℕ
sys_getuid = 174

abbrev pub sys_geteuid : ℕ
sys_geteuid = 175

abbrev pub sys_getgid : ℕ
sys_getgid = 176

abbrev pub sys_getegid : ℕ
sys_getegid = 177

abbrev pub sys_exit : ℕ
sys_exit = 93

abbrev pub sys_exit_group : ℕ
sys_exit_group = 94
