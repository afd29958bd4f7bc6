-- ===== src/Time.antt =====
-- crates/mytilus-time/src/lib.rs: the clocks and the sleeps.
-- `peek a` and `poke a v` read and write the 64-bit word at an address in the memory of the process.
-- A struct timespec is its seconds at an address and its nanoseconds 8 bytes behind them. A local
-- variable of a function is an address that is an argument, `ts`. A pointer that may be NULL is an
-- Option where the code looks at it.
use mytilus.Base.{ℕ, ◌+◌, ◌/◌, ◌^◌, Bool, ◌==◌, if◌then◌else◌, List, [], ◌∷◌, Option, none, some}
use mytilus.Sys.Numbers.{
  sys_clock_getres, sys_clock_gettime, sys_clock_nanosleep, sys_clock_settime,
}
use mytilus.Sys.{
  einval, Machine, Call, ◌>>=◌, value, neg, sign_extend, as_c_int, returned, syscall2, syscall_cp4,
}
use mytilus.IntOps.{negative, magnitude, with_sign}
pub mod Words
pub mod Day
pub mod Sleeping

abbrev pub clock_realtime : ℕ
clock_realtime = 0

abbrev pub clock_thread_cputime_id : ℕ
clock_thread_cputime_id = 3

module _ {K : Type 0} (svc : ℕ → List ℕ → K → ℕ × K) where
  -- __clock_gettime, and clock_gettime, which calls it.
  unfoldable pub clock_gettime : ℕ → ℕ → Call K ℕ
  clock_gettime clk ts = do r ← syscall2 svc sys_clock_gettime (sign_extend clk) ts; returned r

  unfoldable pub clock_settime : ℕ → ℕ → Call K ℕ
  clock_settime clk ts = do r ← syscall2 svc sys_clock_settime (sign_extend clk) ts; returned r

  unfoldable pub clock_getres : ℕ → ℕ → Call K ℕ
  clock_getres clk ts = do r ← syscall2 svc sys_clock_getres (sign_extend clk) ts; returned r

  -- The error number is the result, not errno.
  unfoldable pub clock_nanosleep : ℕ → ℕ → ℕ → ℕ → Call K ℕ
  clock_nanosleep clk flags req rem =
      let sleeps : Call K ℕ = do
        r ← syscall_cp4 svc sys_clock_nanosleep (sign_extend clk) (sign_extend flags) req rem
        value (as_c_int (neg r))
      in if clk == clock_thread_cputime_id then value einval else sleeps

  unfoldable pub nanosleep : ℕ → ℕ → Call K ℕ
  unfolding clock_nanosleep
  nanosleep req rem = do
    positive ← clock_nanosleep clock_realtime 0 req rem
    returned (neg (sign_extend positive))

  module _ (peek : ℕ → K → ℕ) (poke : ℕ → ℕ → K → K) where
    abbrev pub read_word : ℕ → Call K ℕ
    read_word a p = (peek a p.kernel, p)

    abbrev pub write_word : ℕ → ℕ → Call K (Unit {0})
    write_word a v p = (tt, record p { kernel = poke a v p.kernel })

    -- `ts = timespec { tv_sec: sec, tv_nsec: nsec }`
    abbrev pub write_timespec : ℕ → ℕ → ℕ → Call K (Unit {0})
    write_timespec ts sec nsec = do _ ← write_word ts sec; write_word (ts + 8) nsec

    -- `tv_nsec / 1000` on i64.
    abbrev pub micros : ℕ → ℕ
    micros nsec = with_sign (2 ^ 63) (negative (2 ^ 63) nsec) (magnitude (2 ^ 63) nsec / 1000)

    unfoldable pub gettimeofday : ℕ → Option ℕ → Call K ℕ
    gettimeofday ts none = value 0
    gettimeofday ts (some tv) = do
      _ ← write_timespec ts 0 0
      _ ← clock_gettime clock_realtime ts
      sec ← read_word ts
      _ ← write_word tv sec
      nsec ← read_word (ts + 8)
      _ ← write_word (tv + 8) (micros nsec)
      value 0

    unfoldable pub time : ℕ → Option ℕ → Call K ℕ
    time ts t = do
      _ ← write_timespec ts 0 0
      _ ← clock_gettime clock_realtime ts
      sec ← read_word ts
      let stored : Call K (Unit {0}) = elim t [ none ↦ value tt | some a ↦ write_word a sec ]
      _ ← stored
      read_word ts
