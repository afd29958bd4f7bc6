-- ===== src/Process.antt =====
-- crates/mytilus-process/src/lib.rs: process, group and user numbers, kill, sched_yield and the end
-- of the process. The calls that cannot fail do not go through ret.
use mytilus.Base.{ℕ, zero, suc, List, [], ◌∷◌, ◌≡◌, refl}
use mytilus.Memory.{Run, out_of_fuel}
use mytilus.Sys.Numbers.{
  sys_exit, sys_exit_group, sys_getegid, sys_geteuid, sys_getgid, sys_getpgid, sys_getpid,
  sys_getppid, sys_getsid, sys_getuid, sys_kill, sys_sched_yield, sys_setpgid, sys_setsid,
}
use mytilus.Sys.{
  Machine, returned, Call, ◌>>=◌, value, sign_extend, as_c_int, syscall0, syscall1, syscall2,
}

module _ {K : Type 0} (svc : ℕ → List ℕ → K → ℕ × K) where
  abbrev raw : ℕ → Call K ℕ
  raw number = do r ← syscall0 svc number; value (as_c_int r)

  unfoldable pub getpid : Call K ℕ
  getpid = raw sys_getpid

  unfoldable pub getppid : Call K ℕ
  getppid = raw sys_getppid

  unfoldable pub getuid : Call K ℕ
  getuid = raw sys_getuid

  unfoldable pub geteuid : Call K ℕ
  geteuid = raw sys_geteuid

  unfoldable pub getgid : Call K ℕ
  getgid = raw sys_getgid

  unfoldable pub getegid : Call K ℕ
  getegid = raw sys_getegid

  unfoldable pub getsid : ℕ → Call K ℕ
  getsid pid = do r ← syscall1 svc sys_getsid (sign_extend pid); returned r

  unfoldable pub getpgid : ℕ → Call K ℕ
  getpgid pid = do r ← syscall1 svc sys_getpgid (sign_extend pid); returned r

  unfoldable pub getpgrp : Call K ℕ
  getpgrp = do r ← syscall1 svc sys_getpgid 0; value (as_c_int r)

  unfoldable pub setpgid : ℕ → ℕ → Call K ℕ
  setpgid pid pgid = do
    r ← syscall2 svc sys_setpgid (sign_extend pid) (sign_extend pgid)
    returned r

  unfoldable pub setsid : Call K ℕ
  setsid = do r ← syscall0 svc sys_setsid; returned r

  unfoldable pub kill : ℕ → ℕ → Call K ℕ
  kill pid sig = do r ← syscall2 svc sys_kill (sign_extend pid) (sign_extend sig); returned r

  unfoldable pub sched_yield : Call K ℕ
  sched_yield = do r ← syscall0 svc sys_sched_yield; returned r

  -- `loop { syscall1(SYS_exit, status) }`, which is out of fuel where the kernel lets it go on.
  pub exit_loop : ℕ → ℕ → Call K (Run ⊥)
  exit_loop zero status = value out_of_fuel
  exit_loop (suc f) status = do _ ← syscall1 svc sys_exit (sign_extend status); exit_loop f status

  -- _Exit, and _exit, which calls it. They do not return, so that no value is a result.
  pub exit : ℕ → ℕ → Call K (Run ⊥)
  exit f status = do _ ← syscall1 svc sys_exit_group (sign_extend status); exit_loop f status

  -- The rounds of the loop as steps of the kernel.
  abbrev asked_to_exit : ℕ → ℕ → K → K
  asked_to_exit status zero k = k
  asked_to_exit status (suc f) k = asked_to_exit status f (svc 93 (sign_extend status ∷ []) k).1

  exit_loop_lem :
      (f status : ℕ) (p : Machine K)
      → exit_loop f status p ≡ (out_of_fuel, record p { kernel = asked_to_exit status f p.kernel })
  unfolding exit_loop syscall1
  exit_loop_lem zero status p = refl
  exit_loop_lem (suc f) status p =
      exit_loop_lem f status (record p { kernel = (svc 93 (sign_extend status ∷ []) p.kernel).1 })

  -- A kernel that answers makes _Exit ask for the end of the process once and then for the end of the
  -- thread for ever, with errno left alone.
  exit_lem :
      (f status : ℕ) (p : Machine K)
      → exit f status p ≡ (
        out_of_fuel,
        record p { kernel = asked_to_exit status f (svc 94 (sign_extend status ∷ []) p.kernel).1 },
      )
  unfolding exit syscall1
  exit_lem f status p =
      exit_loop_lem f status (record p { kernel = (svc 94 (sign_extend status ∷ []) p.kernel).1 })
