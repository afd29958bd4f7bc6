-- ===== src/Wrappers.antt =====
-- The wrappers of crates/mytilus-unistd, -mman, -time and -process that do nothing else than hand
-- their arguments to the kernel: which call each makes, and how it answers.
use mytilus.Base.{ℕ, ◌-◌, ◌%◌, ◌^◌, ◌<◌, ◌≡◌, ◌⊎◌, inl, inr, List, [], ◌∷◌}
use mytilus.Sys.{
  Machine, sign_extend, ret, returned, syscall0, syscall1, syscall2, syscall3, syscall_cp1,
  syscall_cp3, syscall_cp4,
}
use mytilus.Sys.Errors.{
  IsError, error_number, answered_cases, ret_error, ret_value, returned_error, returned_value,
}
use mytilus.Time.{clock_gettime, clock_settime, clock_getres}
use mytilus.Unistd.{pause, dup, dup3, fsync, fdatasync, read, write, lseek}
use mytilus.Mman.{munmap, mprotect, msync, madvise, mincore, mlock, munlock, mlockall, munlockall}
use mytilus.Process.{getsid, getpgid, setpgid, setsid, kill, sched_yield}

-- The answer of the kernel as a result: an error is -1 with its number in errno, and any other
-- answer is the result, with errno left alone. `minus_one` is -1 and `result` the answer as the
-- result's type has them.
abbrev Answers : {K : Type 0} → ℕ × K → Machine K → ℕ → ℕ → ℕ × Machine K → Type 0
Answers (r, k) p minus_one result outcome =
    (IsError r × (outcome ≡ (minus_one, record p { kernel = k; errno = error_number r })))
    ⊎ ((r < 2 ^ 64 - 4096) × (outcome ≡ (result, record p { kernel = k })))

module _ {K : Type 0} (svc : ℕ → List ℕ → K → ℕ × K)
    (words : (n : ℕ) (args : List ℕ) (k : K) → (svc n args k).0 < 2 ^ 64) (p : Machine K) where
  -- One system call with the number and the registers given, and the result a c_int.
  abbrev pub Forwards : (ℕ × Machine K) → ℕ → List ℕ → Type 0
  Forwards outcome n args =
      Answers (svc n args p.kernel) p (2 ^ 32 - 1) ((svc n args p.kernel).0 % 2 ^ 32) outcome

  -- The same with a result of 64 bits.
  abbrev pub ForwardsWord : (ℕ × Machine K) → ℕ → List ℕ → Type 0
  ForwardsWord outcome n args =
      Answers (svc n args p.kernel) p (2 ^ 64 - 1) (svc n args p.kernel).0 outcome

  returned-Forwards :
      (n : ℕ) (args : List ℕ)
      → Forwards
          (returned (svc n args p.kernel).0 (record p { kernel = (svc n args p.kernel).1 }))
          n
          args
  returned-Forwards n args =
      let q : Machine K = record p { kernel = (svc n args p.kernel).1 } in
      elim (answered_cases (svc n args p.kernel).0 (words n args p.kernel)) [
        | inl bad ↦ inl (bad, returned_error (svc n args p.kernel).0 q bad)
        | inr good ↦ inr (good, returned_value (svc n args p.kernel).0 q good)
      ]

  ret-ForwardsWord :
      (n : ℕ) (args : List ℕ)
      → ForwardsWord
          (ret (svc n args p.kernel).0 (record p { kernel = (svc n args p.kernel).1 }))
          n
          args
  ret-ForwardsWord n args =
      let q : Machine K = record p { kernel = (svc n args p.kernel).1 } in
      elim (answered_cases (svc n args p.kernel).0 (words n args p.kernel)) [
        | inl bad ↦ inl (bad, ret_error (svc n args p.kernel).0 q bad)
        | inr good ↦ inr (good, ret_value (svc n args p.kernel).0 q good)
      ]

  -- Calls on descriptors; a cancellation point sets all six registers.
  abbrev pub DescriptorCalls : ℕ → ℕ → ℕ → Type 0
  DescriptorCalls a b c =
      Forwards (dup svc a p) 23 (sign_extend a ∷ [])
      × Forwards (dup3 svc a b c p) 24 (sign_extend a ∷ sign_extend b ∷ sign_extend c ∷ [])
      × Forwards (fsync svc a p) 82 (sign_extend a ∷ 0 ∷ 0 ∷ 0 ∷ 0 ∷ 0 ∷ [])
      × Forwards (fdatasync svc a p) 83 (sign_extend a ∷ 0 ∷ 0 ∷ 0 ∷ 0 ∷ 0 ∷ [])
      × Forwards (pause svc p) 73 (0 ∷ 0 ∷ 0 ∷ 0 ∷ 0 ∷ 0 ∷ [])
      × ForwardsWord (read svc a b c p) 63 (sign_extend a ∷ b ∷ c ∷ 0 ∷ 0 ∷ 0 ∷ [])
      × ForwardsWord (write svc a b c p) 64 (sign_extend a ∷ b ∷ c ∷ 0 ∷ 0 ∷ 0 ∷ [])
      × ForwardsWord (lseek svc a b c p) 62 (sign_extend a ∷ b ∷ sign_extend c ∷ [])

  descriptor_calls : (a b c : ℕ) → DescriptorCalls a b c
  unfolding dup dup3 fsync fdatasync pause read write lseek syscall1 syscall3 syscall_cp1
      syscall_cp3 syscall_cp4
  descriptor_calls a b c = (
    returned-Forwards _ _,
    returned-Forwards _ _,
    returned-Forwards _ _,
    returned-Forwards _ _,
    returned-Forwards _ _,
    ret-ForwardsWord _ _,
    ret-ForwardsWord _ _,
    ret-ForwardsWord _ _,
  )

  -- Calls on mappings.
  abbrev pub MappingCalls : ℕ → ℕ → ℕ → Type 0
  MappingCalls a b c =
      Forwards (munmap svc a b p) 215 (a ∷ b ∷ [])
      × Forwards (mprotect svc a b c p) 226 (a ∷ b ∷ sign_extend c ∷ [])
      × Forwards (msync svc a b c p) 227 (a ∷ b ∷ sign_extend c ∷ 0 ∷ 0 ∷ 0 ∷ [])
      × Forwards (madvise svc a b c p) 233 (a ∷ b ∷ sign_extend c ∷ [])
      × Forwards (mincore svc a b c p) 232 (a ∷ b ∷ c ∷ [])
      × Forwards (mlock svc a b p) 228 (a ∷ b ∷ [])
      × Forwards (munlock svc a b p) 229 (a ∷ b ∷ [])
      × Forwards (mlockall svc a p) 230 (sign_extend a ∷ [])
      × Forwards (munlockall svc p) 231 []

  mapping_calls : (a b c : ℕ) → MappingCalls a b c
  unfolding munmap mprotect msync madvise mincore mlock munlock mlockall munlockall syscall0
      syscall1 syscall2 syscall3 syscall_cp3
  mapping_calls a b c = (
    returned-Forwards _ _,
    returned-Forwards _ _,
    returned-Forwards _ _,
    returned-Forwards _ _,
    returned-Forwards _ _,
    returned-Forwards _ _,
    returned-Forwards _ _,
    returned-Forwards _ _,
    returned-Forwards _ _,
  )

  -- Calls on processes and clocks.
  abbrev pub ProcessCalls : ℕ → ℕ → ℕ → Type 0
  ProcessCalls a b c =
      Forwards (getsid svc a p) 156 (sign_extend a ∷ [])
      × Forwards (getpgid svc a p) 155 (sign_extend a ∷ [])
      × Forwards (setpgid svc a b p) 154 (sign_extend a ∷ sign_extend b ∷ [])
      × Forwards (setsid svc p) 157 []
      × Forwards (kill svc a b p) 129 (sign_extend a ∷ sign_extend b ∷ [])
      × Forwards (sched_yield svc p) 124 []
      × Forwards (clock_gettime svc a b p) 113 (sign_extend a ∷ b ∷ [])
      × Forwards (clock_settime svc a b p) 112 (sign_extend a ∷ b ∷ [])
      × Forwards (clock_getres svc a b p) 114 (sign_extend a ∷ b ∷ [])

  process_calls : (a b c : ℕ) → ProcessCalls a b c
  unfolding getsid getpgid setpgid setsid kill sched_yield clock_gettime clock_settime clock_getres
      syscall0 syscall1 syscall2
  process_calls a b c = (
    returned-Forwards _ _,
    returned-Forwards _ _,
    returned-Forwards _ _,
    returned-Forwards _ _,
    returned-Forwards _ _,
    returned-Forwards _ _,
    returned-Forwards _ _,
    returned-Forwards _ _,
    returned-Forwards _ _,
  )

  -- The 26 wrappers each make one system call, with the number and the registers that the three
  -- lists name, where a c_int is sign-extended and a pointer or a size is handed on as it is. Where
  -- every answer of the kernel is a 64-bit word, an error of the kernel is -1 with its number in
  -- errno, and any other answer is the result, cut to the width of the result's type, with errno
  -- left alone.
  pub wrappers_forward :
      (a b c : ℕ) → DescriptorCalls a b c × MappingCalls a b c × ProcessCalls a b c
  wrappers_forward a b c = (descriptor_calls a b c, mapping_calls a b c, process_calls a b c)
