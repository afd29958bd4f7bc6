-- ===== src/Fcntl/Control.antt =====
-- fcntl of crates/mytilus-fcntl/src/lib.rs: the argument that reaches the kernel, and the answer.
use mytilus.Base.{
  ℕ, ◌-◌, ◌%◌, ◌^◌, ◌<◌, ◌≡◌, ◌⊎◌, inl, inr, Bool, true, false, ◌==◌, if◌then◌else◌, List, [], ◌∷◌,
  bit_or, refl, ◌∙◌,
}
use mytilus.Sys.Numbers.{sys_fcntl}
use mytilus.Sys.{Machine, ◌>>=◌, sign_extend, returned, syscall3, syscall_cp3}
use mytilus.Sys.Errors.{IsError, error_number, answered_cases, returned_error, returned_value}
use mytilus.Fcntl.{o_largefile, f_setfl, f_setlkw, fcntl}

-- The three registers of the call, and with F_SETLKW, which can be cancelled, three more.
abbrev pub control : ℕ → ℕ → ℕ → List ℕ
control fd cmd arg =
    sign_extend fd
    ∷ sign_extend cmd
    ∷ (if cmd == f_setfl then bit_or arg o_largefile else arg)
    ∷ (if cmd == f_setlkw then 0 ∷ 0 ∷ 0 ∷ [] else [])

module _ {K : Type 0} (svc : ℕ → List ℕ → K → ℕ × K) (fd cmd arg : ℕ) where
  -- The answer of the kernel, and its state behind it.
  abbrev pub controlled : Machine K → ℕ × K
  controlled p = svc sys_fcntl (control fd cmd arg) p.kernel

  one_call :
      (p : Machine K)
      → fcntl svc fd cmd arg p ≡ returned (controlled p).0 (record p { kernel = (controlled p).1 })
  unfolding fcntl syscall3 syscall_cp3
  one_call p =
      let arg' = if cmd == f_setfl then bit_or arg o_largefile else arg in
      let call : Bool → (ℕ × Machine K) = λ b.
        ((if b
              then syscall_cp3 svc sys_fcntl (sign_extend fd) (sign_extend cmd) arg'
              else syscall3 svc sys_fcntl (sign_extend fd) (sign_extend cmd) arg')
            >>= λ r. returned r)
          p in
      let answer : Bool → (ℕ × K) = λ b.
        svc sys_fcntl (sign_extend fd ∷ sign_extend cmd ∷ arg' ∷ (if b then 0 ∷ 0 ∷ 0 ∷ [] else []))
          p.kernel in
      let outcome : Bool → (ℕ × Machine K) =
        λ b. returned (answer b).0 (record p { kernel = (answer b).1 }) in
      let same : (b : Bool) → call b ≡ outcome b =
        λ b. elim b as (λ c. call c ≡ outcome c) [ true ↦ refl | false ↦ refl ] in
      same (cmd == f_setlkw)

  -- Where the answer of the kernel is a 64-bit word, fcntl makes one system call, with O_LARGEFILE added
  -- to the argument of F_SETFL and any other argument as it is; an error is -1 with its number in
  -- errno, and any other answer is the result, cut to an int, with errno left alone.
  pub fcntl_outcomes :
      (p : Machine K)
      → (controlled p).0 < 2 ^ 64
      → (IsError (controlled p).0
          × (fcntl svc fd cmd arg p ≡ (
            2 ^ 32 - 1,
            record p { kernel = (controlled p).1; errno = error_number (controlled p).0 },
          )))
        ⊎ (((controlled p).0 < 2 ^ 64 - 4096)
            × (fcntl svc fd cmd arg p
                ≡ ((controlled p).0 % 2 ^ 32, record p { kernel = (controlled p).1 })))
  fcntl_outcomes p small = elim (answered_cases (controlled p).0 small) [
    | inl bad ↦ inl (bad, one_call p ∙ returned_error (controlled p).0 _ bad)
    | inr good ↦ inr (good, one_call p ∙ returned_value (controlled p).0 _ good)
  ]
