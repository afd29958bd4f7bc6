-- ===== src/Fcntl/Opening.antt =====
-- open, openat and creat: the mode, the answer of the kernel, and the flag close-on-exec.
use mytilus.Base.{
  ℕ, ◌-◌, ◌%◌, ◌^◌, ◌<◌, ◌≡◌, ◌≢◌, ◌⊎◌, inl, inr, Bool, true, false, not, ◌&&◌, ◌==◌, ltb,
  if◌then◌else◌, List, [], ◌∷◌, bit_and, bit_or, arith, refl, ap, ◌∙◌, Bool-cases,
}
use mytilus.Sys.Numbers.{sys_fcntl, sys_openat}
use mytilus.Sys.{Machine, Call, ◌>>=◌, value, sign_extend, returned, syscall3, syscall_cp4}
use mytilus.Sys.Errors.{IsError, error_number, returned_error, returned_value}
use mytilus.Fcntl.{
  o_wronly, o_creat, o_trunc, o_largefile, o_cloexec, at_fdcwd, f_setfd, fd_cloexec, openat_inner,
  wants_mode, openat, open_file, creat,
}

module _ {K : Type 0} (svc : ℕ → List ℕ → K → ℕ × K) (filename mode : ℕ) where
  -- creat is open with O_CREAT, O_WRONLY and O_TRUNC, and open is openat from the current directory.
  pub creat-eq-open :
      (flags : ℕ) (p : Machine K)
      → (creat svc filename mode p
          ≡ open_file svc filename (bit_or (bit_or o_creat o_wronly) o_trunc) mode p)
        × (open_file svc filename flags mode p ≡ openat svc at_fdcwd filename flags mode p)
  unfolding creat open_file openat
  creat-eq-open flags p = (refl, refl)

  module _ (dirfd flags : ℕ) where
    -- The answer of the kernel to openat, and its state behind it.
    abbrev pub opened : Machine K → ℕ × K
    opened p =
        svc sys_openat
          (sign_extend dirfd
            ∷ filename
            ∷ sign_extend (bit_or flags o_largefile)
            ∷ (if wants_mode svc flags then mode else 0)
            ∷ 0
            ∷ 0
            ∷ [])
          p.kernel

    -- Where the kernel answers openat with a descriptor or an error, openat ends in one of three
    -- ways. An error is -1 with its number in errno and no further call. With O_CLOEXEC, a descriptor
    -- is the result and the kernel is asked to set FD_CLOEXEC on it, whatever it answers to that.
    -- Without O_CLOEXEC it is the result and there is no further call. A descriptor leaves errno
    -- alone.
    pub openat_outcomes :
        (p : Machine K)
        → ((opened p).0 < 2 ^ 63) ⊎ IsError (opened p).0
        → (IsError (opened p).0
            × (openat svc dirfd filename flags mode p ≡ (
              2 ^ 32 - 1,
              record p { kernel = (opened p).1; errno = error_number (opened p).0 },
            )))
          ⊎ (((opened p).0 < 2 ^ 63)
              × (bit_and flags o_cloexec ≢ 0)
              × (openat svc dirfd filename flags mode p ≡ (
                (opened p).0 % 2 ^ 32,
                record p {
                  kernel =
                      (svc sys_fcntl ((opened p).0 ∷ f_setfd ∷ fd_cloexec ∷ []) (opened p).1).1;
                },
              )))
          ⊎ (((opened p).0 < 2 ^ 63)
              × (bit_and flags o_cloexec ≡ 0)
              × (openat svc dirfd filename flags mode p
                  ≡ ((opened p).0 % 2 ^ 32, record p { kernel = (opened p).1 })))
    unfolding openat openat_inner syscall3 syscall_cp4
    openat_outcomes p answer =
        let fd = (opened p).0 in
        let q : Machine K = record p { kernel = (opened p).1 } in
        let marks : Call K (Unit {0}) =
          syscall3 svc sys_fcntl fd f_setfd fd_cloexec >>= λ _. value tt in
        let branches : Bool → (ℕ × Machine K) =
          λ b. ((if b then marks else value tt) >>= λ _. returned fd) q in
        elim answer [
          | inr bad ↦
              let plain : (ltb fd (2 ^ 63) && not (bit_and flags o_cloexec == 0)) ≡ false =
                ground (arith, bad) in
              inl (bad, ap branches plain ∙ returned_error fd q bad)
          | inl good ↦
              let low : ltb fd (2 ^ 63) ≡ true = ground (arith, good) in
              let step : (b : Bool)
                  → (bit_and flags o_cloexec == 0) ≡ b
                  → openat svc dirfd filename flags mode p ≡ branches (not b) =
                λ b e.
                  ap (λ c. branches (c && not (bit_and flags o_cloexec == 0))) low
                  ∙ ap (λ c. branches (true && not c)) e in
              inr (elim (Bool-cases (bit_and flags o_cloexec == 0)) [
                | inr wanted ↦ inl (
                  good,
                  (λ e. ground (arith, wanted, e)),
                  step false wanted
                      ∙ returned_value fd
                          (record q {
                            kernel = (svc sys_fcntl (fd ∷ f_setfd ∷ fd_cloexec ∷ []) q.kernel).1;
                          })
                          (omega (arith, good)),
                )
                | inl without ↦ inr (
                  good,
                  ground (arith, without),
                  step true without ∙ returned_value fd q (omega (arith, good)),
                )
              ])
        ]
