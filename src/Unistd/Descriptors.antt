-- ===== src/Unistd/Descriptors.antt =====
-- close and dup2 beyond what the kernel answers.
use mytilus.Base.{
  ℕ, ◌-◌, ◌%◌, ◌^◌, ◌<◌, ◌≡◌, ◌≢◌, ◌⊎◌, inl, inr, Bool, not, ◌==◌, if◌then◌else◌, List, [], ◌∷◌,
  arith, Bool-cases, true, false, ◌∙◌, ap,
}
use mytilus.Sys.Numbers.{sys_close, sys_fcntl}
use mytilus.Sys.{
  eintr, Machine, Call, value, neg, sign_extend, is_err, returned, syscall2, syscall3, syscall_cp1,
}
use mytilus.Sys.Errors.{
  answered_cases, IsError, error_number, returned_error, returned_value, is_err_error, is_err_value,
}
use mytilus.Unistd.{dup2, dup3, close}

-- close behind the system call.
abbrev closed : {K : Type 0} → ℕ → Call K ℕ
closed r = if r == neg eintr then value 0 else returned r

closed_outcomes :
    {K : Type 0} (r : ℕ) (q : Machine K)
    → r < 2 ^ 64
    → ((r ≡ 2 ^ 64 - eintr) × (closed r q ≡ (0, q)))
      ⊎ (IsError r
          × (error_number r ≢ eintr)
          × (closed r q ≡ (2 ^ 32 - 1, record q { errno = error_number r })))
      ⊎ ((r < 2 ^ 64 - 4096) × (closed r q ≡ (r % 2 ^ 32, q)))
closed_outcomes r q small = elim (Bool-cases (r == neg eintr)) [
  | inl h ↦ let e : r ≡ 2 ^ 64 - 4 = ground (arith, h) in inl (e, ground (arith, e))
  | inr h ↦
      let plain : closed r q ≡ returned r q = ap (λ b. (if b then value 0 else returned r) q) h in
      inr (elim (answered_cases r small) [
        | inl bad ↦ inl (bad, (λ e. ground (arith, h, e, bad)), plain ∙ returned_error r q bad)
        | inr good ↦ inr (good, plain ∙ returned_value r q good)
      ])
]

-- dup2 of a descriptor with itself, behind the system call.
abbrev same_descriptor : {K : Type 0} → ℕ → ℕ → Call K ℕ
same_descriptor old r = if not (is_err r) then value old else returned r

same_descriptor-error :
    {K : Type 0} (old r : ℕ) (q : Machine K)
    → IsError r
    → same_descriptor old r q ≡ (2 ^ 32 - 1, record q { errno = error_number r })
same_descriptor-error old r q h =
    ap (λ b. (if not b then value old else returned r) q) (is_err_error r h) ∙ returned_error r q h

same_descriptor-value :
    {K : Type 0} (old r : ℕ) (q : Machine K)
    → r < 2 ^ 64 - 4096
    → same_descriptor old r q ≡ (old, q)
same_descriptor-value old r q h =
    ap (λ b. (if not b then value old else returned r) q) (is_err_value r h)

module _ {K : Type 0} (svc : ℕ → List ℕ → K → ℕ × K) (p : Machine K) where
  -- Where the answer of the kernel is a 64-bit word, close of a descriptor ends in one of three
  -- ways: an interrupted call counts as a success and leaves errno alone, any other error is -1
  -- with its number in errno, which is not EINTR, and everything else is the answer as a c_int.
  pub close_outcomes :
      (fd : ℕ)
      → let (r, k) = svc sys_close (sign_extend fd ∷ 0 ∷ 0 ∷ 0 ∷ 0 ∷ 0 ∷ []) p.kernel in
        r < 2 ^ 64
        → ((r ≡ 2 ^ 64 - eintr) × (close svc fd p ≡ (0, record p { kernel = k })))
          ⊎ (IsError r
              × (error_number r ≢ eintr)
              × (close svc fd p ≡ (2 ^ 32 - 1, record p { kernel = k; errno = error_number r })))
          ⊎ ((r < 2 ^ 64 - 4096) × (close svc fd p ≡ (r % 2 ^ 32, record p { kernel = k })))
  unfolding close syscall_cp1
  close_outcomes fd small =
      closed_outcomes (svc sys_close (sign_extend fd ∷ 0 ∷ 0 ∷ 0 ∷ 0 ∷ 0 ∷ []) p.kernel).0
        (record p { kernel = (svc sys_close (sign_extend fd ∷ 0 ∷ 0 ∷ 0 ∷ 0 ∷ 0 ∷ []) p.kernel).1 })
        small

  -- dup2 of different descriptors is dup3 without flags. dup2 of a descriptor with itself asks for
  -- the flags of the descriptor and nothing else; where the answer is a 64-bit word, it returns the
  -- descriptor and leaves errno alone if the kernel knows it, and returns -1 with the number of the
  -- error in errno if the kernel does not.
  pub dup2_outcomes :
      (old new : ℕ)
      → let (r, k) = svc sys_fcntl (sign_extend old ∷ 1 ∷ []) p.kernel in
        r < 2 ^ 64
        → ((old ≢ new) × (dup2 svc old new p ≡ dup3 svc old new 0 p))
          ⊎ ((old ≡ new)
              × (r < 2 ^ 64 - 4096)
              × (dup2 svc old new p ≡ (old, record p { kernel = k })))
          ⊎ ((old ≡ new)
              × IsError r
              × (dup2 svc old new p
                  ≡ (2 ^ 32 - 1, record p { kernel = k; errno = error_number r })))
  unfolding dup2 dup3 syscall2 syscall3
  dup2_outcomes old new small =
      let r = (svc sys_fcntl (sign_extend old ∷ 1 ∷ []) p.kernel).0 in
      let q : Machine K = record p {
        kernel = (svc sys_fcntl (sign_extend old ∷ 1 ∷ []) p.kernel).1;
      } in
      let branches : Bool → (ℕ × Machine K) = λ b.
        (if b
            then (λ x.
                same_descriptor old (svc sys_fcntl (sign_extend old ∷ 1 ∷ []) x.kernel).0
                  (record x { kernel = (svc sys_fcntl (sign_extend old ∷ 1 ∷ []) x.kernel).1 }))
            else dup3 svc old new 0)
          p in
      let step : (b : Bool) → (old == new) ≡ b → dup2 svc old new p ≡ branches b =
        λ b e. ap branches e in
      elim (Bool-cases (old == new)) [
        | inl e ↦
            let e' : old ≡ new = ground (arith, e) in
            inr (elim (answered_cases r small) [
              | inl bad ↦ inr (e', bad, step true e ∙ same_descriptor-error old r q bad)
              | inr good ↦ inl (e', good, step true e ∙ same_descriptor-value old r q good)
            ])
        | inr e ↦ inl ((λ e'. ground (arith, e, e')), step false e)
      ]
