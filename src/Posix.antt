-- ===== src/Posix.antt =====
-- The posix_ functions of crates/mytilus-fcntl/src/lib.rs and crates/mytilus-mman/src/lib.rs, which return the
-- error number.
use mytilus.Base.{
  ℕ, ◌≡◌, ◌⊎◌, inl, inr, ◌==◌, if◌then◌else◌, List, [], ◌∷◌, arith, refl, ap, Bool-cases,
}
use mytilus.Sys.Numbers.{sys_fadvise64, sys_fallocate, sys_madvise}
use mytilus.Sys.{Machine, neg, as_c_int, sign_extend, syscall3, syscall4}
use mytilus.Sys.Errors.{IsError, error_number}
use mytilus.Fcntl.{posix_fadvise, posix_fallocate}
use mytilus.Mman.{madv_dontneed, posix_madvise}

-- The error number in an answer of the kernel, 0 for 0.
abbrev pub status : ℕ → ℕ
status r = if r == 0 then 0 else error_number r

-- The kernel answers with 0 or with an error.
abbrev pub IsStatus : ℕ → Type 0
IsStatus r = (r ≡ 0) ⊎ IsError r

status-eq : (r : ℕ) → IsStatus r → as_c_int (neg r) ≡ status r
status-eq r h = ground (arith, h)

-- Where the kernel answers with 0 or an error, posix_fadvise and posix_fallocate return 0 or the
-- number of the error, and so does posix_madvise but for MADV_DONTNEED, where it returns 0 without
-- asking the kernel; none of them changes errno.
pub posix_outcomes :
    {K : Type 0} (svc : ℕ → List ℕ → K → ℕ × K) (fd base len advice : ℕ) (p : Machine K)
    → let advised =
        svc sys_fadvise64 (sign_extend fd ∷ base ∷ len ∷ sign_extend advice ∷ []) p.kernel in
      let allocated = svc sys_fallocate (sign_extend fd ∷ 0 ∷ base ∷ len ∷ []) p.kernel in
      let mapped = svc sys_madvise (base ∷ len ∷ sign_extend advice ∷ []) p.kernel in
      IsStatus advised.0
      → IsStatus allocated.0
      → IsStatus mapped.0
      → (posix_fadvise svc fd base len advice p
          ≡ (status advised.0, record p { kernel = advised.1 }))
        × (posix_fallocate svc fd base len p
            ≡ (status allocated.0, record p { kernel = allocated.1 }))
        × (posix_madvise svc base len advice p ≡ (
            if advice == madv_dontneed
            then (0, p)
            else (status mapped.0, record p { kernel = mapped.1 })))
unfolding posix_fadvise posix_fallocate posix_madvise syscall3 syscall4
posix_outcomes svc fd base len advice p first second third =
    let advised =
      svc sys_fadvise64 (sign_extend fd ∷ base ∷ len ∷ sign_extend advice ∷ []) p.kernel in
    let allocated = svc sys_fallocate (sign_extend fd ∷ 0 ∷ base ∷ len ∷ []) p.kernel in
    let mapped = svc sys_madvise (base ∷ len ∷ sign_extend advice ∷ []) p.kernel in
    (
      ap (λ (n : ℕ). (n, record p { kernel = advised.1 })) (status-eq advised.0 first),
      ap (λ (n : ℕ). (n, record p { kernel = allocated.1 })) (status-eq allocated.0 second),
      elim (Bool-cases (advice == madv_dontneed)) [
        | inl unneeded ↦ rw unneeded refl
        | inr other ↦
            rw other
              (ap (λ (n : ℕ). (n, record p { kernel = mapped.1 })) (status-eq mapped.0 third))
      ],
    )
