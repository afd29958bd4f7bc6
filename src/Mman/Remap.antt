-- ===== src/Mman/Remap.antt =====
-- mremap of crates/mytilus-mman/src/lib.rs: the check in front of the system call, and the answer.
use mytilus.Base.{
  ℕ, ◌-◌, ◌^◌, ◌<◌, ◌≤◌, ◌≡◌, ◌⊎◌, inl, inr, leb, List, [], ◌∷◌, arith, refl, Bool-cases,
}
use mytilus.Sys.Numbers.{sys_mremap}
use mytilus.Sys.{enomem, Machine, sign_extend, set_errno, syscall5}
use mytilus.Sys.Errors.{IsError, error_number, answered_cases, ret_error, ret_value}
use mytilus.Mman.{map_failed, ptrdiff_max, mremap}

module _ {K : Type 0} (svc : ℕ → List ℕ → K → ℕ × K)
    (old_addr old_len new_len flags new_addr : ℕ) where
  -- The answer of the kernel, and its state behind it.
  abbrev pub remapped : Machine K → ℕ × K
  remapped p =
      svc sys_mremap (old_addr ∷ old_len ∷ new_len ∷ sign_extend flags ∷ new_addr ∷ []) p.kernel

  -- Where the answer of the kernel is a 64-bit word, mremap to a length of 2 ^ 63 - 1 or more is
  -- MAP_FAILED with ENOMEM, without asking the kernel. Else an error of the kernel is MAP_FAILED with
  -- its number in errno, and any other answer is the result, with errno left alone.
  pub mremap_outcomes :
      (p : Machine K)
      → (remapped p).0 < 2 ^ 64
      → ((2 ^ 63 - 1 ≤ new_len)
          × (mremap svc old_addr old_len new_len flags new_addr p
              ≡ (map_failed, record p { errno = enomem })))
        ⊎ ((new_len < 2 ^ 63 - 1)
            × IsError (remapped p).0
            × (mremap svc old_addr old_len new_len flags new_addr p ≡ (
              map_failed,
              record p { kernel = (remapped p).1; errno = error_number (remapped p).0 },
            )))
        ⊎ ((new_len < 2 ^ 63 - 1)
            × ((remapped p).0 < 2 ^ 64 - 4096)
            × (mremap svc old_addr old_len new_len flags new_addr p
                ≡ ((remapped p).0, record p { kernel = (remapped p).1 })))
  unfolding mremap syscall5 set_errno
  mremap_outcomes p small = elim (Bool-cases (leb ptrdiff_max new_len)) [
    | inl long ↦ inl (ground (arith, long), rw long refl)
    | inr short ↦
        let fits : new_len < 2 ^ 63 - 1 = ground (arith, short) in
        inr (elim (answered_cases (remapped p).0 small) [
          | inl bad ↦ inl (fits, bad, rw short (ret_error (remapped p).0 _ bad))
          | inr good ↦ inr (fits, good, rw short (ret_value (remapped p).0 _ good))
        ])
  ]
