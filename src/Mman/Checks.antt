-- ===== src/Mman/Checks.antt =====
-- mmap: the checks in front of the system call, and the error it corrects.
use mytilus.Base.{
  ℕ, ◌-◌, ◌%◌, ◌^◌, ◌<◌, ◌≤◌, ◌≡◌, ◌≢◌, ◌⊎◌, inl, inr, Bool, true, false, not, ◌&&◌, ◌==◌, leb,
  if◌then◌else◌, List, [], ◌∷◌, bit_and, bit_and_mask, arith, refl, ap, sym, ◌∙◌, Bool-cases,
}
use mytilus.Sys.Numbers.{sys_mmap}
use mytilus.Sys.{eperm, enomem, einval, Machine, Call, neg, sign_extend, set_errno, ret, syscall6}
use mytilus.Sys.Errors.{IsError, answered_cases, error_number, ret_error, ret_value}
use mytilus.Mman.{map_failed, map_fixed, map_anon, ptrdiff_max, off_mask, failed, mmap}

-- The error number of mmap for the error r of the kernel: EPERM is ENOMEM where the caller leaves the
-- address of an anonymous mapping to the kernel.
abbrev pub reported : ℕ → ℕ → ℕ → ℕ
reported addr flags r =
    if error_number r == eperm
      && (addr == 0 && not (bit_and flags map_anon == 0) && bit_and flags map_fixed == 0)
    then enomem
    else error_number r

page_offset : (offset : ℕ) → bit_and offset off_mask ≡ offset % 4096
page_offset offset = bit_and_mask 12 offset

and_false : (a : Bool) → (a && false) ≡ false
and_false true = refl
and_false false = refl

-- What mmap hands to ret, where b says that the correction applies.
abbrev corrected : Bool → ℕ → ℕ
corrected b r = if r == neg eperm && b then neg enomem else r

corrected-error :
    {K : Type 0} (b : Bool) (r : ℕ) (q : Machine K)
    → IsError r
    → ret (corrected b r) q ≡ (
      map_failed,
      record q { errno = if error_number r == eperm && b then enomem else error_number r },
    )
corrected-error true r q h = elim (Bool-cases (r == neg eperm)) [
  | inl e ↦
      let e' : r ≡ 2 ^ 64 - 1 = ground (arith, e) in
      rw e' (ret_error (2 ^ 64 - 12) q (omega arith, omega arith))
  | inr e ↦
      let same : corrected true r ≡ r = ground (arith, e) in
      let other : (error_number r == eperm) ≡ false = ground (arith, e, h) in
      ap (λ n. ret n q) same
      ∙ ret_error r q h
      ∙ ap (λ c. (map_failed, record q { errno = if c && true then enomem else error_number r }))
          (sym other)
]
corrected-error false r q h =
    ap (λ c. ret (if c then neg enomem else r) q) (and_false (r == neg eperm))
    ∙ ret_error r q h
    ∙ ap (λ c. (map_failed, record q { errno = if c then enomem else error_number r }))
        (sym (and_false (error_number r == eperm)))

corrected-value :
    {K : Type 0} (b : Bool) (r : ℕ) (q : Machine K)
    → r < 2 ^ 64 - 4096
    → ret (corrected b r) q ≡ (r, q)
corrected-value b r q h =
    let other : (r == neg eperm) ≡ false = ground (arith, h) in
    ap (λ c. ret (if c && b then neg enomem else r) q) other ∙ ret_value r q h

module _ {K : Type 0} (svc : ℕ → List ℕ → K → ℕ × K) (addr length prot flags fd offset : ℕ) where
  -- The answer of the kernel, and its state behind it.
  abbrev pub mapped : Machine K → ℕ × K
  mapped p =
      svc sys_mmap
        (addr ∷ length ∷ sign_extend prot ∷ sign_extend flags ∷ sign_extend fd ∷ offset ∷ [])
        p.kernel

  -- Where the answer of the kernel is a 64-bit word, mmap ends in one of four ways. With an offset
  -- that is no multiple of the page size it is MAP_FAILED with EINVAL, and otherwise with a length
  -- of 2 ^ 63 - 1 or more MAP_FAILED with ENOMEM, both without asking the kernel. Else an error of
  -- the kernel is MAP_FAILED with its number in errno, where EPERM is ENOMEM for an anonymous
  -- mapping that is not fixed and has no address, and any other answer is the result, with errno
  -- left alone.
  pub mmap_outcomes :
      (p : Machine K)
      → (mapped p).0 < 2 ^ 64
      → ((offset % 4096 ≢ 0)
          × (mmap svc addr length prot flags fd offset p
              ≡ (map_failed, record p { errno = einval })))
        ⊎ ((offset % 4096 ≡ 0)
            × (2 ^ 63 - 1 ≤ length)
            × (mmap svc addr length prot flags fd offset p
                ≡ (map_failed, record p { errno = enomem })))
        ⊎ ((offset % 4096 ≡ 0)
            × (length < 2 ^ 63 - 1)
            × IsError (mapped p).0
            × (mmap svc addr length prot flags fd offset p ≡ (
              map_failed,
              record p { kernel = (mapped p).1; errno = reported addr flags (mapped p).0 },
            )))
        ⊎ ((offset % 4096 ≡ 0)
            × (length < 2 ^ 63 - 1)
            × ((mapped p).0 < 2 ^ 64 - 4096)
            × (mmap svc addr length prot flags fd offset p
                ≡ ((mapped p).0, record p { kernel = (mapped p).1 })))
  unfolding mmap syscall6 set_errno
  mmap_outcomes p small =
      let free = addr == 0 && not (bit_and flags map_anon == 0) && bit_and flags map_fixed == 0 in
      let maps : Call K ℕ =
        λ x. ret (corrected free (mapped x).0) (record x { kernel = (mapped x).1 }) in
      let branches : Bool → Bool → (ℕ × Machine K) =
        λ b c. (if not b then failed svc einval else if c then failed svc enomem else maps) p in
      let q : Machine K = record p { kernel = (mapped p).1 } in
      let step : (b c : Bool)
          → (bit_and offset off_mask == 0) ≡ b
          → leb ptrdiff_max length ≡ c
          → mmap svc addr length prot flags fd offset p ≡ branches b c =
        λ b c e e'. ap (λ d. branches d (leb ptrdiff_max length)) e ∙ ap (branches b) e' in
      elim (Bool-cases (bit_and offset off_mask == 0)) [
        | inr off ↦
            let e : offset % 4096 ≢ 0 = λ z. ground (arith, off, page_offset offset, z) in
            inl (e, ap (λ d. branches d (leb ptrdiff_max length)) off)
        | inl aligned ↦
            let e : offset % 4096 ≡ 0 = ground (arith, aligned, page_offset offset) in
            inr (elim (Bool-cases (leb ptrdiff_max length)) [
              | inl long ↦ inl (e, ground (arith, long), step true true aligned long)
              | inr short ↦
                  let fits : length < 2 ^ 63 - 1 = ground (arith, short) in
                  let asked = step true false aligned short in
                  inr (elim (answered_cases (mapped p).0 small) [
                    | inl bad ↦ inl (e, fits, bad, asked ∙ corrected-error free (mapped p).0 q bad)
                    | inr good ↦
                        inr (e, fits, good, asked ∙ corrected-value free (mapped p).0 q good)
                  ])
            ])
      ]
