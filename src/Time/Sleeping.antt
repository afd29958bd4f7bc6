-- ===== src/Time/Sleeping.antt =====
-- The two error conventions of the sleeps, and the request that usleep makes.
use mytilus.Base.{
  ℕ, ◌-◌, ◌%◌, ◌^◌, ◌≡◌, ◌≢◌, ◌⊎◌, inl, inr, ◌==◌, if◌then◌else◌, List, [], ◌∷◌, arith, refl, ap,
  sym, false, ◌∙◌,
}
use mytilus.Sys.Numbers.{sys_clock_nanosleep}
use mytilus.Sys.{einval, Machine, value, neg, sign_extend, as_c_int, returned, syscall_cp4}
use mytilus.Sys.Errors.{IsError, error_number, returned_error, returned_value}
use mytilus.Time.{clock_realtime, clock_thread_cputime_id, clock_nanosleep, nanosleep}

-- The negated answer to a sleep is its error number.
neg_number : (r : ℕ) → (r ≡ 0) ⊎ IsError r → neg r % 2 ^ 32 ≡ (if r == 0 then 0 else error_number r)
neg_number r (inl z) = ground (arith, z)
neg_number r (inr (low, high)) = ground arith

-- nanosleep behind clock_nanosleep.
nanosleep_tail :
    {K : Type 0} (r : ℕ) (q : Machine K)
    → (r ≡ 0) ⊎ IsError r
    → returned (neg (sign_extend (if r == 0 then 0 else error_number r))) q
      ≡ (if r == 0 then (0, q) else (2 ^ 32 - 1, record q { errno = error_number r }))
nanosleep_tail r q (inl z) =
    ap (λ n. returned (neg (sign_extend (if n == 0 then 0 else error_number n))) q) z
    ∙ returned_value 0 q (omega arith)
    ∙ ap (λ n. if n == 0 then (0, q) else (2 ^ 32 - 1, record q { errno = error_number n })) (sym z)
nanosleep_tail r q (inr (low, high)) =
    let nz : (r == 0) ≡ false = ground arith in
    let back : neg (sign_extend (if r == 0 then 0 else error_number r)) ≡ r = ground arith in
    ap (λ n. returned n q) back
    ∙ returned_error r q (low, high)
    ∙ ap (λ b. if b then (0, q) else (2 ^ 32 - 1, record q { errno = error_number r })) (sym nz)

module _ {K : Type 0} (svc : ℕ → List ℕ → K → ℕ × K) (req rem : ℕ) where
  -- The answer of the kernel to the sleep, and its state behind it.
  abbrev pub slept : Machine K → ℕ → ℕ × K
  slept p clk = svc sys_clock_nanosleep (sign_extend clk ∷ 0 ∷ req ∷ rem ∷ 0 ∷ 0 ∷ []) p.kernel

  clock_nanosleep_lem :
      (p : Machine K) (clk : ℕ)
      → clk ≢ clock_thread_cputime_id
      → ((slept p clk).0 ≡ 0) ⊎ IsError (slept p clk).0
      → clock_nanosleep svc clk 0 req rem p ≡ (
        if (slept p clk).0 == 0 then 0 else error_number (slept p clk).0,
        record p { kernel = (slept p clk).1 },
      )
  unfolding clock_nanosleep syscall_cp4
  clock_nanosleep_lem p clk ne answer =
      let nc : (clk == clock_thread_cputime_id) ≡ false = ground arith in
      let q : Machine K = record p { kernel = (slept p clk).1 } in
      ap
        (λ b.
          (if b
              then value einval
              else (λ x. (as_c_int (neg (slept x clk).0), record x { kernel = (slept x clk).1 })))
            p)
        nc
      ∙ ap (λ n. (n, q)) (neg_number (slept p clk).0 answer)

  -- Where the kernel answers sleeps with 0 or with an error, clock_nanosleep without flags, on a
  -- clock that is not the one of the calling thread, returns 0 or the number of the error and
  -- leaves errno alone, while nanosleep returns 0, or -1 with the number in errno. On the clock of
  -- the calling thread clock_nanosleep returns EINVAL and does not ask the kernel.
  pub sleep_errors :
      (p : Machine K) (clk : ℕ)
      → clk ≢ clock_thread_cputime_id
      → ((slept p clk).0 ≡ 0) ⊎ IsError (slept p clk).0
      → ((slept p clock_realtime).0 ≡ 0) ⊎ IsError (slept p clock_realtime).0
      → (clock_nanosleep svc clk 0 req rem p ≡ (
        if (slept p clk).0 == 0 then 0 else error_number (slept p clk).0,
        record p { kernel = (slept p clk).1 },
      ))
        × (nanosleep svc req rem p ≡ (
            if (slept p clock_realtime).0 == 0
            then (0, record p { kernel = (slept p clock_realtime).1 })
            else (
              2 ^ 32 - 1,
              record p {
                kernel = (slept p clock_realtime).1;
                errno = error_number (slept p clock_realtime).0;
              },
            )))
        × (clock_nanosleep svc clock_thread_cputime_id 0 req rem p ≡ (einval, p))
  unfolding nanosleep
  sleep_errors p clk ne answer answer0 = (
    clock_nanosleep_lem p clk ne answer,
    ap (λ a. returned (neg (sign_extend a.0)) a.1)
          (clock_nanosleep_lem p clock_realtime (omega arith) answer0)
        ∙ nanosleep_tail (slept p clock_realtime).0
            (record p { kernel = (slept p clock_realtime).1 }) answer0,
    unfold clock_nanosleep in refl,
  )
