-- ===== src/Sys/Errors.antt =====
-- The convention of ret: -1 and errno, or the answer of the kernel.
use mytilus.Base.{
  ℕ, ◌-◌, ◌%◌, ◌^◌, ◌<◌, ◌≤◌, ◌≡◌, ◌⊎◌, inl, inr, true, false, leb, arith, ap, Bool-cases,
}
use mytilus.Sys.{Machine, neg, as_c_int, minus_one, is_err, ret, returned}

-- The kernel reports an error.
abbrev pub IsError : ℕ → Type 0
IsError r = (2 ^ 64 - 4096 ≤ r) × (r < 2 ^ 64)

-- The number of the error.
abbrev pub error_number : ℕ → ℕ
error_number r = 2 ^ 64 - r

pub ret_error :
    {K : Type 0} (r : ℕ) (p : Machine K)
    → IsError r
    → ret r p ≡ (minus_one, record p { errno = error_number r })
unfolding ret
ret_error r p (low, high) = let e : neg r % 2 ^ 32 ≡ 2 ^ 64 - r = ground arith in ground (arith, e)

pub ret_value : {K : Type 0} (r : ℕ) (p : Machine K) → r < 2 ^ 64 - 4096 → ret r p ≡ (r, p)
unfolding ret
ret_value r p low = ground arith

pub is_err_error : (r : ℕ) → IsError r → is_err r ≡ true
unfolding is_err
is_err_error r h = ground arith

pub is_err_value : (r : ℕ) → r < 2 ^ 64 - 4096 → is_err r ≡ false
unfolding is_err
is_err_value r h = ground arith

pub returned_error :
    {K : Type 0} (r : ℕ) (p : Machine K)
    → IsError r
    → returned r p ≡ (2 ^ 32 - 1, record p { errno = error_number r })
unfolding returned
returned_error r p h = let e = ret_error r p h in ap (λ q. (as_c_int q.0, q.1)) e

pub returned_value :
    {K : Type 0} (r : ℕ) (p : Machine K) → r < 2 ^ 64 - 4096 → returned r p ≡ (r % 2 ^ 32, p)
unfolding returned
returned_value r p low = ap (λ q. (as_c_int q.0, q.1)) (ret_value r p low)

-- An answer is an error or a value.
pub answered_cases : (r : ℕ) → r < 2 ^ 64 → IsError r ⊎ (r < 2 ^ 64 - 4096)
answered_cases r small = elim (Bool-cases (leb (2 ^ 64 - 4096) r)) [
  | inl h ↦ inl (ground (arith, h), small)
  | inr h ↦ inr (ground (arith, h))
]
