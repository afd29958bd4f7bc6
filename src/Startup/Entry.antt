-- ===== src/Startup/Entry.antt =====
-- What main's caller gets from the entry of the program, on the stack that the kernel lays out.
use mytilus.Base.{
  ℕ, ◌+◌, ◌-◌, ◌*◌, ◌/◌, ◌%◌, ◌^◌, ◌<◌, ◌≤◌, ◌≡◌, List, [], ◌∷◌, length, bit_and, bit_and_step,
  bit_and_mask, arith, refl, ap,
}
use mytilus.Startup.{Cpu, start_code, start_c, start, run}

-- A NULL-terminated array of pointers.
abbrev pub IsVector : (ℕ → ℕ) → ℕ → List ℕ → Type 0
IsVector words a [] = words a ≡ 0
IsVector words a (p ∷ ps) = (words a ≡ p) × IsVector words (a + 8) ps

-- Masking with -16 rounds down to a multiple of 16.
aligned : (a : ℕ) → a < 2 ^ 64 → bit_and a (2 ^ 64 - 16) ≡ a / 16 * 16
aligned a small = omega (
  arith,
  bit_and_step a (2 ^ 64 - 16),
  bit_and_step (a / 2) (2 ^ 63 - 8),
  bit_and_step (a / 2 / 2) (2 ^ 62 - 4),
  bit_and_step (a / 2 / 2 / 2) (2 ^ 61 - 2),
  bit_and_mask 60 (a / 2 / 2 / 2 / 2),
)

module _ {R : Type 0} (libc_start_main : ℕ → ℕ → ℕ → ℕ → ℕ → ℕ → Cpu → R)
    (main dynamic entry : ℕ) where
  -- On a stack that begins with the number of the arguments, less than 2 ^ 31, and the NULL-terminated array of
  -- their addresses, the entry of a program calls __libc_start_main with main, this number, the address of this
  -- array and three zeros. _start_c is entered, with the stack and the address of _DYNAMIC as arguments, on a
  -- stack pointer that is a multiple of 16 and less than 16 bytes down, with 0 as the frame pointer and with
  -- the memory as it was.
  pub start_arguments :
      (c : Cpu) (args : List ℕ)
      → c.sp < 2 ^ 64
      → dynamic < 2 ^ 64
      → length args < 2 ^ 31
      → c.words c.sp ≡ length args
      → IsVector c.words (c.sp + 8) args
      → (c' : Cpu) × (start libc_start_main main dynamic entry c
          ≡ libc_start_main main (length args) (c.sp + 8) 0 0 0 c')
        × ((c'.x 0 ≡ c.sp) × (c'.x 1 ≡ dynamic) × (c'.x 29 ≡ 0) × (c'.pc ≡ entry))
        × ((c'.sp % 16 ≡ 0) × (c'.sp ≤ c.sp) × (c.sp < c'.sp + 16))
        × IsVector c'.words (c.sp + 8) args
        × (c'.words ≡ c.words)
  unfolding start start_c start_code
  start_arguments c args high symbol few count vector =
      let c' = run (start_code dynamic entry) c in
      let down = aligned c.sp high in
      let argc : c.words c.sp % 2 ^ 32 ≡ length args = omega (arith, count, few) in
      (
        c',
        ap (λ n. libc_start_main main n (c.sp + 8) 0 0 0 c') argc,
        (refl, omega (arith, symbol), refl, refl),
        (omega (arith, down), omega (arith, down), omega (arith, down)),
        vector,
        refl,
      )
