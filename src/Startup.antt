-- ===== src/Startup.antt =====
-- crates/mytilus-startup/crt: the entry of a program, and the first and last pieces of _init and _fini.
-- The assembly is a list of instructions, which run on the registers, the stack pointer and a memory with a
-- 64-bit word at every address.
use mytilus.Base.{ℕ, ◌+◌, ◌-◌, ◌*◌, ◌/◌, ◌%◌, ◌^◌, List, [], ◌∷◌, put, bit_and}
pub mod Entry
pub mod Frames

-- `x r` is the register xr.
pub record Cpu : Type 0 where
  pub x : ℕ → ℕ
  pub sp : ℕ
  pub pc : ℕ
  pub words : ℕ → ℕ

-- The instructions that the pieces use. A symbol is its address.
pub data Instr : Type 0 where
  -- mov xd, #v
  mov : ℕ → ℕ → Instr
  -- mov xd, sp
  mov_sp : ℕ → Instr
  -- adrp xd, symbol
  adrp : ℕ → ℕ → Instr
  -- add xd, xd, #:lo12:symbol
  add_lo12 : ℕ → ℕ → Instr
  -- and sp, xn, #-16
  and_sp : ℕ → Instr
  -- stp xa, xb, [sp, #-16]!
  stp_pre : ℕ → ℕ → Instr
  -- ldp xa, xb, [sp], #16
  ldp_post : ℕ → ℕ → Instr
  -- bl symbol
  bl : ℕ → Instr
  -- ret
  return_lr : Instr

-- Where an instruction that is no branch goes on.
abbrev pub following : Cpu → ℕ
following c = c.pc + 4

abbrev pub set_x : Cpu → ℕ → ℕ → Cpu
set_x c d v = record c { x = put c.x d v; pc = following c }

abbrev pub page : ℕ → ℕ
page a = a / 4096 * 4096

abbrev pub step : Instr → Cpu → Cpu
step (mov d v) c = set_x c d v
step (mov_sp d) c = set_x c d c.sp
step (adrp d a) c = set_x c d (page a)
step (add_lo12 d a) c = set_x c d ((c.x d + a % 4096) % 2 ^ 64)
step (and_sp n) c = record c { sp = bit_and (c.x n) (2 ^ 64 - 16); pc = following c }
step (stp_pre a b) c =
    let down = (c.sp + (2 ^ 64 - 16)) % 2 ^ 64 in
    record c {
      sp = down;
      words = put (put c.words down (c.x a)) (down + 8) (c.x b);
      pc = following c;
    }
step (ldp_post a b) c = record c {
  x = put (put c.x a (c.words c.sp)) b (c.words (c.sp + 8));
  sp = (c.sp + 16) % 2 ^ 64;
  pc = following c;
}
step (bl target) c = record c { x = put c.x 30 (following c); pc = target }
step return_lr c = record c { pc = c.x 30 }

abbrev pub run : List Instr → Cpu → Cpu
run [] c = c
run (i ∷ is) c = run is (step i c)

-- `_start`, the same in crt1.rs, Scrt1.rs and rcrt1.rs, from the addresses of _DYNAMIC and _start_c.
unfoldable pub start_code : ℕ → ℕ → List Instr
start_code dynamic entry =
    mov 29 0 ∷ mov 30 0 ∷ mov_sp 0 ∷ adrp 1 dynamic ∷ add_lo12 1 dynamic ∷ and_sp 0 ∷ bl entry ∷ []

-- crti.rs begins the two functions and crtn.rs ends them.
unfoldable pub init_prologue : List Instr
init_prologue = stp_pre 29 30 ∷ mov_sp 29 ∷ []

unfoldable pub fini_prologue : List Instr
fini_prologue = stp_pre 29 30 ∷ mov_sp 29 ∷ []

unfoldable pub init_epilogue : List Instr
init_epilogue = ldp_post 29 30 ∷ return_lr ∷ []

unfoldable pub fini_epilogue : List Instr
fini_epilogue = ldp_post 29 30 ∷ return_lr ∷ []

-- A call of a function at an address, whose code is a prologue, what other files put between, and an
-- epilogue.
unfoldable pub call : List Instr → List Instr → ℕ → (Cpu → Cpu) → Cpu → Cpu
call prologue epilogue address body c = run epilogue (body (run prologue (step (bl address) c)))

module _ {R : Type 0} (libc_start_main : ℕ → ℕ → ℕ → ℕ → ℕ → ℕ → Cpu → R) (main : ℕ) where
  -- __libc_start_main gets the addresses main and argv, the number argc, three zeros, and the
  -- machine as it is then; R is whatever becomes of the process.
  unfoldable pub start_c : ℕ → ℕ → Cpu → R
  start_c stack dynamic c =
      let argc = c.words stack % 2 ^ 32 in
      let argv = stack + 8 in libc_start_main main argc argv 0 0 0 c

  -- The entry of the program: `_start`, and `_start_c` with its arguments in x0 and x1.
  unfoldable pub start : ℕ → ℕ → Cpu → R
  start dynamic entry c = let c' = run (start_code dynamic entry) c in start_c (c'.x 0) (c'.x 1) c'
