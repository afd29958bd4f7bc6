-- ===== src/Startup/Frames.antt =====
-- The calls of _init and _fini, made of the pieces of crti.rs and crtn.rs and the code between them.
use mytilus.Base.{ℕ, ◌+◌, ◌-◌, ◌%◌, ◌^◌, ◌<◌, ◌≤◌, ◌≡◌, [], ◌∷◌, arith, refl, ap, ◌∙◌}
use mytilus.Startup.{
  Cpu, step, bl, stp_pre, ldp_post, mov_sp, return_lr, run, call, init_prologue, init_epilogue,
  fini_prologue, fini_epilogue,
}

-- What the caller of a function relies on, where the function has `room` bytes of stack: the stack pointer,
-- the frame pointer and the memory from the stack pointer on are as before.
pub record Keeps (room : ℕ) (body : Cpu → Cpu) : Type 0 where
  pub stack : (c : Cpu) → room ≤ c.sp → c.sp < 2 ^ 64 → (body c).sp ≡ c.sp
  pub frame : (c : Cpu) → room ≤ c.sp → c.sp < 2 ^ 64 → (body c).x 29 ≡ c.x 29
  pub words :
      (c : Cpu) (a : ℕ) → room ≤ c.sp → c.sp < 2 ^ 64 → c.sp ≤ a → (body c).words a ≡ c.words a

-- The state behind the prologue of a function that was called at an address.
abbrev entered : ℕ → Cpu → Cpu
entered address c = run (stp_pre 29 30 ∷ mov_sp 29 ∷ []) (step (bl address) c)

pushed :
    (address : ℕ) (c : Cpu)
    → 16 ≤ c.sp
    → c.sp < 2 ^ 64
    → let d = entered address c in
      (d.sp ≡ c.sp - 16)
      × (d.words (c.sp - 16) ≡ c.x 29)
      × (d.words (c.sp - 16 + 8) ≡ c.pc + 4)
      × ((a : ℕ) → c.sp ≤ a → d.words a ≡ c.words a)
pushed address c room high =
    let down : (c.sp + (2 ^ 64 - 16)) % 2 ^ 64 ≡ c.sp - 16 = omega arith in
    rw down (refl, ground arith, ground arith, λ a l. ground arith)

-- A function with the epilogue behind the prologue, and any code between them.
abbrev framed : ℕ → (Cpu → Cpu) → Cpu → Cpu
framed address body c = run (ldp_post 29 30 ∷ return_lr ∷ []) (body (entered address c))

module _ (address room : ℕ) (body : Cpu → Cpu) (keeps : Keeps room body) where
  -- What the code between leaves of the frame.
  left :
      (c : Cpu)
      → room + 16 ≤ c.sp
      → c.sp < 2 ^ 64
      → let d = body (entered address c) in
        (d.sp ≡ c.sp - 16)
        × (d.words d.sp ≡ c.x 29)
        × (d.words (d.sp + 8) ≡ c.pc + 4)
        × ((a : ℕ) → c.sp ≤ a → d.words a ≡ c.words a)
  left c enough high =
      let e = entered address c in
      let (down, frame, link, above) = pushed address c (omega (arith, enough)) high in
      let inside : room ≤ e.sp = omega (arith, down, enough) in
      let small : e.sp < 2 ^ 64 = omega (arith, down, high) in
      let same : (body e).sp ≡ c.sp - 16 = keeps.stack e inside small ∙ down in
      let kept : (a : ℕ) → c.sp - 16 ≤ a → (body e).words a ≡ e.words a =
        λ a l. keeps.words e a inside small (omega (arith, down, l)) in
      (
        same,
        ap (body e).words same ∙ kept (c.sp - 16) (omega arith) ∙ frame,
        ap (λ (s : ℕ). (body e).words (s + 8)) same ∙ kept (c.sp - 16 + 8) (omega arith) ∙ link,
        λ a l. kept a (omega (arith, l)) ∙ above a l,
      )

  framed-Keeps : Keeps (room + 16) (framed address body)
  framed-Keeps = record {
    stack =
        λ c enough high. let (same, _, _, _) = left c enough high in omega (arith, same, enough);
    frame = λ c enough high. (left c enough high).1;
    words = λ c a enough high l. (left c enough high).3 a l;
  }

  framed-returns :
      (c : Cpu) → room + 16 ≤ c.sp → c.sp < 2 ^ 64 → (framed address body c).pc ≡ c.pc + 4
  framed-returns c enough high = (left c enough high).2

  -- Where the code between the pieces of _init and _fini returns with the stack pointer, the frame pointer and
  -- the memory from the stack pointer on as before, given `room` bytes of stack: with 16 bytes more, a call of
  -- _init or _fini goes on behind the call, and keeps the same.
  pub init_and_fini_return :
      (Keeps (room + 16) (call init_prologue init_epilogue address body)
        × Keeps (room + 16) (call fini_prologue fini_epilogue address body))
      × ((c : Cpu)
          → room + 16 ≤ c.sp
          → c.sp < 2 ^ 64
          → ((call init_prologue init_epilogue address body c).pc ≡ c.pc + 4)
            × ((call fini_prologue fini_epilogue address body c).pc ≡ c.pc + 4))
  unfolding call init_prologue init_epilogue fini_prologue fini_epilogue
  init_and_fini_return = (
    (framed-Keeps, framed-Keeps),
    λ c enough high. (framed-returns c enough high, framed-returns c enough high),
  )
