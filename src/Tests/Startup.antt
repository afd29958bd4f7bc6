-- ===== src/Tests/Startup.antt =====
-- The theorems on the entry of a program and on _init and _fini: a stack with two arguments, and one
-- framed function inside the other.
use mytilus.Base.{ℕ, ◌+◌, ◌^◌, ◌<◌, ◌≤◌, ◌≡◌, ◌%◌, ◌==◌, if◌then◌else◌, List, [], ◌∷◌, arith, refl}
use mytilus.Startup.{Cpu, start, call, init_prologue, init_epilogue, fini_prologue, fini_epilogue}
use mytilus.Startup.Entry.{IsVector, start_arguments}
use mytilus.Startup.Frames.{Keeps, init_and_fini_return}

abbrev launched : Cpu
launched = record {
  x = λ r. 7;
  sp = 4_104;
  pc = 65_536;
  words =
      λ a. if a == 4_104 then 2 else if a == 4_112 then 9_000 else if a == 4_120 then 9_006 else 0;
}

abbrev arguments : List ℕ
arguments = 9_000 ∷ 9_006 ∷ []

-- The call of __libc_start_main, as a value.
abbrev recorded : ℕ → ℕ → ℕ → ℕ → ℕ → ℕ → Cpu → ℕ × ℕ × ℕ
recorded main argc argv init fini ldso_fini c = (main, argc, argv)

start_arguments_example :
    (c' : Cpu) × (start recorded 80_000 131_080 70_000 launched ≡ (80_000, 2, 4_112))
    × ((c'.x 0 ≡ 4_104) × (c'.x 1 ≡ 131_080) × (c'.x 29 ≡ 0) × (c'.pc ≡ 70_000))
    × ((c'.sp % 16 ≡ 0) × (c'.sp ≤ 4_104) × (4_104 < c'.sp + 16))
    × IsVector c'.words 4_112 arguments
    × (c'.words ≡ launched.words)
start_arguments_example =
    start_arguments recorded 80_000 131_080 70_000 launched arguments (omega arith) (omega arith)
      (omega arith) refl (refl, (refl, refl))

-- Code that does nothing, and a function around it.
abbrev nothing : Cpu → Cpu
nothing c = c

nothing-Keeps : Keeps 0 nothing
nothing-Keeps = record {
  stack = λ c enough high. refl;
  frame = λ c enough high. refl;
  words = λ c a enough high l. refl;
}

abbrev constructor_call : Cpu → Cpu
constructor_call = call init_prologue init_epilogue 8_192 nothing

constructor_call-Keeps : Keeps 16 constructor_call
constructor_call-Keeps = (init_and_fini_return 8_192 0 nothing nothing-Keeps).0.0

init_and_fini_return_example :
    (Keeps 32 (call init_prologue init_epilogue 4_096 constructor_call)
      × Keeps 32 (call fini_prologue fini_epilogue 4_096 constructor_call))
    × ((c : Cpu)
        → 32 ≤ c.sp
        → c.sp < 2 ^ 64
        → ((call init_prologue init_epilogue 4_096 constructor_call c).pc ≡ c.pc + 4)
          × ((call fini_prologue fini_epilogue 4_096 constructor_call c).pc ≡ c.pc + 4))
init_and_fini_return_example = init_and_fini_return 4_096 16 constructor_call constructor_call-Keeps
