-- ===== src/Tests/Kernel.antt =====
-- The theorems on numbers and on the wrappers of system calls. The kernel here gives one answer to
-- every call, and its state counts the calls.
use mytilus.Base.{ℕ, suc, ◌-◌, ◌%◌, ◌^◌, ◌<◌, ◌≤◌, ◌≡◌, ◌≢◌, ◌⊎◌, inl, ◌==◌, List, bit_and, arith}
use mytilus.IntOps.{negative, magnitude, abs, labs, llabs, imaxabs, div, ldiv, lldiv, imaxdiv}
use mytilus.IntOps.Laws.{Divides, abs-eq-magnitude, div-IsQuotient}
use mytilus.Sys.{enomem, Machine}
use mytilus.Sys.Errors.{IsError, error_number}
use mytilus.Mman.{map_failed, mmap}
use mytilus.Mman.Checks.{reported, mmap_outcomes}
use mytilus.Wrappers.{DescriptorCalls, MappingCalls, ProcessCalls, wrappers_forward}
use mytilus.Fcntl.{o_cloexec, openat}
use mytilus.Fcntl.Opening.{openat_outcomes}

abbrev answering : ℕ → ℕ → List ℕ → ℕ → ℕ × ℕ
answering r n args calls = (r, suc calls)

abbrev idle : Machine ℕ
idle = record { kernel = 0; errno = 0 }

-- The answer -EINTR.
abbrev interrupted : ℕ
interrupted = 2 ^ 64 - 4

abs-eq-magnitude_example :
    (abs (2 ^ 31) ≡ magnitude (2 ^ 31) (2 ^ 31))
    × (negative (2 ^ 31) (abs (2 ^ 31)) ≡ (2 ^ 31 == 2 ^ 31))
    × (labs 7 ≡ magnitude (2 ^ 63) 7)
    × (negative (2 ^ 63) (labs 7) ≡ (7 == 2 ^ 63))
    × (llabs 7 ≡ labs 7)
    × (imaxabs 7 ≡ labs 7)
abs-eq-magnitude_example = abs-eq-magnitude (2 ^ 31) 7 (omega arith) (omega arith)

div-IsQuotient_example :
    Divides (2 ^ 31) (2 ^ 32 - 7) 2 (div (2 ^ 32 - 7) 2)
    × Divides (2 ^ 63) 7 0 (ldiv 7 0)
    × (lldiv 7 0 ≡ ldiv 7 0)
    × (imaxdiv 7 0 ≡ ldiv 7 0)
div-IsQuotient_example =
    div-IsQuotient (2 ^ 32 - 7) 2 7 0 (omega arith) (omega arith) (omega arith) (omega arith)

mmap_outcomes_example :
    ((0 % 4096 ≢ 0)
      × (mmap (answering (2 ^ 64 - 1)) 0 8192 3 0x22 0 0 idle
          ≡ (map_failed, record idle { errno = 22 })))
    ⊎ ((0 % 4096 ≡ 0)
        × (2 ^ 63 - 1 ≤ 8192)
        × (mmap (answering (2 ^ 64 - 1)) 0 8192 3 0x22 0 0 idle
            ≡ (map_failed, record idle { errno = enomem })))
    ⊎ ((0 % 4096 ≡ 0)
        × (8192 < 2 ^ 63 - 1)
        × IsError (2 ^ 64 - 1)
        × (mmap (answering (2 ^ 64 - 1)) 0 8192 3 0x22 0 0 idle
            ≡ (map_failed, record idle { kernel = 1; errno = reported 0 0x22 (2 ^ 64 - 1) })))
    ⊎ ((0 % 4096 ≡ 0)
        × (8192 < 2 ^ 63 - 1)
        × (2 ^ 64 - 1 < 2 ^ 64 - 4096)
        × (mmap (answering (2 ^ 64 - 1)) 0 8192 3 0x22 0 0 idle
            ≡ (2 ^ 64 - 1, record idle { kernel = 1 })))
mmap_outcomes_example = mmap_outcomes (answering (2 ^ 64 - 1)) 0 8192 3 0x22 0 0 idle (omega arith)

openat_outcomes_example :
    (IsError 5
      × (openat (answering 5) 3 100 o_cloexec 0 idle
          ≡ (2 ^ 32 - 1, record idle { kernel = 1; errno = error_number 5 })))
    ⊎ ((5 < 2 ^ 63)
        × (bit_and o_cloexec o_cloexec ≢ 0)
        × (openat (answering 5) 3 100 o_cloexec 0 idle ≡ (5 % 2 ^ 32, record idle { kernel = 2 })))
    ⊎ ((5 < 2 ^ 63)
        × (bit_and o_cloexec o_cloexec ≡ 0)
        × (openat (answering 5) 3 100 o_cloexec 0 idle ≡ (5 % 2 ^ 32, record idle { kernel = 1 })))
openat_outcomes_example = openat_outcomes (answering 5) 100 0 3 o_cloexec idle (inl (omega arith))

interrupted_word :
    (n : ℕ) (args : List ℕ) (calls : ℕ) → (answering interrupted n args calls).0 < 2 ^ 64
interrupted_word n args calls = omega arith

wrappers_forward_example :
    DescriptorCalls (answering interrupted) interrupted_word idle 1 2 3
    × MappingCalls (answering interrupted) interrupted_word idle 1 2 3
    × ProcessCalls (answering interrupted) interrupted_word idle 1 2 3
wrappers_forward_example = wrappers_forward (answering interrupted) interrupted_word idle 1 2 3
