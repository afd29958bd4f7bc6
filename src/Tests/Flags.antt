-- ===== src/Tests/Flags.antt =====
-- The theorems on flags.
use mytilus.Base.{
  ℕ, suc, ◌<◌, ◌⊎◌, inl, ◌-◌, ◌^◌, ◌≡◌, if◌then◌else◌, List, [], ◌∷◌, combine, arith, refl,
}
use mytilus.Sys.{Machine, eperm, enomem}
use mytilus.Sys.Errors.{IsError}
use mytilus.Fcntl.{openat, open_file, creat}
use mytilus.Fcntl.Flags.{OpenFlag, create, wronly, trunc, excl, cloexec, flag_value}
use mytilus.Fcntl.Flags.Modes.{opens, open_flags}
use mytilus.Mman.{map_failed, mmap}
use mytilus.Mman.Flags.{
  MapFlag, private, anonymous, fixed_noreplace, flag_value as map_value, leaves_place, mmap_flags,
}

-- The answer -EPERM; the state counts the calls.
abbrev denies : ℕ → List ℕ → ℕ → ℕ × ℕ
denies n args calls = (2 ^ 64 - 1, suc calls)

abbrev idle : Machine ℕ
idle = record { kernel = 0; errno = 0 }

abbrev exclusive : List OpenFlag
exclusive = wronly ∷ create ∷ excl ∷ cloexec ∷ []

-- A kernel that answers every call with 3.
abbrev grants : ℕ → List ℕ → ℕ → ℕ × ℕ
grants n args calls = (3, suc calls)

grants-answers :
    (n : ℕ) (args : List ℕ) (k : ℕ) → ((grants n args k).0 < 2 ^ 63) ⊎ IsError (grants n args k).0
grants-answers n args k = inl (omega arith)

open_flags_example :
    (openat grants 5 64 (combine flag_value exclusive) 0x1a4 idle
      ≡ opens grants 5 exclusive 64 0x1a4 idle)
    × (open_file grants 64 (combine flag_value exclusive) 0x1a4 idle
        ≡ opens grants (2 ^ 32 - 100) exclusive 64 0x1a4 idle)
    × (creat grants 64 0x1a4 idle
        ≡ opens grants (2 ^ 32 - 100) (create ∷ wronly ∷ trunc ∷ []) 64 0x1a4 idle)
open_flags_example = open_flags grants grants-answers exclusive 5 64 0x1a4 idle

abbrev scratch : List MapFlag
scratch = private ∷ anonymous ∷ fixed_noreplace ∷ []

mmap_flags_example : mmap denies 0 8_192 3 (combine map_value scratch) (2 ^ 32 - 1) 4_096 idle ≡ (
  map_failed,
  record idle { kernel = 1; errno = if leaves_place 0 scratch then enomem else eperm },
)
mmap_flags_example =
    mmap_flags denies 0 8_192 3 (2 ^ 32 - 1) 4_096 scratch idle (omega arith) (omega arith) refl
