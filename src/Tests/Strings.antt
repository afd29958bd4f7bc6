-- ===== src/Tests/Strings.antt =====
-- The theorems on blocks and strings, applied to a memory in which every address is mapped.
use mytilus.Base.{
  pos, ◌↔◌, ℕ, ◌-◌, ◌%◌, ◌<◌, ◌≡◌, inl, inr, Option, some, List, [], ◌∷◌, ◌++◌, ◌==◌, ◌||◌, ltb,
  if◌then◌else◌, length, take, arith, refl,
}
use mytilus.Memory.{Mem, ok, IsMapped, IsCStr, Holds}
use mytilus.Block.{memmove}
use mytilus.Block.Move.{copied, memmove-copied}
use mytilus.Str.Find.{strrchr, IsLastMatch, strrchr-IsLastMatch}
use mytilus.Str.Compare.{strcmp, strncmp, lex, comparisons}
use mytilus.Str.Copy.{strcat, stpncpy}
use mytilus.Str.Copy.Laws.{IsFramed, strcat-appends}
use mytilus.Str.Copy.Bounded.{padded, stpncpy-padded}
use mytilus.Str.Strerror.{erange, strerror_r, strerror_r-Holds}
use mytilus.Errno.{strerror_str}

-- "ab" at 10, "abb" at 20, and zeros.
abbrev pub sample : Mem
sample q = some (if q == 10 || q == 20 then 97 else if q == 11 || q == 21 || q == 22 then 98 else 0)

abbrev pub ab : List ℕ
ab = 97 ∷ 98 ∷ []

abbrev pub abb : List ℕ
abb = 97 ∷ 98 ∷ 98 ∷ []

sample-IsMapped : (p n : ℕ) → IsMapped sample p n
sample-IsMapped p n i l = (_, refl)

pub ab_at : IsCStr sample 10 ab
ab_at = (refl, λ e. omega arith, (refl, λ e. omega arith, refl))

pub abb_at : IsCStr sample 20 abb
abb_at = (refl, λ e. omega arith, (refl, λ e. omega arith, (refl, λ e. omega arith, refl)))

memmove-copied_example : memmove sample 21 20 3 ≡ ok (21, copied sample 20 21 0 3)
memmove-copied_example = memmove-copied sample 20 21 3 (sample-IsMapped 20 3) (sample-IsMapped 21 3)

strrchr-IsLastMatch_example :
    (r : Option ℕ) × (strrchr 4 sample 20 98 ≡ ok r) × IsLastMatch sample 20 (98 % 256) 4 r
strrchr-IsLastMatch_example = strrchr-IsLastMatch 4 sample 20 98 abb (omega arith) abb_at

comparisons_example :
    (strcmp 3 sample 10 20 ≡ ok (lex ab abb))
    × (strncmp sample 10 20 2 ≡ ok (lex (take 2 ab) (take 2 abb)))
    × ((strcmp 3 sample 10 20 ≡ ok (pos 0)) ↔ (ab ≡ abb))
comparisons_example = comparisons 3 sample 10 20 2 ab abb (omega arith) ab_at abb_at

strcat-appends_example :
    (m' : Mem) × (strcat 4 sample 10 20 ≡ ok (10, m'))
    × IsCStr m' 10 (ab ++ abb)
    × IsFramed sample m' 12 4
strcat-appends_example =
    strcat-appends 4 sample 10 20 ab abb (omega arith) (omega arith) ab_at abb_at
      (sample-IsMapped 12 4) (inl (omega arith))

stpncpy-padded_example :
    (m' : Mem) × (stpncpy sample 30 20 5 ≡ ok (33, m'))
    × Holds m' 30 (padded 5 abb)
    × IsFramed sample m' 30 5
stpncpy-padded_example =
    stpncpy-padded 5 sample 30 20 abb abb_at (sample-IsMapped 30 5) (inr (omega arith))

strerror_r-Holds_example :
    (m' : Mem) × (code : ℕ) × (strerror_r sample 2 40 8 ≡ ok (code, m'))
    × (code ≡ (if ltb (length (strerror_str 2)) 8 then 0 else erange))
    × (0 < 8 → Holds m' 40 (take (8 - 1) (strerror_str 2) ++ 0 ∷ []))
    × IsFramed sample m' 40 8
strerror_r-Holds_example = strerror_r-Holds sample 2 40 8 (sample-IsMapped 40 8)
