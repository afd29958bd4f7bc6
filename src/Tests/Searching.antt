-- ===== src/Tests/Searching.antt =====
-- The theorems on searching and cutting strings, applied to the memory of the string tests.
use mytilus.Base.{
  take, ℕ, ◌+◌, ◌<◌, ◌≡◌, ◌⊎◌, inl, Option, none, some, List, [], ◌∷◌, length, map, arith, refl,
}
use mytilus.Memory.{Mem, ok, IsCStr}
use mytilus.Str.Compare.{lex}
use mytilus.Str.Casecmp.{lowered, strcasecmp_l, strncasecmp_l, casecmp_with_locale}
use mytilus.Str.Search.{strstr}
use mytilus.Str.Search.Sets.{IsBytes}
use mytilus.Str.Search.Occurrence.{IsOccurrence, strstr-IsOccurrence}
use mytilus.Str.Tokens.Words.{all_tokens, words, AtWords, all_tokens-AtWords}
use mytilus.Str.Tokens.Fields.{all_fields, fields, all_fields-AtWords}
use mytilus.Tests.Strings.{sample, ab, abb, ab_at, abb_at}

abbrev b_only : List ℕ
b_only = 98 ∷ []

b_at : IsCStr sample 11 b_only
b_at = (refl, λ e. omega arith, refl)

ab-IsBytes : IsBytes ab
ab-IsBytes = (omega arith, (omega arith, tt))

abb-IsBytes : IsBytes abb
abb-IsBytes = (omega arith, (omega arith, (omega arith, tt)))

b_only-IsBytes : IsBytes b_only
b_only-IsBytes = (omega arith, tt)

strstr-IsOccurrence_example :
    (r : Option ℕ) × (strstr 4 sample 20 10 ≡ ok r) × IsOccurrence 20 abb ab r
strstr-IsOccurrence_example =
    strstr-IsOccurrence 4 sample 20 10 abb ab (omega arith) (omega arith) abb_at ab_at

casecmp_with_locale_example :
    (strcasecmp_l 4 sample 10 20 0 ≡ ok (lex (map lowered ab) (map lowered abb)))
    × (strncasecmp_l sample 10 20 2 0
        ≡ ok (lex (take 2 (map lowered ab)) (take 2 (map lowered abb))))
casecmp_with_locale_example =
    casecmp_with_locale 4 sample 10 20 2 0 ab abb (omega arith) ab_at abb_at ab-IsBytes abb-IsBytes

all_tokens-AtWords_example :
    (ts : List ℕ) × (m' : Mem) × (all_tokens 4 4 sample (some 20) 11 none ≡ ok (ts, m'))
    × AtWords m' ts (words b_only abb)
    × ((q : ℕ) → (q < 20) ⊎ (20 + length abb < q) → m' q ≡ sample q)
all_tokens-AtWords_example =
    all_tokens-AtWords 4 4 sample (some 20) none 20 11 abb b_only (omega arith) (omega arith)
      (omega arith) (inl refl) abb_at b_at b_only-IsBytes (inl (omega arith))

all_fields-AtWords_example :
    (ts : List ℕ) × (m' : Mem) × (all_fields 5 4 sample (some 20) 11 ≡ ok (ts, m'))
    × AtWords m' ts (fields b_only abb)
    × ((q : ℕ) → (q < 20) ⊎ (20 + length abb < q) → m' q ≡ sample q)
all_fields-AtWords_example =
    all_fields-AtWords 5 4 sample 20 11 abb b_only (omega arith) (omega arith) (omega arith) abb_at
      b_at b_only-IsBytes (inl (omega arith))
