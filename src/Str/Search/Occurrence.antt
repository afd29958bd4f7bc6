-- ===== src/Str/Search/Occurrence.antt =====
-- strstr finds the first place where the needle occurs.
use mytilus.Base.{
  ℕ, zero, suc, ◌+◌, ◌<◌, ◌≤◌, ◌≡◌, ◌≢◌, Bool, true, false, ◌&&◌, ◌==◌, Option, none, some, List,
  [], ◌∷◌, length, take, drop, arith, refl, Bool-cases, inl, inr,
}
use mytilus.Memory.{Mem, ok, IsCStr}
use mytilus.Str.Search.{match_loop, strstr_loop, strstr}

-- `ns` is a prefix of `hs`.
abbrev starts : List ℕ → List ℕ → Bool
starts hs [] = true
starts [] (n ∷ ns) = false
starts (h ∷ hs) (n ∷ ns) = h == n && starts hs ns

starts-take : (hs ns : List ℕ) → starts hs ns ≡ true → take (length ns) hs ≡ ns
starts-take hs [] e = refl
starts-take [] (n ∷ ns) e = ground (arith, e)
starts-take (h ∷ hs) (n ∷ ns) e = ground (arith, e, starts-take hs ns)

take-starts : (hs ns : List ℕ) → take (length ns) hs ≡ ns → starts hs ns ≡ true
take-starts hs [] e = refl
take-starts [] (n ∷ ns) e = ground (arith, e)
take-starts (h ∷ hs) (n ∷ ns) e = ground (arith, e, take-starts hs ns)

-- The byte of the needle at which the comparison stops is 0 exactly if the whole needle matched.
match_loop-starts :
    (f : ℕ) (m : Mem) (p q : ℕ) (hs ns : List ℕ)
    → length ns < f
    → IsCStr m p hs
    → IsCStr m q ns
    → (b : ℕ) × (match_loop f m p q ≡ ok b) × ((b == 0) ≡ starts hs ns)
unfolding match_loop
match_loop-starts zero m p q hs ns l h k = absurd (omega arith)
match_loop-starts (suc f) m p q [] [] l h k = (0, ground arith, refl)
match_loop-starts (suc f) m p q (a ∷ hs) [] l h k = (0, ground arith, refl)
match_loop-starts (suc f) m p q [] (b ∷ ns) l h k = (b, ground arith, ground arith)
match_loop-starts (suc f) m p q (a ∷ hs) (b ∷ ns) l h k =
    let (c, runs, zero_iff) = match_loop-starts f m (p + 1) (q + 1) hs ns (omega arith) h.2 k.2 in
    elim (Bool-cases (a == b)) [
      | inl same ↦ (c, ground (arith, runs), ground (arith, zero_iff))
      | inr other ↦ (b, ground arith, ground arith)
    ]

-- What a search for `ns` in `hs`, which starts at h, returns.
abbrev pub IsOccurrence : ℕ → List ℕ → List ℕ → Option ℕ → Type 0
IsOccurrence h hs ns none = (i : ℕ) → i ≤ length hs → take (length ns) (drop i hs) ≢ ns
IsOccurrence h hs ns (some p) =
    (i : ℕ) × (i ≤ length hs)
    × (p ≡ h + i)
    × (take (length ns) (drop i hs) ≡ ns)
    × ((j : ℕ) → j < i → take (length ns) (drop j hs) ≢ ns)

empty_miss : (i b : ℕ) (ns : List ℕ) → take (suc (length ns)) (drop i []) ≢ b ∷ ns
empty_miss zero b ns e = ground (arith, e)
empty_miss (suc i) b ns e = ground (arith, e)

later :
    (h x : ℕ) (hs ns : List ℕ) (r : Option ℕ)
    → take (length ns) (x ∷ hs) ≢ ns
    → IsOccurrence (h + 1) hs ns r
    → IsOccurrence h (x ∷ hs) ns r
later h x hs ns none miss rest = λ i l.
    elim i as (λ k. k ≤ suc (length hs) → take (length ns) (drop k (x ∷ hs)) ≢ ns) [
      | zero ↦ λ _. miss
      | suc k ↦ λ u. rest k (omega arith)
    ]
      l
later h x hs ns (some p) miss (i, l, e, hit, first) = (
  suc i,
  omega arith,
  omega arith,
  hit,
  λ j. elim j as (λ k. k < suc i → take (length ns) (drop k (x ∷ hs)) ≢ ns) [
    | zero ↦ λ _. miss
    | suc k ↦ λ u. first k (omega arith)
  ],
)

strstr_loop-IsOccurrence :
    (f g : ℕ) (m : Mem) (h n : ℕ) (hs : List ℕ) (b : ℕ) (ns : List ℕ)
    → length (b ∷ ns) < f
    → length hs < g
    → IsCStr m h hs
    → IsCStr m n (b ∷ ns)
    → (r : Option ℕ) × (strstr_loop f g m h n ≡ ok r) × IsOccurrence h hs (b ∷ ns) r
unfolding strstr_loop
strstr_loop-IsOccurrence f zero m h n hs b ns l u string needle = absurd (omega arith)
strstr_loop-IsOccurrence f (suc g) m h n [] b ns l u string needle =
    (none, ground arith, λ i l. empty_miss i b ns)
strstr_loop-IsOccurrence f (suc g) m h n (x ∷ hs) b ns l u string needle =
    let (c, runs, zero_iff) = match_loop-starts f m h n (x ∷ hs) (b ∷ ns) l string needle in
    elim (Bool-cases (starts (x ∷ hs) (b ∷ ns))) [
      | inl hit ↦ (
        some h,
        ground (arith, runs, zero_iff),
        (
          0,
          omega arith,
          omega arith,
          starts-take (x ∷ hs) (b ∷ ns) hit,
          λ j k. absurd (omega arith),
        ),
      )
      | inr miss ↦
          let (r, more, found) =
            strstr_loop-IsOccurrence f g m (h + 1) n hs b ns l (omega arith) string.2 needle in
          (
            r,
            ground (arith, runs, zero_iff, more),
            later h x hs (b ∷ ns) r (λ e. ground (arith, miss, take-starts (x ∷ hs) (b ∷ ns) e))
                found,
          )
    ]

-- On two C strings, with fuel above both lengths, strstr ends and returns the address of the first occurrence of the second one in
-- the first one, or NULL when it does not occur; the empty string occurs at the start.
pub strstr-IsOccurrence :
    (f : ℕ) (m : Mem) (h n : ℕ) (hs ns : List ℕ)
    → length ns < f
    → length hs < f
    → IsCStr m h hs
    → IsCStr m n ns
    → (r : Option ℕ) × (strstr f m h n ≡ ok r) × IsOccurrence h hs ns r
unfolding strstr
strstr-IsOccurrence f m h n hs [] l u string needle =
    (some h, ground arith, (0, omega arith, omega arith, refl, λ j k. absurd (omega arith)))
strstr-IsOccurrence f m h n hs (b ∷ ns) l u string needle =
    let (r, runs, found) = strstr_loop-IsOccurrence f f m h n hs b ns l u string needle in
    (r, ground (arith, runs), found)
