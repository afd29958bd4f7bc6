-- ===== src/Str/Search/Spans.antt =====
-- strspn, strcspn and strpbrk on C strings, whichever of their paths the set of bytes takes.
use mathlib.Core.Path.{fun_ext}
use mytilus.Base.{
  ℕ, zero, suc, ◌+◌, ◌-◌, ◌%◌, ◌<◌, ◌≡◌, ◌≢◌, Bool, true, false, not, ◌==◌, if◌then◌else◌, Option,
  none, some, List, [], ◌∷◌, length, get_elem?-lt, span, span-le-length, span_inside, span_stops,
  get_elem?, arith, refl, ap, Bool-cases, inl, inr,
}
use mytilus.Memory.{Mem, ok, ◌>>=◌, IsCStr, IsCStr-nul, IsCStr-elem}
use mytilus.Str.Find.{strchrnul-span}
use mytilus.Str.Search.{
  byteset_test, no_bytes, collect_loop, same_loop, span_loop, strspn, strcspn, strpbrk,
}
use mytilus.Str.Search.Sets.{member, IsBytes, byteset_test_none, collect_loop-member}

same_loop-span :
    (f : ℕ) (m : Mem) (b s : ℕ) (bs : List ℕ)
    → length bs < f
    → b ≢ 0
    → IsCStr m s bs
    → same_loop f m b s ≡ ok (s + span (λ a. a == b) bs)
unfolding same_loop
same_loop-span zero m b s bs l ne h = absurd (omega arith)
same_loop-span (suc f) m b s [] l ne h = ground arith
same_loop-span (suc f) m b s (a ∷ bs) l ne h =
    ground (arith, same_loop-span f m b (s + 1) bs (omega arith) ne h.2)

-- Inside the set, or outside of it.
abbrev sided : List ℕ → Bool → ℕ → Bool
sided set wanted b = if wanted then byteset_test set b else not (byteset_test set b)

span_loop-span :
    (f : ℕ) (m : Mem) (set : List ℕ) (wanted : Bool) (s : ℕ) (bs : List ℕ)
    → length bs < f
    → IsCStr m s bs
    → span_loop f m set wanted s ≡ ok (s + span (sided set wanted) bs)
unfolding span_loop
span_loop-span zero m set wanted s bs l h = absurd (omega arith)
span_loop-span (suc f) m set wanted s [] l h = ground arith
span_loop-span (suc f) m set wanted s (a ∷ bs) l h =
    ground (arith, span_loop-span f m set wanted (s + 1) bs (omega arith) h.2)

span_none : (bs : List ℕ) → span (member []) bs ≡ 0
span_none [] = refl
span_none (b ∷ bs) = refl

span_all :
    (m : Mem) (s : ℕ) (bs : List ℕ)
    → IsCStr m s bs
    → span (λ b. not (b == 0 % 256)) bs ≡ span (λ b. not (member [] b)) bs
span_all m s [] h = refl
span_all m s (b ∷ bs) h = ground (arith, span_all m (s + 1) bs h.2)

-- What a search in `bs`, which starts at s, for a byte of `cs` returns.
abbrev pub IsFirstOf : ℕ → List ℕ → List ℕ → Option ℕ → Type 0
IsFirstOf s bs cs none = (i x : ℕ) → get_elem? bs i ≡ some x → member cs x ≡ false
IsFirstOf s bs cs (some p) =
    (i x : ℕ) × (p ≡ s + i)
    × (get_elem? bs i ≡ some x)
    × (member cs x ≡ true)
    × ((j y : ℕ) → j < i → get_elem? bs j ≡ some y → member cs y ≡ false)

module _ (f : ℕ) (m : Mem) (s c : ℕ) (bs : List ℕ) (enough : length bs < f)
    (string : IsCStr m s bs) where
  -- The path through the byte set.
  set_path :
      (wanted : Bool) (cs : List ℕ)
      → length cs < f
      → IsCStr m c cs
      → IsBytes cs
      → (collect_loop f m no_bytes c >>= λ set. span_loop f m set wanted s >>= λ sp. ok (sp - s))
        ≡ ok (span (λ b. if wanted then member cs b else not (member cs b)) bs)
  set_path wanted cs l h small =
      let (set, runs, tests) = collect_loop-member f m no_bytes c cs l refl h small in
      let same : sided set wanted ≡ (λ b. if wanted then member cs b else not (member cs b)) =
        fun_ext λ b. ground (arith, tests b, byteset_test_none b) in
      ground (
        arith,
        runs,
        span_loop-span f m set wanted s bs enough string,
        ap (λ (p : ℕ → Bool). span p bs) same,
      )

  -- On two C strings of bytes, with fuel above both lengths, strspn returns the length of the longest prefix of the first one that consists
  -- of bytes of the second one.
  pub strspn-eq-span :
      (cs : List ℕ)
      → length cs < f
      → IsCStr m c cs
      → IsBytes cs
      → strspn f m s c ≡ ok (span (member cs) bs)
  unfolding strspn
  strspn-eq-span [] l h small = ground (arith, span_none bs)
  strspn-eq-span (x ∷ []) l h small =
      let same : (λ (b : ℕ). b == x) ≡ member (x ∷ []) = fun_ext λ b. ground arith in
      ground
        (arith, same_loop-span f m x s bs enough h.1 string, ap (λ (p : ℕ → Bool). span p bs) same)
  strspn-eq-span (x ∷ y ∷ cs) l h small = ground (arith, set_path true (x ∷ y ∷ cs) l h small)

  -- On two C strings of bytes, with fuel above both lengths, strcspn returns the length of the longest prefix of the first one without a
  -- byte of the second one.
  pub strcspn-eq-span :
      (cs : List ℕ)
      → length cs < f
      → IsCStr m c cs
      → IsBytes cs
      → strcspn f m s c ≡ ok (span (λ b. not (member cs b)) bs)
  unfolding strcspn
  strcspn-eq-span [] l h small =
      ground (arith, strchrnul-span f m s 0 bs enough string, span_all m s bs string)
  strcspn-eq-span (x ∷ []) l h small =
      let low : x % 256 ≡ x = omega (arith, small) in
      let other : ℕ → Bool = λ b. not (b == x % 256) in
      let outside : ℕ → Bool = λ b. not (member (x ∷ []) b) in
      let same : other ≡ outside = fun_ext λ b. ground (arith, low) in
      ground (arith, strchrnul-span f m s x bs enough string, ap (λ (p : ℕ → Bool). span p bs) same)
  strcspn-eq-span (x ∷ y ∷ cs) l h small = ground (arith, set_path false (x ∷ y ∷ cs) l h small)

  -- On two C strings of bytes, with fuel above both lengths, strpbrk returns the address of the first byte of the first string that the second one contains,
  -- or NULL when it contains none of them.
  pub strpbrk-IsFirstOf :
      (cs : List ℕ)
      → length cs < f
      → IsCStr m c cs
      → IsBytes cs
      → (r : Option ℕ) × (strpbrk f m s c ≡ ok r) × IsFirstOf s bs cs r
  unfolding strpbrk
  strpbrk-IsFirstOf cs l h small =
      let outside = λ (b : ℕ). not (member cs b) in
      let n = span outside bs in
      let le = span-le-length outside bs in
      let spans = strcspn-eq-span cs l h small in
      elim (Bool-cases (n == length bs)) [
        | inl whole ↦
            let nul = IsCStr-nul m s bs string in
            let e : n ≡ length bs = ground arith in
            (
              none,
              ground (arith, spans, nul, e),
              λ i x elem. ground (arith, span_inside outside bs i x, get_elem?-lt bs i x elem),
            )
        | inr part ↦
            let (x, elem, at, ne) = IsCStr-elem m s bs n string (ground arith) in
            (
              some (s + n),
              ground (arith, spans, at, ne),
              (
                n,
                x,
                refl,
                elem,
                ground (arith, span_stops outside bs x elem),
                λ j y k e. ground (arith, span_inside outside bs j y k e),
              ),
            )
      ]
