-- ===== src/Str/Tokens/Laws.antt =====
-- What a call of strsep and of strtok_r leaves behind.
use mytilus.Base.{
  ℕ, zero, suc, ◌+◌, ◌<◌, ◌≤◌, ◌≡◌, ◌≢◌, ◌⊎◌, not, ◌==◌, Option, none, some, List, [], ◌∷◌, length,
  span, span-le-length, span_next, length-drop, take, take_whole, drop, arith, refl, Bool-cases,
  inl, inr,
}
use mytilus.Memory.{Mem, Run, ok, update, IsCStr, IsCStr-nul, IsCStr-elem, IsCStr-drop}
use mytilus.Str.Search.Sets.{member, IsBytes}
use mytilus.Str.Search.Spans.{strspn-eq-span, strcspn-eq-span}
use mytilus.Str.Tokens.{Token, cut, strsep, strtok_from, strtok_r}

-- `*(p + n) = 0` leaves the first n bytes of a string, and the string behind the place.
cut_string :
    (m : Mem) (p n : ℕ) (bs : List ℕ)
    → n ≤ length bs
    → IsCStr m p bs
    → IsCStr (update m (p + n) 0) p (take n bs)
cut_string m p zero bs l h = ground arith
cut_string m p (suc n) [] l h = absurd (omega arith)
cut_string m p (suc n) (b ∷ bs) l h =
    let e : p + 1 + n ≡ p + suc n = omega arith in
    (ground arith, h.1, rw e at (cut_string m (p + 1) n bs (omega arith) h.2))

rest_string : (m : Mem) (p q : ℕ) (bs : List ℕ) → q < p → IsCStr m p bs → IsCStr (update m q 0) p bs
rest_string m p q [] l h = ground arith
rest_string m p q (b ∷ bs) l h = (ground arith, h.1, rest_string m (p + 1) q bs (omega arith) h.2)

-- A token of n bytes was cut off the string `bs` at s: it stands there, NUL-terminated; behind it
-- the kept pointer holds the rest of the string, or is NULL when the token went to the end; and no
-- byte but the one behind the token has changed.
pub record IsCut (m : Mem) (s : ℕ) (bs : List ℕ) (n : ℕ) (kept : Option ℕ) (m' : Mem) : Type 0 where
  pub token : IsCStr m' s (take n bs)
  pub rest :
      ((n ≡ length bs) × (kept ≡ none))
      ⊎ ((n < length bs) × (kept ≡ some (s + n + 1)) × IsCStr m' (s + n + 1) (drop (n + 1) bs))
  pub frame : (q : ℕ) → q ≢ s + n → m' q ≡ m q

cut-IsCut :
    (m : Mem) (s n : ℕ) (bs : List ℕ)
    → n ≤ length bs
    → IsCStr m s bs
    → (kept : Option ℕ) × (m' : Mem) × (cut m s (s + n) ≡ ok (some s, kept, m'))
      × IsCut m s bs n kept m'
unfolding cut
cut-IsCut m s n bs l h = elim (Bool-cases (n == length bs)) [
  | inl whole ↦
      let e : n ≡ length bs = ground arith in
      let all = take_whole n bs (omega arith) in
      (
        none,
        m,
        ground (arith, IsCStr-nul m s bs h, e),
        record { token = rw all h; rest = inl (e, refl); frame = λ q ne. refl },
      )
  | inr part ↦
      let less : n < length bs = ground arith in
      let (b, elem, at, ne) = IsCStr-elem m s bs n h less in
      let behind =
        rest_string m (s + (n + 1)) (s + n) (drop (n + 1) bs) (omega arith)
          (IsCStr-drop m s (n + 1) bs (omega arith) h) in
      let e : s + (n + 1) ≡ s + n + 1 = omega arith in
      (
        some (s + n + 1),
        update m (s + n) 0,
        ground (arith, at, ne),
        record {
          token = cut_string m s n bs l h;
          rest = inr (less, refl, rw e at behind);
          frame = λ q other. ground arith;
        },
      )
]

module _ (f : ℕ) (m : Mem) (s sep : ℕ) (bs seps : List ℕ) (string : IsCStr m s bs)
    (separators : IsCStr m sep seps) (bytes : IsBytes seps) (enough : length bs < f)
    (enough_seps : length seps < f) where
  -- strsep on a string cuts off what stands in front of the first separator, which may be nothing,
  -- and returns the start of the string.
  pub strsep-IsCut :
      (kept : Option ℕ) × (m' : Mem) × (strsep f m (some s) sep ≡ ok (some s, kept, m'))
      × IsCut m s bs (span (λ b. not (member seps b)) bs) kept m'
  unfolding strsep
  strsep-IsCut =
      let spans = strcspn-eq-span f m s sep bs enough string seps enough_seps separators bytes in
      rw spans (cut-IsCut m s (span (λ b. not (member seps b)) bs) bs (span-le-length _ bs) string)

  -- The token behind the separators at the start of the string, or none when there are only
  -- separators.
  abbrev pub TokenOrNone : Run Token → Type 0
  TokenOrNone r =
      let k = span (member seps) bs in
      ((k ≡ length bs) × (r ≡ ok (none, none, m)))
      ⊎ ((k < length bs)
          × (kept : Option ℕ) × (m' : Mem) × (r ≡ ok (some (s + k), kept, m'))
          × (0 < span (λ b. not (member seps b)) (drop k bs))
          × IsCut m (s + k) (drop k bs) (span (λ b. not (member seps b)) (drop k bs)) kept m')

  strtok_from_lem : TokenOrNone (strtok_from f m s sep)
  unfolding strtok_from
  strtok_from_lem =
      let k = span (member seps) bs in
      let le = span-le-length (member seps) bs in
      let spans = strspn-eq-span f m s sep bs enough string seps enough_seps separators bytes in
      elim (Bool-cases (k == length bs)) [
        | inl only ↦
            let e : k ≡ length bs = ground arith in
            inl (e, ground (arith, spans, IsCStr-nul m s bs string, e))
        | inr more ↦
            let less : k < length bs = ground arith in
            let (b, elem, at, ne) = IsCStr-elem m s bs k string less in
            let rest = IsCStr-drop m s k bs le string in
            let outside = λ (b : ℕ). not (member seps b) in
            let n = span outside (drop k bs) in
            let size : length (drop k bs) < f = omega (arith, length-drop k bs) in
            let token =
              strcspn-eq-span f m (s + k) sep (drop k bs) size rest seps enough_seps separators
                bytes in
            let (kept, m', runs, cuts) =
              cut-IsCut m (s + k) n (drop k bs) (span-le-length outside (drop k bs)) rest in
            inr (
              less,
              kept,
              m',
              ground (arith, spans, at, ne, token, runs),
              span_next (member seps) outside bs less (λ x e. ground (arith, e)),
              cuts,
            )
      ]

  -- strtok_r, called with a string or with NULL and the pointer kept for it, skips the separators
  -- in front and returns the longest piece behind them without a separator, which is not empty, cut
  -- off the string; when the string has only separators it returns NULL, keeps NULL, and changes
  -- nothing.
  pub strtok_r-TokenOrNone :
      (given kept : Option ℕ)
      → (given ≡ some s) ⊎ ((given ≡ none) × (kept ≡ some s))
      → TokenOrNone (strtok_r f m given sep kept)
  unfolding strtok_r
  strtok_r-TokenOrNone given kept h =
      let e : strtok_r f m given sep kept ≡ strtok_from f m s sep = ground (arith, h) in
      rw e strtok_from_lem
