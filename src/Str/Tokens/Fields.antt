-- ===== src/Str/Tokens/Fields.antt =====
-- A caller of strsep, crates/mytilus-string/src/str_search.rs, until NULL: the fields of a string.
use mytilus.Base.{
  ℕ, zero, suc, ◌+◌, ◌<◌, ◌≤◌, ◌≡◌, ◌⊎◌, false, not, if◌then◌else◌, Option, none, some, List, [],
  ◌∷◌, length, span, length-drop, take, drop, length-take, arith, refl, sym, ◌∙◌, Bool-cases, inl,
  inr,
}
use mytilus.Memory.{Mem, Run, ok, out_of_fuel, ◌>>=◌, IsCStr, IsCStr-frame}
use mytilus.Str.Search.Sets.{member, IsBytes}
use mytilus.Str.Tokens.{strsep}
use mytilus.Str.Tokens.Laws.{strsep-IsCut}
use mytilus.Str.Tokens.Words.{put_in_front, AtWords, AtWords-frame}

-- The loop of a caller until NULL: the fields, and the memory behind the last call.
pub all_fields : ℕ → ℕ → Mem → Option ℕ → ℕ → Run (List ℕ × Mem)
all_fields zero f m kept sep = out_of_fuel
all_fields (suc g) f m kept sep = do
  (r, kept', m') ← strsep f m kept sep
  let more = all_fields g f m' kept' sep
  elim r [ none ↦ ok ([], m') | some t ↦ more >>= λ (ts, m''). ok (t ∷ ts, m'') ]

-- The fields of a text: what stands between one separator and the next.
pub fields : List ℕ → List ℕ → List (List ℕ)
fields seps [] = [] ∷ []
fields seps (b ∷ bs) =
    if member seps b then [] ∷ fields seps bs else put_in_front b (fields seps bs)

module _ (seps : List ℕ) where
  -- The last field goes to the end of the text.
  last_field :
      (bs : List ℕ)
      → span (λ b. not (member seps b)) bs ≡ length bs
      → fields seps bs ≡ take (length bs) bs ∷ []
  unfolding fields
  last_field [] e = refl
  last_field (b ∷ bs) e =
      let inside : member seps b ≡ false = ground (arith, e) in
      let rest = last_field bs (ground (arith, e, inside)) in rw (inside, rest) refl

  -- The first field ends at the first separator.
  fields_next :
      (bs : List ℕ)
      → let n = span (λ b. not (member seps b)) bs in
        n < length bs → fields seps bs ≡ take n bs ∷ fields seps (drop (n + 1) bs)
  unfolding fields
  fields_next [] l = absurd (omega arith)
  fields_next (b ∷ bs) l = elim (Bool-cases (member seps b)) [
    | inl separator ↦ ground (arith, separator)
    | inr inside ↦
        let rest = fields_next bs (ground (arith, l, inside)) in ground (arith, inside, rest)
  ]

no_call : (g f : ℕ) (m : Mem) (sep : ℕ) → 0 < g → all_fields g f m none sep ≡ ok ([], m)
unfolding all_fields strsep
no_call zero f m sep l = absurd (omega arith)
no_call (suc g) f m sep l = refl

-- A caller's loop over strsep ends, with fuel for one call more than the string has bytes and one
-- for NULL, and its results are the fields of the string, in order, empty ones
-- included, which stand in the memory behind the last call at the addresses returned; no byte
-- outside the string has changed. The string of separators lies outside the string.
pub all_fields-AtWords :
    (g f : ℕ) (m : Mem) (s sep : ℕ) (bs seps : List ℕ)
    → length bs + 1 < g
    → length bs < f
    → length seps < f
    → IsCStr m s bs
    → IsCStr m sep seps
    → IsBytes seps
    → (sep + length seps < s) ⊎ (s + length bs < sep)
    → (ts : List ℕ) × (m' : Mem) × (all_fields g f m (some s) sep ≡ ok (ts, m'))
      × AtWords m' ts (fields seps bs)
      × ((q : ℕ) → (q < s) ⊎ (s + length bs < q) → m' q ≡ m q)
unfolding all_fields
all_fields-AtWords zero f m s sep bs seps lg lf ls h hs bytes apart = absurd (omega arith)
all_fields-AtWords (suc g) f m s sep bs seps lg lf ls h hs bytes apart =
    let n = span (λ b. not (member seps b)) bs in
    let (kept, m', runs, cuts) = strsep-IsCut f m s sep bs seps h hs bytes lf ls in
    let field_size : length (take n bs) ≤ n = omega (arith, length-take n bs) in
    elim cuts.rest [
      | inl (whole, nothing) ↦
          let last = no_call g f m' sep (omega arith) in
          let token : IsCStr m' s (take (length bs) bs) = rw (sym whole) cuts.token in
          (
            s ∷ [],
            m',
            ground (arith, runs, nothing, last),
            rw (last_field seps bs whole) (token, tt),
            λ q out. cuts.frame q (omega arith),
          )
      | inr (short, onward, tail) ↦
          let separators =
            IsCStr-frame m m' sep seps (λ i l. cuts.frame (sep + i) (omega arith)) hs in
          let (ts, m'', others, placed, frame) =
            all_fields-AtWords g f m' (s + n + 1) sep (drop (n + 1) bs) seps
              (omega (arith, length-drop (n + 1) bs)) (omega (arith, length-drop (n + 1) bs)) ls
              tail separators bytes (omega (arith, length-drop (n + 1) bs)) in
          (
            s ∷ ts,
            m'',
            ground (arith, runs, onward, others),
            rw (fields_next seps bs short) (
                AtWords-frame m' m'' ts (fields seps (drop (n + 1) bs)) s n (take n bs)
                  (λ q le. frame q (inl (omega arith))) field_size cuts.token placed),
            λ q out. frame q (omega (arith, length-drop (n + 1) bs)) ∙ cuts.frame q (omega arith),
          )
    ]
