-- ===== src/Str/Tokens/Words.antt =====
-- The calls strtok_r(s, sep, &p), strtok_r(NULL, sep, &p), .. of a caller give the words of a string.
use mytilus.Base.{
  ℕ, zero, suc, ◌+◌, ◌<◌, ◌≤◌, ◌≡◌, ◌⊎◌, Bool, true, false, not, if◌then◌else◌, Option, none, some,
  List, [], ◌∷◌, length, span, length-drop, take, drop, drop_whole, length-take, arith, refl, ap,
  ◌∙◌, Bool-cases, inl, inr,
}
use mytilus.Memory.{Mem, Run, ok, out_of_fuel, ◌>>=◌, IsCStr, IsCStr-frame}
use mytilus.Str.Search.Sets.{member, IsBytes}
use mytilus.Str.Tokens.{strtok_r}
use mytilus.Str.Tokens.Laws.{strtok_r-TokenOrNone}

-- The loop of a caller until NULL: the tokens, and the memory behind the last call.
pub all_tokens : ℕ → ℕ → Mem → Option ℕ → ℕ → Option ℕ → Run (List ℕ × Mem)
all_tokens zero f m given sep kept = out_of_fuel
all_tokens (suc g) f m given sep kept = do
  (r, kept', m') ← strtok_r f m given sep kept
  let more = all_tokens g f m' none sep kept'
  elim r [ none ↦ ok ([], m') | some t ↦ more >>= λ (ts, m''). ok (t ∷ ts, m'') ]

-- A word goes on at a byte that is no separator.
abbrev goes_on : List ℕ → List ℕ → Bool
goes_on seps [] = false
goes_on seps (b ∷ bs) = not (member seps b)

abbrev pub put_in_front : ℕ → List (List ℕ) → List (List ℕ)
put_in_front b [] = (b ∷ []) ∷ []
put_in_front b (w ∷ ws) = (b ∷ w) ∷ ws

-- The words of a text: the pieces between separators that are not empty.
pub words : List ℕ → List ℕ → List (List ℕ)
words seps [] = []
words seps (b ∷ bs) =
    if member seps b
    then words seps bs
    else if goes_on seps bs
    then put_in_front b (words seps bs)
    else (b ∷ []) ∷ words seps bs

-- At the addresses stand the words, as C strings.
abbrev pub AtWords : Mem → List ℕ → List (List ℕ) → Type 0
AtWords m [] [] = Unit {0}
AtWords m (t ∷ ts) (w ∷ ws) = IsCStr m t w × AtWords m ts ws
AtWords m [] (w ∷ ws) = ⊥
AtWords m (t ∷ ts) [] = ⊥

module _ (seps : List ℕ) where
  words_skip : (bs : List ℕ) → words seps bs ≡ words seps (drop (span (member seps) bs) bs)
  unfolding words
  words_skip [] = refl
  words_skip (b ∷ bs) = elim (Bool-cases (member seps b)) [
    | inl separator ↦ rw separator (words_skip bs)
    | inr other ↦ rw other (ground (arith, other))
  ]

  words_end : (b : ℕ) → member seps b ≡ false → words seps (b ∷ []) ≡ (b ∷ []) ∷ words seps []
  unfolding words
  words_end b inside = ground (arith, inside)

  words_break :
      (b x : ℕ) (bs : List ℕ)
      → member seps b ≡ false
      → member seps x ≡ true
      → words seps (b ∷ x ∷ bs) ≡ (b ∷ []) ∷ words seps bs
  unfolding words
  words_break b x bs inside separator = ground (arith, inside, separator)

  words_on :
      (b x : ℕ) (bs : List ℕ)
      → member seps b ≡ false
      → member seps x ≡ false
      → words seps (b ∷ x ∷ bs) ≡ put_in_front b (words seps (x ∷ bs))
  unfolding words
  words_on b x bs inside other = ground (arith, inside, other)

  -- The first word ends at the first separator.
  words_next :
      (bs : List ℕ)
      → let n = span (λ b. not (member seps b)) bs in
        0 < n → words seps bs ≡ take n bs ∷ words seps (drop (n + 1) bs)
  words_next [] l = absurd (omega arith)
  words_next (b ∷ []) l =
      let inside : member seps b ≡ false = ground (arith, l) in
      ground (arith, inside, words_end b inside)
  words_next (b ∷ x ∷ bs) l =
      let inside : member seps b ≡ false = ground (arith, l) in
      elim (Bool-cases (member seps x)) [
        | inl separator ↦ ground (arith, inside, separator, words_break b x bs inside separator)
        | inr other ↦ ground (
          arith,
          inside,
          other,
          words_on b x bs inside other,
          words_next (x ∷ bs) (ground (arith, other)),
        )
      ]

pub AtWords-frame :
    (m m' : Mem) (ts : List ℕ) (ws : List (List ℕ)) (t n : ℕ) (w : List ℕ)
    → ((q : ℕ) → q ≤ t + n → m' q ≡ m q)
    → length w ≤ n
    → IsCStr m t w
    → AtWords m' ts ws
    → AtWords m' (t ∷ ts) (w ∷ ws)
AtWords-frame m m' ts ws t n w same l h rest =
    (IsCStr-frame m m' t w (λ i le. same (t + i) (omega arith)) h, rest)

last_call : (g f : ℕ) (m : Mem) (sep : ℕ) → 0 < g → all_tokens g f m none sep none ≡ ok ([], m)
unfolding all_tokens strtok_r
last_call zero f m sep l = absurd (omega arith)
last_call (suc g) f m sep l = refl

words_nil : (seps : List ℕ) → words seps [] ≡ []
unfolding words
words_nil seps = refl

no_words : (seps bs : List ℕ) → span (member seps) bs ≡ length bs → words seps bs ≡ []
unfolding words
no_words seps bs e =
    words_skip seps bs ∙ ap (words seps) (drop_whole (span (member seps) bs) bs (omega arith))

-- A caller's loop over strtok_r ends, with fuel above the lengths of the string and of the
-- separators, and its tokens are the words of the string, in order, which
-- stand in the memory behind the last call at the addresses returned; no byte outside the string
-- has changed. The string of separators lies outside the string.
pub all_tokens-AtWords :
    (g f : ℕ) (m : Mem) (given kept : Option ℕ) (s sep : ℕ) (bs seps : List ℕ)
    → length bs < g
    → length bs < f
    → length seps < f
    → (given ≡ some s) ⊎ ((given ≡ none) × (kept ≡ some s))
    → IsCStr m s bs
    → IsCStr m sep seps
    → IsBytes seps
    → (sep + length seps < s) ⊎ (s + length bs < sep)
    → (ts : List ℕ) × (m' : Mem) × (all_tokens g f m given sep kept ≡ ok (ts, m'))
      × AtWords m' ts (words seps bs)
      × ((q : ℕ) → (q < s) ⊎ (s + length bs < q) → m' q ≡ m q)
unfolding all_tokens
all_tokens-AtWords zero f m given kept s sep bs seps lg lf ls from h hs bytes apart =
    absurd (omega arith)
all_tokens-AtWords (suc g) f m given kept s sep bs seps lg lf ls from h hs bytes apart =
    elim (strtok_r-TokenOrNone f m s sep bs seps h hs bytes lf ls given kept from) [
      | inl (only, runs) ↦
          ([], m, ground (arith, runs), rw (no_words seps bs only) tt, λ q out. refl)
      | inr (less, kept', m', runs, long, cuts) ↦
          let k = span (member seps) bs in
          let rest = drop k bs in
          let n = span (λ b. not (member seps b)) rest in
          let size = length-drop k bs in
          let split = words_skip seps bs ∙ words_next seps rest long in
          let token_size : length (take n rest) ≤ n = omega (arith, length-take n rest) in
          elim cuts.rest [
            | inl (whole, nothing) ↦
                let over =
                  ap (words seps) (drop_whole (n + 1) rest (omega arith)) ∙ words_nil seps in
                let last = last_call g f m' sep (omega arith) in
                (
                  (s + k) ∷ [],
                  m',
                  ground (arith, runs, nothing, last),
                  rw (split, over) (cuts.token, tt),
                  λ q out. cuts.frame q (omega arith),
                )
            | inr (short, onward, tail) ↦
                let separators =
                  IsCStr-frame m m' sep seps (λ i l. cuts.frame (sep + i) (omega arith)) hs in
                let (ts, m'', others, placed, frame) =
                  all_tokens-AtWords g f m' none kept' (s + k + n + 1) sep (drop (n + 1) rest) seps
                    (omega (arith, length-drop (n + 1) rest))
                    (omega (arith, length-drop (n + 1) rest)) ls (inr (refl, onward)) tail
                    separators bytes (omega (arith, length-drop (n + 1) rest)) in
                (
                  (s + k) ∷ ts,
                  m'',
                  ground (arith, runs, others),
                  rw split (
                      AtWords-frame m' m'' ts (words seps (drop (n + 1) rest)) (s + k) n
                        (take n rest) (λ q le. frame q (inl (omega arith))) token_size cuts.token
                        placed),
                  λ q out.
                      let inner = frame q (omega (arith, length-drop (n + 1) rest)) in
                      inner ∙ cuts.frame q (omega arith),
                )
          ]
    ]
