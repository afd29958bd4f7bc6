-- ===== src/Str/Copy/Laws.antt =====
-- stpcpy, strcpy and strcat leave the string that they promise, and nothing else changed.
use mytilus.Base.{
  ℕ, zero, suc, ◌+◌, ◌≤◌, ◌<◌, ◌≡◌, ◌≢◌, ◌⊎◌, inl, some, List, [], ◌∷◌, ◌++◌, length, ◌==◌,
  if◌then◌else◌, arith, ap, ◌∙◌,
}
use mytilus.Memory.{Mem, ok, update, IsCStr, IsMapped}
use mytilus.Str.Length.{strlen-eq-length}
use mytilus.Str.Copy.{stpcpy, strcpy, strcat}

-- Only the n addresses from d on may hold other bytes than before.
abbrev pub IsFramed : Mem → Mem → ℕ → ℕ → Type 0
IsFramed m m' d n = (q : ℕ) → (q < d) ⊎ (d + n ≤ q) → m' q ≡ m q

pub IsCStr-update :
    (m : Mem) (p b s : ℕ) (bs : List ℕ)
    → (p < s) ⊎ (s + length bs < p)
    → IsCStr m s bs
    → IsCStr (update m p b) s bs
IsCStr-update m p b s [] apart h = ground arith
IsCStr-update m p b s (c ∷ bs) apart h =
    (ground arith, h.1, IsCStr-update m p b (s + 1) bs (omega arith) h.2)

pub IsMapped-update :
    (m : Mem) (d b n : ℕ) → IsMapped m d (suc n) → IsMapped (update m d b) (d + 1) n
IsMapped-update m d b n h i l =
    let (c, at) = h (suc i) (omega arith) in
    let e : d + suc i ≡ d + 1 + i = omega arith in (c, ground (arith, ap m e))

pub mapped_head : (m : Mem) (d n : ℕ) → IsMapped m d n → 0 < n → (c : ℕ) × (m d ≡ some c)
mapped_head m d n h l = let (c, at) = h 0 l in let e : d + 0 ≡ d = omega arith in (c, rw e at at)

-- What a copy of the string `bs` to `d` leaves.
pub record IsCopied (m : Mem) (d : ℕ) (bs : List ℕ) (m' : Mem) : Type 0 where
  pub string : IsCStr m' d bs
  pub frame : IsFramed m m' d (length bs + 1)

-- One round: the byte at s goes to d, and the byte read back from s is the same.
stpcpy_round :
    (f : ℕ) (m : Mem) (d s b c : ℕ)
    → m s ≡ some b
    → m d ≡ some c
    → d ≢ s
    → stpcpy (suc f) m d s
      ≡ (if b == 0 then ok (d, update m d b) else stpcpy f (update m d b) (d + 1) (s + 1))
unfolding stpcpy
stpcpy_round f m d s b c hs hd ne =
    let back : update m d b s ≡ some b = ground arith in ground (arith, back)

-- Between regions that do not overlap stpcpy ends, copies the string with its terminator, changes
-- no other byte and returns the address of the terminator in the copy.
pub stpcpy-IsCopied :
    (f : ℕ) (m : Mem) (d s : ℕ) (bs : List ℕ)
    → length bs < f
    → IsCStr m s bs
    → IsMapped m d (length bs + 1)
    → (d + length bs < s) ⊎ (s + length bs < d)
    → (m' : Mem) × (stpcpy f m d s ≡ ok (d + length bs, m')) × IsCopied m d bs m'
stpcpy-IsCopied zero m d s bs l h w apart = absurd (omega arith)
stpcpy-IsCopied (suc f) m d s [] l h w apart =
    let (c, at) = mapped_head m d 1 w (omega arith) in
    (
      update m d 0,
      stpcpy_round f m d s 0 c h at (omega arith) ∙ ap (λ k. ok (k, update m d 0)) (omega arith),
      record { string = ground arith; frame = λ q p. ground arith },
    )
stpcpy-IsCopied (suc f) m d s (b ∷ bs) l h w apart =
    let (c, at) = mapped_head m d _ w (omega arith) in
    let (m', runs, copied) =
      stpcpy-IsCopied f (update m d b) (d + 1) (s + 1) bs (omega arith)
        (IsCStr-update m d b (s + 1) bs (omega arith) h.2)
        (IsMapped-update m d b (length bs + 1) (λ i p. w i (omega arith))) (omega arith) in
    (
      m',
      ground (arith, stpcpy_round f m d s b c h.0 at (omega arith), runs),
      record {
        string = (ground (arith, copied.frame d), h.1, copied.string);
        frame = λ q p. ground (arith, copied.frame q);
      },
    )

-- Between regions that do not overlap strcpy copies the string with its terminator, changes no
-- other byte and returns dest.
pub strcpy-IsCopied :
    (f : ℕ) (m : Mem) (d s : ℕ) (bs : List ℕ)
    → length bs < f
    → IsCStr m s bs
    → IsMapped m d (length bs + 1)
    → (d + length bs < s) ⊎ (s + length bs < d)
    → (m' : Mem) × (strcpy f m d s ≡ ok (d, m')) × IsCopied m d bs m'
unfolding strcpy
strcpy-IsCopied f m d s bs l h w apart =
    let (m', runs, copied) = stpcpy-IsCopied f m d s bs l h w apart in
    (m', ground (arith, runs), copied)

-- A string that another continues, in a memory that agrees on the first one.
IsCStr-append :
    (m m' : Mem) (d : ℕ) (xs ys : List ℕ)
    → IsCStr m d xs
    → ((q : ℕ) → q < d + length xs → m' q ≡ m q)
    → IsCStr m' (d + length xs) ys
    → IsCStr m' d (xs ++ ys)
IsCStr-append m m' d [] ys h same k = let e : d + 0 ≡ d = omega arith in rw e at k
IsCStr-append m m' d (x ∷ xs) ys h same k =
    let e : d + suc (length xs) ≡ d + 1 + length xs = omega arith in
    (
      same d (omega arith) ∙ h.0,
      h.1,
      IsCStr-append m m' (d + 1) xs ys h.2 (λ q p. same q (omega arith)) (rw e at k),
    )

-- strcat appends the source string to the one at dest, whose bytes stay, and writes nothing but
-- the appended bytes and their terminator.
pub strcat-appends :
    (f : ℕ) (m : Mem) (d s : ℕ) (xs ys : List ℕ)
    → length xs < f
    → length ys < f
    → IsCStr m d xs
    → IsCStr m s ys
    → IsMapped m (d + length xs) (length ys + 1)
    → (d + length xs + length ys < s) ⊎ (s + length ys < d + length xs)
    → (m' : Mem) × (strcat f m d s ≡ ok (d, m'))
      × IsCStr m' d (xs ++ ys)
      × IsFramed m m' (d + length xs) (length ys + 1)
unfolding strcat
strcat-appends f m d s xs ys lx ly hx hy w apart =
    let (m', runs, copied) = strcpy-IsCopied f m (d + length xs) s ys ly hy w apart in
    (
      m',
      ground (arith, strlen-eq-length f m d xs lx hx, runs),
      IsCStr-append m m' d xs ys hx (λ q p. copied.frame q (inl p)) copied.string,
      copied.frame,
    )
