-- ===== src/Str/Copy/Bounded.antt =====
-- stpncpy and strncpy write exactly n bytes: the string cut off at n, or padded with zeros.
use mytilus.Base.{
  ℕ, zero, suc, ◌+◌, ◌≤◌, ◌<◌, ◌≡◌, ◌≢◌, ◌⊎◌, some, List, [], ◌∷◌, length, ◌==◌, if◌then◌else◌,
  arith, refl, ap, min,
}
use mytilus.Memory.{Mem, ok, ◌>>=◌, update, IsCStr, IsMapped, Holds}
use mytilus.Block.{fill_forward}
use mytilus.Block.Move.{filled, fill_forward-filled}
use mytilus.Str.Copy.{stpncpy, strncpy}
use mytilus.Str.Copy.Laws.{IsFramed, IsCStr-update, IsMapped-update, mapped_head}

-- The first n bytes of a string that zeros follow without end.
pub padded : ℕ → List ℕ → List ℕ
padded zero bs = []
padded (suc n) [] = 0 ∷ padded n []
padded (suc n) (b ∷ bs) = b ∷ padded n bs

stpncpy_round :
    (m : Mem) (d s n b c : ℕ)
    → m s ≡ some b
    → m d ≡ some c
    → d ≢ s
    → stpncpy m d s (suc n) ≡ (
        if b == 0
        then (fill_forward (update m d b) d 0 (suc n) 0 >>= λ k. ok (d, k))
        else stpncpy (update m d b) (d + 1) (s + 1) n)
unfolding stpncpy
stpncpy_round m d s n b c hs hd ne =
    let back : update m d b s ≡ some b = ground arith in ground (arith, back)

zeros-Holds : (m : Mem) (d n : ℕ) → ((i : ℕ) → i < n → m (d + i) ≡ some 0) → Holds m d (padded n [])
unfolding padded
zeros-Holds m d zero h = tt
zeros-Holds m d (suc n) h =
    let e : d + 0 ≡ d = omega arith in
    (
      rw e at (h 0 (omega arith)),
      zeros-Holds m (d + 1) n
          λ i l. let e' : d + suc i ≡ d + 1 + i = omega arith in rw e' at (h (suc i) (omega arith)),
    )

-- Between regions that do not overlap stpncpy ends, writes exactly n bytes, those of the string
-- followed by zeros up to n, changes no other byte, and returns the address of the first zero
-- written or of the end of the buffer.
pub stpncpy-padded :
    (n : ℕ) (m : Mem) (d s : ℕ) (bs : List ℕ)
    → IsCStr m s bs
    → IsMapped m d n
    → (d + n ≤ s) ⊎ (s + length bs < d)
    → (m' : Mem) × (stpncpy m d s n ≡ ok (d + min n (length bs), m'))
      × Holds m' d (padded n bs)
      × IsFramed m m' d n
unfolding padded
stpncpy-padded zero m d s bs h w apart =
    (m, (unfold stpncpy fill_forward in ap (λ k. ok (k, m)) (omega arith)), tt, λ q p. refl)
stpncpy-padded (suc n) m d s [] h w apart =
    let (c, at) = mapped_head m d (suc n) w (omega arith) in
    let mapped : IsMapped (update m d 0) d (suc n) =
      λ i l. let (x, ex) = w i l in (if d == d + i then 0 else x, ground arith) in
    (
      filled (update m d 0) d 0 (suc n),
      ground (
        arith,
        stpncpy_round m d s n 0 c h at (omega arith),
        fill_forward-filled (update m d 0) d 0 (suc n) mapped,
      ),
      zeros-Holds _ d (suc n) (λ i l. ground arith),
      λ q p. ground arith,
    )
stpncpy-padded (suc n) m d s (b ∷ bs) h w apart =
    let (c, at) = mapped_head m d (suc n) w (omega arith) in
    let (m', runs, holds, frame) =
      stpncpy-padded n (update m d b) (d + 1) (s + 1) bs
        (IsCStr-update m d b (s + 1) bs (omega arith) h.2) (IsMapped-update m d b n w)
        (omega arith) in
    (
      m',
      ground (arith, stpncpy_round m d s n b c h.0 at (omega arith), runs),
      (ground (arith, frame d), holds),
      λ q p. ground (arith, frame q),
    )

-- strncpy is stpncpy but for the pointer that it returns, which is dest.
pub strncpy-padded :
    (n : ℕ) (m : Mem) (d s : ℕ) (bs : List ℕ)
    → IsCStr m s bs
    → IsMapped m d n
    → (d + n ≤ s) ⊎ (s + length bs < d)
    → (m' : Mem) × (strncpy m d s n ≡ ok (d, m')) × Holds m' d (padded n bs) × IsFramed m m' d n
unfolding strncpy
strncpy-padded n m d s bs h w apart =
    let (m', runs, holds, frame) = stpncpy-padded n m d s bs h w apart in
    (m', ground (arith, runs), holds, frame)
