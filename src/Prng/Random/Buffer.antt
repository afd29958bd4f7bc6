-- ===== src/Prng/Random/Buffer.antt =====
-- initstate on the buffer of the caller, against the bytes of the buffer.
use mytilus.Base.{ℕ, ◌+◌, ◌/◌, ◌<◌, ◌≤◌, ◌≡◌, ◌≢◌, ◌⊎◌, some, arith, sym, subst, ◌*◌}
use mytilus.Memory.{ok, IsMapped}
use mytilus.Prng.Random.{Random, header, words_of_size, initstate}
use mytilus.Prng.Random.State.{words, base_of, IsReady}
use mytilus.Prng.Random.Seed.{initstate_lem}

-- The sizes of a table; a table of size 0 is one word.
abbrev pub IsTableSize : ℕ → Type 0
IsTableSize n = (n ≡ 0) ⊎ (n ≡ 7) ⊎ (n ≡ 15) ⊎ (n ≡ 31) ⊎ (n ≡ 63)

-- A header and a table of n words, of 4 bytes each, are inside of so many bytes.
abbrev pub Fits : ℕ → ℕ → Type 0
Fits n size = 4 * (1 + words n) ≤ size

words_of_size_lem :
    (size : ℕ)
    → 8 ≤ size
    → IsTableSize (words_of_size size)
      × Fits (words_of_size size) size
      × ((t : ℕ) → IsTableSize t → Fits t size → t ≤ words_of_size size)
unfolding words_of_size
words_of_size_lem size big = (ground arith, ground arith, λ t h f. ground (arith, h, f))

module _ (init : ℕ) where
  -- From a ready state, with a buffer of at least 8 bytes all of whose 4-byte words are mapped, and
  -- which does not contain the header of the buffer in use, initstate ends and returns the buffer
  -- that was in use. Its header then holds the size and the indices that the generator had. The
  -- generator uses the new buffer with a table of 0, 7, 15, 31 or 63 words, one word being used for
  -- 0: the largest of these that is inside of the buffer together with the header. No word outside
  -- of the new header and table and of the old header has changed, and the state is ready again.
  pub initstate-IsReady :
      (s : Random) (seed state size : ℕ)
      → IsReady init s
      → 8 ≤ size
      → IsMapped s.mem state (size / 4)
      → (base_of init s.x < state) ⊎ (state + size / 4 ≤ base_of init s.x)
      → (s' : Random) × (initstate init seed state size s ≡ ok (some (base_of init s.x), s'))
        × (IsTableSize s'.n × Fits s'.n size × ((t : ℕ) → IsTableSize t → Fits t size → t ≤ s'.n))
        × (base_of init s'.x ≡ state)
        × (s'.mem (base_of init s.x) ≡ some (header s.n s.i s.j))
        × ((q : ℕ)
            → q ≢ base_of init s.x
            → (q < state) ⊎ (state + words s'.n < q)
            → s'.mem q ≡ s.mem q)
        × IsReady init s'
  initstate-IsReady s seed state size ready big buffer apart =
      let n = words_of_size size in
      let (known, inside, largest) = words_of_size_lem size big in
      let room : words n + 1 ≤ size / 4 = omega (arith, inside) in
      let (s', runs, count, base, saved, kept, ready') =
        initstate_lem init s seed state size ready big (λ i l. buffer i (omega (arith, l, room)))
          (omega (arith, apart, room)) in
      let e : n ≡ s'.n = sym count in
      (
        s',
        runs,
        (
          subst IsTableSize e known,
          subst (λ t. Fits t size) e inside,
          λ t h f. omega (arith, largest t h f, e),
        ),
        base,
        saved,
        λ q ne out. kept q ne (subst (λ t. (q < state) ⊎ (state + words t < q)) count out),
        ready',
      )
