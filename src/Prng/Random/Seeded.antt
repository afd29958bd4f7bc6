-- ===== src/Prng/Random/Seeded.antt =====
-- srandom of crates/mytilus-prng/src/lib.rs and the calls of random behind it, against the additive
-- generator on the words of the seed.
use mytilus.Base.{
  ℕ, zero, suc, ◌+◌, ◌-◌, ◌/◌, ◌^◌, ◌<◌, ◌≤◌, ◌≡◌, ◌⊎◌, inl, inr, ◌||◌, ◌==◌, ltb, if◌then◌else◌,
  some, List, [], ◌∷◌, ◌++◌, length, length-append, length-take, length-drop, get_or, get_or-append,
  get_or-drop, get_or-take, take, drop, bit_or, arith, refl, ap, sym, ◌∙◌, Bool-cases,
}
use mytilus.Memory.{Mem, ok, ◌>>=◌, update, IsMapped}
use mytilus.Prng.Lcg.{lcg64}
use mytilus.Prng.Random.{Random, lock, unlock, seed_words, srandom_locked, srandom}
use mytilus.Prng.Random.State.{words, base_of, IsReady, x_ptr-eq}
use mytilus.Prng.Random.Lagged.{draws, lagged, wrap, IsQueue, draws-lagged}

-- The upper halves of n states of the 64-bit generator.
abbrev pub seeds : ℕ → ℕ → List ℕ
seeds s zero = []
seeds s (suc n) = lcg64 s / 2 ^ 32 ∷ seeds (lcg64 s) n

-- The first word is made odd.
abbrev pub first_odd : List ℕ → List ℕ
first_odd [] = []
first_odd (w ∷ ws) = bit_or w 1 ∷ ws

-- The front index of a table of n words behind srandom; the back index is 0.
abbrev pub first_index : ℕ → ℕ
first_index n = if n == 31 || n == 7 then 3 else 1

-- The queue of a table of n words behind srandom.
abbrev pub seeded : ℕ → ℕ → List ℕ
seeded n seed =
    drop (first_index n) (first_odd (seeds seed n))
    ++ take (first_index n) (first_odd (seeds seed n))

pub length-seeds : (s n : ℕ) → length (seeds s n) ≡ n
length-seeds s zero = refl
length-seeds s (suc n) = ap suc (length-seeds (lcg64 s) n)

pub length-first_odd : (ws : List ℕ) → length (first_odd ws) ≡ length ws
length-first_odd [] = refl
length-first_odd (w ∷ ws) = refl

pub length-rotated :
    (i : ℕ) (ws : List ℕ) → i ≤ length ws → length (drop i ws ++ take i ws) ≡ length ws
length-rotated i ws l =
    omega (arith, length-append (drop i ws) (take i ws), length-drop i ws, length-take i ws)

pub get_or-rotated :
    (i : ℕ) (ws : List ℕ) (t : ℕ)
    → i ≤ length ws
    → t < length ws
    → get_or (drop i ws ++ take i ws) t 0 ≡ get_or ws (wrap (length ws) (i + t)) 0
get_or-rotated i ws t l u =
    let size = length-drop i ws in
    let whole = get_or-append (drop i ws) (take i ws) t 0 in
    elim (Bool-cases (ltb t (length (drop i ws)))) [
      | inl early ↦ ground (arith, whole, early, size, get_or-drop i ws t 0)
      | inr late ↦
          let k = t - length (drop i ws) in
          let e : wrap (length ws) (i + t) ≡ k = ground (arith, late, size) in
          ground (arith, whole, late, e, get_or-take i ws k 0 (ground (arith, late, size)))
    ]

IsMapped-behind :
    (left k b w : ℕ) (m : Mem)
    → IsMapped m (b + k) (suc left)
    → IsMapped (update m (b + k) w) (b + (k + 1)) left
IsMapped-behind left k b w m h i l =
    let (old, at) = h (suc i) (omega arith) in
    let e : b + k + suc i ≡ b + (k + 1) + i = omega arith in
    let at' = rw e at at in (old, ground (arith, at'))

-- The words that seed_words writes.
seed_words-seeds :
    (left k b s : ℕ) (m : Mem)
    → IsMapped m (b + k) left
    → (m' : Mem) × (seed_words m b s left k ≡ ok m')
      × ((t : ℕ) → t < left → m' (b + k + t) ≡ some (get_or (seeds s left) t 0))
      × ((q : ℕ) → (q < b + k) ⊎ (b + k + left ≤ q) → m' q ≡ m q)
unfolding seed_words
seed_words-seeds zero k b s m h = (m, refl, λ t l. absurd (omega arith), λ q out. refl)
seed_words-seeds (suc left) k b s m h =
    let w = lcg64 s / 2 ^ 32 in
    let (old, at) = h 0 (omega arith) in
    let here : b + k + 0 ≡ b + k = omega arith in
    let at' : m (b + k) ≡ some old = rw here at at in
    let (m', runs, held, frame) =
      seed_words-seeds left (k + 1) b (lcg64 s) (update m (b + k) w)
        (IsMapped-behind left k b w m h) in
    let first = frame (b + k) (inl (omega arith)) in
    (
      m',
      ground (arith, at', runs),
      λ t l.
          elim t as (λ u. u < suc left → m' (b + k + u) ≡ some (get_or (seeds s (suc left)) u 0)) [
            | zero ↦ λ _. rw here (ground (arith, first))
            | suc u ↦ λ r.
                let e : b + (k + 1) + u ≡ b + k + suc u = omega arith in
                rw e at (held u (omega arith))
          ]
            l,
      λ q out. ground (arith, frame q),
    )

get_or-first_odd :
    (ws : List ℕ) (p : ℕ)
    → 0 < length ws
    → get_or (first_odd ws) p 0 ≡ (if p == 0 then bit_or (get_or ws 0 0) 1 else get_or ws p 0)
get_or-first_odd [] p l = absurd (omega arith)
get_or-first_odd (w ∷ ws) zero l = refl
get_or-first_odd (w ∷ ws) (suc p) l = ground arith

-- The memory behind srandom: the words of the seed behind the header at b, the first one odd.
seeded_memory :
    (b n seed : ℕ) (m : Mem)
    → 0 < n
    → IsMapped m b (n + 1)
    → let ws = seeds seed n in
      (m' : Mem) × (seed_words m (b + 1) seed n 0 ≡ ok m')
      × (m' (b + 1) ≡ some (get_or ws 0 0))
      × ((p : ℕ)
          → p < n
          → update m' (b + 1) (bit_or (get_or ws 0 0) 1) (b + 1 + p)
            ≡ some (get_or (first_odd ws) p 0))
      × IsMapped (update m' (b + 1) (bit_or (get_or ws 0 0) 1)) b (n + 1)
seeded_memory b n seed m some_words h =
    let ws = seeds seed n in
    let (m', runs, held, frame) = seed_words-seeds n 0 (b + 1) seed m (λ i l.
      let (old, at) = h (suc i) (omega arith) in
      let e : b + suc i ≡ b + 1 + 0 + i = omega arith in (old, rw e at at)) in
    let first : m' (b + 1) ≡ some (get_or ws 0 0) =
      (let e : b + 1 + 0 + 0 ≡ b + 1 = omega arith in rw e at (held 0 some_words)) in
    let words_at : (p : ℕ)
        → p < n
        → update m' (b + 1) (bit_or (get_or ws 0 0) 1) (b + 1 + p)
          ≡ some (get_or (first_odd ws) p 0) =
      (λ p l.
        let e : b + 1 + 0 + p ≡ b + 1 + p = omega arith in
        let at = rw e at (held p l) in
        ground (arith, at, get_or-first_odd ws p, length-seeds seed n)) in
    (
      m',
      runs,
      first,
      words_at,
      λ i l.
          elim i
              as (λ k.
                k < n + 1
                → (v : ℕ) × (update m' (b + 1) (bit_or (get_or ws 0 0) 1) (b + k) ≡ some v)) [
                  | zero ↦ λ r.
                      let (old, at) = h 0 r in
                      let kept = frame (b + 0) (inl (omega arith)) in
                      (old, ground (arith, at, kept))
                  | suc k ↦ λ r.
                      let e : b + 1 + k ≡ b + suc k = omega arith in
                      (get_or (first_odd ws) k 0, rw e at (words_at k (omega arith)))
                ]
            l,
    )

module _ (init : ℕ) where
  -- srandom leaves the queue of its seed in a table of four words or more, whose back index is behind
  -- the front one by n - 3 places for 31 and 7 words, and by n - 1 for other sizes.
  pub srandom-IsQueue :
      (seed : ℕ) (s : Random)
      → IsReady init s
      → 4 ≤ s.n
      → (s' : Random) × (srandom init seed s ≡ ok s')
        × IsQueue init (s.n - first_index s.n) s' (seeded s.n seed)
  unfolding srandom srandom_locked lock unlock
  srandom-IsQueue seed s (free, v) large =
      let b = base_of init s.x in
      let n = s.n in
      let i0 = first_index n in
      let ws = first_odd (seeds seed n) in
      let size : length ws ≡ n = length-first_odd (seeds seed n) ∙ length-seeds seed n in
      let fits : i0 ≤ length ws = ground (arith, size) in
      let count : words n ≡ n = ground arith in
      let (m', runs, first, held, mapped) =
        seeded_memory b n seed s.mem (omega arith) (λ i l. v.mapped i (omega (arith, count))) in
      let ptr = x_ptr-eq init (record s { lock = 1 }) v.above in
      let mem = update m' (b + 1) (bit_or (get_or (seeds seed n) 0 0) 1) in
      let moved : b + 1 - 1 ≡ b = omega arith in
      (
        record s { lock = 0; i = i0; j = 0; x = some (b + 1); mem = mem },
        ground (arith, ptr, runs, first),
        record {
          free = refl;
          table = record {
            small = v.small;
            i_small = ground arith;
            j_small = omega arith;
            i_inside = inr (ground arith);
            j_inside = inr (omega arith);
            above = λ e. ground arith;
            mapped = rw moved (λ i l. mapped i (omega (arith, count)));
          };
          size = length-rotated i0 ws fits ∙ size;
          lag_inside = ground arith;
          front_inside = ground arith;
          back = ground arith;
          held = λ t l.
              let p = wrap n (i0 + t) in
              let inside : p < n = ground (arith, l) in
              let e : b + 1 + p ≡ b + 1 - 1 + 1 + p = omega arith in
              let rotated : get_or (seeded n seed) t 0 ≡ get_or ws p 0 =
                get_or-rotated i0 ws t fits (omega (arith, size, l))
                ∙ ap (λ k. get_or ws (wrap k (i0 + t)) 0) size in
              rw e at (held p inside) ∙ ap some (sym rotated);
        },
      )

  -- From a ready state with a table of four words or more, srandom and any number of calls of random
  -- end, and the results are those of the additive generator on the words of the seed: for the table
  -- of 31 words x_(m + 31) = x_m + x_(m + 28) modulo 2 ^ 32, each without its lowest bit.
  pub seeded-draws :
      (seed k : ℕ) (s : Random)
      → IsReady init s
      → 4 ≤ s.n
      → (s' : Random) × ((srandom init seed s >>= λ s1. draws init k s1)
          ≡ ok (lagged (s.n - first_index s.n) k (seeded s.n seed), s'))
  seeded-draws seed k s ready large =
      let (s1, runs, queue) = srandom-IsQueue seed s ready large in
      let (s2, q, draw, last) =
        draws-lagged init (s.n - first_index s.n) k s1 (seeded s.n seed) queue in
      (s2, ground (arith, runs, draw))
