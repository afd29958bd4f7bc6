-- ===== src/Tests/Generators.antt =====
-- The theorems on the generators at concrete states.
use mytilus.Base.{
  ltb, if◌then◌else◌, get_elem?, length, suc, ap, List, [], ◌∷◌, ℕ, ◌+◌, ◌-◌, ◌*◌, ◌%◌, ◌^◌, ◌<◌,
  ◌≤◌, ◌≡◌, ◌≢◌, ◌⊎◌, inl, inr, none, some, arith, refl,
}
use mytilus.Memory.{Mem, ok, ◌>>=◌, Holds}
use mytilus.Prng.Rand48.{initial, IsLc, multiplier, srand48}
use mytilus.Prng.Random.{Random, header, words_of_size, random, srandom, initstate}
use mytilus.Prng.Random.State.{words, base_of, IsReady, KeepsAround, random-IsReady}
use mytilus.Prng.Random.Buffer.{IsTableSize, Fits, initstate-IsReady}
use mytilus.Prng.Random.Lagged.{draws, lagged}
use mytilus.Prng.Random.Seeded.{seeded, first_index, seeded-draws}
use mytilus.Prng.Random.Initial.{random_init, statics, statics-IsQueue, unseeded-draws}
use mytilus.Prng.Random.Resume.{detour, detour-resumes}
use mytilus.Prng.Rand48.Sequence.{Draw, drand, lrand, mrand, draw_all, parts, seeded-parts}

initial-IsLc : IsLc initial.lc
initial-IsLc = (omega arith, omega arith, omega arith, omega arith)

-- Every word is mapped; the table starts behind the header at 100.
abbrev fresh : Random
fresh = record { lock = 0; n = 31; i = 3; j = 0; x = none; mem = λ q. some q }

fresh-IsReady : IsReady 100 fresh
fresh-IsReady = (
  refl,
  record {
    small = omega arith;
    i_small = omega arith;
    j_small = omega arith;
    i_inside = inr (omega arith);
    j_inside = inr (omega arith);
    above = λ e. ground (arith, e);
    mapped = λ i l. (_, refl);
  },
)

random-IsReady_example :
    (v : ℕ) × (s' : Random) × (random 100 fresh ≡ ok (v, s'))
    × (v < 2 ^ 31)
    × (s'.n ≡ 31)
    × (base_of 100 s'.x ≡ 100)
    × IsReady 100 s'
    × KeepsAround fresh.mem s'.mem 100 31
random-IsReady_example = random-IsReady 100 fresh fresh-IsReady

initstate-IsReady_example :
    (s' : Random) × (initstate 100 9 200 64 fresh ≡ ok (some 100, s'))
    × (IsTableSize s'.n × Fits s'.n 64 × ((t : ℕ) → IsTableSize t → Fits t 64 → t ≤ s'.n))
    × (base_of 100 s'.x ≡ 200)
    × (s'.mem 100 ≡ some (header 31 3 0))
    × ((q : ℕ) → q ≢ 100 → (q < 200) ⊎ (200 + words s'.n < q) → s'.mem q ≡ fresh.mem q)
    × IsReady 100 s'
initstate-IsReady_example =
    initstate-IsReady 100 fresh 9 200 64 fresh-IsReady (omega arith) (λ i l. (_, refl))
      (inl (omega arith))

seeded-draws_example :
    (s' : Random) × ((srandom 100 7 fresh >>= λ s1. draws 100 5 s1)
      ≡ ok (lagged (31 - first_index 31) 5 (seeded 31 7), s'))
seeded-draws_example = seeded-draws 100 7 5 fresh fresh-IsReady (omega arith)

-- A memory with RANDOM_INIT at 100 and zeros behind it.
abbrev booted : Mem
booted q = if ltb q 100 then none else if ltb q 132 then get_elem? random_init (q - 100) else some 0

Holds-get_elem? :
    (m : Mem) (p : ℕ) (ws : List ℕ)
    → ((k : ℕ) → k < length ws → m (p + k) ≡ get_elem? ws k)
    → Holds m p ws
Holds-get_elem? m p [] h = tt
Holds-get_elem? m p (w ∷ ws) h =
    let here : p + 0 ≡ p = omega arith in
    (
      rw here at (h 0 (omega arith)),
      Holds-get_elem? m (p + 1) ws
          (λ k l. let e : p + suc k ≡ p + 1 + k = omega arith in rw e at (h (suc k) (omega arith))),
    )

booted-Holds : Holds booted 100 random_init
booted-Holds =
    Holds-get_elem? booted 100 random_init (λ k l.
      let e : 100 + k - 100 ≡ k = omega arith in ground (arith, ap (get_elem? random_init) e))

unseeded-draws_example :
    (s' s'' : Random) × (draws 100 5 (statics booted) ≡ ok (lagged 28 5 (seeded 31 1), s'))
    × ((srandom 100 1 (statics booted) >>= λ s1. draws 100 5 s1)
        ≡ ok (lagged 28 5 (seeded 31 1), s''))
unseeded-draws_example = unseeded-draws 100 booted booted-Holds 5

abbrev mixed : List Draw
mixed = lrand ∷ drand ∷ mrand ∷ lrand ∷ []

seeded-parts_example :
    draw_all mixed (srand48 9 initial)
    ≡ parts (multiplier initial.lc) initial.lc.c mixed (0x330e + 9 % 2 ^ 32 * 2 ^ 16)
seeded-parts_example = seeded-parts mixed 9 initial initial-IsLc

detour-resumes_example :
    (s' s'' : Random) × (detour 100 9 200 64 3 4 (statics booted)
      ≡ ok (lagged 28 4 (seeded 31 1), s'))
    × (draws 100 4 (statics booted) ≡ ok (lagged 28 4 (seeded 31 1), s''))
unfolding statics words_of_size
detour-resumes_example =
    detour-resumes 100 28 9 200 64 3 4 (statics booted) (seeded 31 1)
      (statics-IsQueue 100 booted booted-Holds) (omega arith) (λ i l. (0, ground (arith, l)))
      (inl (omega arith))
