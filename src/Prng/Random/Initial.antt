-- ===== src/Prng/Random/Initial.antt =====
-- crates/mytilus-prng/src/lib.rs: the statics of random before the first call, and what a program that calls random
-- without a seed gets.
use mytilus.Base.{
  ℕ, zero, suc, ◌+◌, ◌<◌, ◌≡◌, inr, none, some, List, [], ◌∷◌, length, get_or, arith, refl, ap, sym,
  ◌∙◌, subst, ◌++◌, take, drop,
}
use mytilus.Memory.{Mem, ok, ◌>>=◌, Holds}
use mytilus.Prng.Lcg.{lcg64}
use mytilus.Prng.Random.{Random, srandom}
use mytilus.Prng.Random.State.{IsReady}
use mytilus.Prng.Random.Lagged.{draws, lagged, wrap, IsQueue, draws-lagged}
use mytilus.Prng.Random.Seeded.{
  seeds, first_odd, seeded, get_or-rotated, length-seeds, length-first_odd, seeded-draws,
}

-- RANDOM_INIT
abbrev pub random_init : List ℕ
random_init =
    0x00000000 ∷ 0x5851f42d ∷ 0xc0b18ccf ∷ 0xcbb5f646 ∷ 0xc7033129 ∷ 0x30705b04 ∷ 0x20fd5db4
    ∷ 0x9a8b7f78 ∷ 0x502959d8 ∷ 0xab894868 ∷ 0x6c0356a7 ∷ 0x88cdb7ff ∷ 0xb477d43f ∷ 0x70a3a52b
    ∷ 0xa8e4baf1 ∷ 0xfd8341fc ∷ 0x8ae16fd9 ∷ 0x742d2f7a ∷ 0x0d1f0796 ∷ 0x76035e09 ∷ 0x40f7702c
    ∷ 0x6fa72ca5 ∷ 0xaaa84157 ∷ 0x58a0df74 ∷ 0xc74a0364 ∷ 0xae533cc4 ∷ 0x04185faf ∷ 0x6de3b115
    ∷ 0x0cab8628 ∷ 0xf043bfa4 ∷ 0x398150e9 ∷ 0x37521657 ∷ []

abbrev pub n_default : ℕ
n_default = 31

-- The statics of a program that starts with this memory.
unfoldable pub statics : Mem → Random
statics m = record { lock = 0; n = n_default; i = 3; j = 0; x = none; mem = m }

-- The table is the one that srandom(1) writes.
random_init-seeds : random_init ≡ 0 ∷ first_odd (seeds 1 31)
unfolding lcg64
random_init-seeds = refl

Holds-get_or :
    (m : Mem) (p : ℕ) (ws : List ℕ) (k : ℕ)
    → Holds m p ws
    → k < length ws
    → m (p + k) ≡ some (get_or ws k 0)
Holds-get_or m p [] k h l = absurd (omega arith)
Holds-get_or m p (w ∷ ws) zero h l = let e : p ≡ p + 0 = omega arith in rw (← e) h.0
Holds-get_or m p (w ∷ ws) (suc k) h l =
    let e : p + 1 + k ≡ p + suc k = omega arith in
    rw e at (Holds-get_or m (p + 1) ws k h.1 (omega arith))

length-seeded : length (seeded 31 1) ≡ 31
length-seeded = refl

-- The words behind the header, from the front index on.
static_words :
    (m : Mem) (init : ℕ) (ws : List ℕ) (t : ℕ)
    → length ws ≡ 31
    → Holds m init (0 ∷ ws)
    → t < 31
    → m (init + 1 + wrap 31 (3 + t)) ≡ some (get_or (drop 3 ws ++ take 3 ws) t 0)
static_words m init ws t size h l =
    let p = wrap 31 (3 + t) in
    let inside : p < 31 = ground (arith, l) in
    let rotated : get_or (drop 3 ws ++ take 3 ws) t 0 ≡ get_or ws p 0 =
      get_or-rotated 3 ws t (omega (arith, size)) (omega (arith, size, l))
      ∙ ap (λ k. get_or ws (wrap k (3 + t)) 0) size in
    Holds-get_or m (init + 1) ws p h.1 (omega (arith, size, inside)) ∙ ap some (sym rotated)

module _ (init : ℕ) (m : Mem) (table : Holds m init random_init) where
  pub statics-IsReady : IsReady init (statics m)
  unfolding statics
  statics-IsReady = (
    refl,
    record {
      small = omega arith;
      i_small = omega arith;
      j_small = omega arith;
      i_inside = inr (omega arith);
      j_inside = inr (omega arith);
      above = λ e. ground (arith, e);
      mapped = λ k l. (get_or random_init k 0, Holds-get_or m init random_init k table l);
    },
  )

  pub statics-IsQueue : IsQueue init 28 (statics m) (seeded 31 1)
  unfolding statics
  statics-IsQueue = record {
    free = refl;
    table = statics-IsReady.1;
    size = length-seeded;
    lag_inside = omega arith;
    front_inside = omega arith;
    back = refl;
    held = λ t l.
        static_words m init (first_odd (seeds 1 31)) t
          (length-first_odd (seeds 1 31) ∙ length-seeds 1 31)
          (subst (Holds m init) random_init-seeds table) l;
  }

  -- From the initial statics any number of calls of random end, and their results are the ones that the
  -- same calls give behind srandom(1): those of the additive generator on the words of seed 1.
  pub unseeded-draws :
      (k : ℕ)
      → (s' s'' : Random) × (draws init k (statics m) ≡ ok (lagged 28 k (seeded 31 1), s'))
        × ((srandom init 1 (statics m) >>= λ s1. draws init k s1)
            ≡ ok (lagged 28 k (seeded 31 1), s''))
  unfolding statics
  unseeded-draws k =
      let (s', q, runs, last) = draws-lagged init 28 k (statics m) (seeded 31 1) statics-IsQueue in
      let (s'', again) = seeded-draws init 1 k (statics m) statics-IsReady (omega arith) in
      (s', s'', runs, again)
