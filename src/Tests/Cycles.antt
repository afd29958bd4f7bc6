-- ===== src/Tests/Cycles.antt =====
-- The theorem on the cycles of the seeds, at a number of calls that is whole for two of the generators.
use mytilus.Base.{◌^◌, ◌≡◌, ◌↔◌, arith}
use mytilus.Prng.Lcg.{rand, rand_r, lcg31}
use mytilus.Prng.Period.{orbit}
use mytilus.Prng.Cycles.{IsWhole, drawing, seeds_cycle}
use mytilus.Prng.Rand48.{Xi, Seed48, initial, lrand48}

abbrev seeded : Xi
seeded = record { x0 = 0x330e; x1 = 9; x2 = 0 }

seeds_cycle_example :
    ((orbit (λ s. (rand s).1) (2 ^ 33) 41 ≡ 41) ↔ IsWhole 64 (2 ^ 33))
    × ((orbit (λ s. (rand_r s).1) (2 ^ 33) 7 ≡ 7) ↔ IsWhole 32 (2 ^ 33))
    × ((orbit lcg31 (2 ^ 33) 1 ≡ 1) ↔ IsWhole 31 (2 ^ 33))
    × ((◌≡◌ {A = Seed48}
          (orbit (λ st. (lrand48 st).1) (2 ^ 33) (drawing seeded initial.prev))
          (drawing seeded initial.prev))
        ↔ IsWhole 48 (2 ^ 33))
seeds_cycle_example =
    seeds_cycle (2 ^ 33) 41 7 1 seeded initial.prev (omega arith) (omega arith) (omega arith)
      (omega arith, omega arith, omega arith)
