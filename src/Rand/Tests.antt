-- ===== src/Rand/Tests.antt =====
-- Random numbers at concrete seeds.
use usfstl.Base.{◌*◌, ◌-◌, ◌%◌, ◌<◌, ◌≡◌, refl, arith}
use usfstl.Base.Int.{pos, ◌-ℤ◌, ◌*ℤ◌, IsInt32, quot, rem}
use usfstl.Rand.{modulus, schrage, next_seed, rand}
use usfstl.Rand.Lehmer.{rand_lehmer}

rand_lehmer_example :
    (rand (pos 2) ≡ (pos (16807 * 2 % modulus), pos (16807 * 2 % modulus - 1)))
    × (0 < 16807 * 2 % modulus)
    × (16807 * 2 % modulus < modulus)
    × IsInt32 (pos 16807 *ℤ rem (pos 2) 127773)
    × IsInt32 (pos 2836 *ℤ quot (pos 2) 127773)
    × IsInt32 (schrage (pos 2))
rand_lehmer_example = rand_lehmer 2 (omega arith) (omega arith)

-- The first number from the default seed.
rand_first : (rand (pos 2)).1 ≡ pos 33613
unfolding rand ◌-ℤ◌ next_seed schrage ◌*ℤ◌
rand_first = refl
