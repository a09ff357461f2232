-- ===== src/Rand/Lehmer.antt =====
-- The generator multiplies by 16807 modulo 2 ^ 31 - 1, within the range of an int.
use native.Mathlib.Nat.{mod-lt}
use usfstl.Base.{◌⊎◌, inl, inr, ℕ, ◌+◌, ◌-◌, ◌*◌, ◌%◌, ◌^◌, ◌<◌, ◌≡◌, refl, arith, true, Returns}
use usfstl.Base.Int.{
  ℤ, pos, negsuc, ◌+ℤ◌, ◌-ℤ◌, ◌*ℤ◌, ◌≤ℤ◌, ltb_ℤ, IsInt32, quot, rem, to_u32, from_u32,
}
use usfstl.Rand.{modulus, schrage, next_seed, rand, rand_range}

-- In Schrage's form the product does not leave the range of an int.
lehmer_step : (s : ℕ) → 0 < s → s < modulus → next_seed (pos s) ≡ pos (16807 * s % modulus)
unfolding next_seed schrage ◌+ℤ◌ ◌-ℤ◌ ◌*ℤ◌
lehmer_step s a b = ground arith

lehmer_pos : (s : ℕ) → 0 < s → s < modulus → 0 < 16807 * s % modulus
lehmer_pos s a b = omega arith

-- From a seed in [1, 0x7ffffffe] the next seed is 16807 times the seed modulo 2 ^ 31 - 1, again in
-- that range; the number returned is one less; and no intermediate value leaves the range of an int.
pub rand_lehmer :
    (s : ℕ)
    → 0 < s
    → s < modulus
    → (rand (pos s) ≡ (pos (16807 * s % modulus), pos (16807 * s % modulus - 1)))
      × (0 < 16807 * s % modulus)
      × (16807 * s % modulus < modulus)
      × IsInt32 (pos 16807 *ℤ rem (pos s) 127773)
      × IsInt32 (pos 2836 *ℤ quot (pos s) 127773)
      × IsInt32 (schrage (pos s))
unfolding rand schrage ◌-ℤ◌ ◌*ℤ◌
rand_lehmer s a b = (
  rw (lehmer_step s a b) (ground (arith, lehmer_pos s a b)),
  lehmer_pos s a b,
  omega arith,
  ground arith,
  ground arith,
  ground arith,
)

range_value :
    (q : ℕ) (min max : ℤ)
    → IsInt32 min
    → IsInt32 max
    → ltb_ℤ min max ≡ true
    → ltb_ℤ (max -ℤ min +ℤ pos 1) (pos (2 ^ 31)) ≡ true
    → q < to_u32 (max -ℤ min +ℤ pos 1)
    → (min ≤ℤ from_u32 ((q + to_u32 min) % 2 ^ 32)) × (from_u32 ((q + to_u32 min) % 2 ^ 32) ≤ℤ max)
unfolding ◌+ℤ◌ ◌-ℤ◌
range_value q (pos m) max i j h k l = ground arith
range_value q (negsuc m) max i j h k l = ground arith

width_pos :
    (min max : ℤ)
    → ltb_ℤ min max ≡ true
    → ltb_ℤ (max -ℤ min +ℤ pos 1) (pos (2 ^ 31)) ≡ true
    → 0 < to_u32 (max -ℤ min +ℤ pos 1)
unfolding ◌+ℤ◌ ◌-ℤ◌
width_pos min max h k = ground arith

-- A number in a range [min, max] of at most 2 ^ 31 - 1 values is in that range, from any seed.
pub rand_range_bounds :
    (seed min max : ℤ)
    → IsInt32 min
    → IsInt32 max
    → ltb_ℤ min max ≡ true
    → ltb_ℤ (max -ℤ min +ℤ pos 1) (pos (2 ^ 31)) ≡ true
    → Returns (rand_range seed min max) (λ r. (min ≤ℤ r.1) × (r.1 ≤ℤ max))
unfolding rand_range
rand_range_bounds seed min max i j h k =
    rw (h, k)
      (range_value (to_u32 (rand seed).1 % to_u32 (max -ℤ min +ℤ pos 1)) min max i j h k
        (mod-lt (to_u32 (rand seed).1) (width_pos min max h k)))

-- From a seed that is 0 or plus or minus 0x7fffffff, usfstl_rand returns -1 and leaves the seed 0, and
-- so does the call after it.
pub rand_stuck :
    (seed : ℤ)
    → (seed ≡ pos 0) ⊎ (seed ≡ pos modulus) ⊎ (seed ≡ negsuc (modulus - 1))
    → (rand seed ≡ (pos 0, negsuc 0)) × (rand (rand seed).0 ≡ (pos 0, negsuc 0))
unfolding rand next_seed schrage ◌+ℤ◌ ◌-ℤ◌ ◌*ℤ◌
rand_stuck seed (inl e) = rw e (refl, refl)
rand_stuck seed (inr (inl e)) = rw e (refl, refl)
rand_stuck seed (inr (inr e)) = rw e (refl, refl)
