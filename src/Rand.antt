-- ===== src/Rand.antt =====
-- src/rand.c: the minimal standard random number generator of Park and Miller, and random numbers in
-- a range. The static variable `seed` is passed and returned.
pub mod Lehmer
mod Tests
use usfstl.Base.{
  ℕ, ◌+◌, ◌-◌, ◌%◌, ◌^◌, Bool, if◌then◌else◌, Result, ok, abort, assert, ◌>>=◌, ◌>>◌, leb,
}
use usfstl.Base.Int.{ℤ, pos, ◌+ℤ◌, ◌-ℤ◌, ◌*ℤ◌, ltb_ℤ, quot, rem, to_u32, from_u32}

-- 0x7fffffff, that is 2 ^ 31 - 1.
abbrev pub modulus : ℕ
modulus = 0x7fffffff

-- 16807 * lo - 2836 * hi
unfoldable pub schrage : ℤ → ℤ
schrage seed = pos 16807 *ℤ rem seed 127773 -ℤ pos 2836 *ℤ quot seed 127773

unfoldable pub next_seed : ℤ → ℤ
next_seed seed = let x = schrage seed in if ltb_ℤ x (pos 0) then x +ℤ pos modulus else x

-- The new seed and the number returned.
unfoldable pub rand : ℤ → ℤ × ℤ
rand seed = let x = next_seed seed in (x, x -ℤ pos 1)

-- ((uint32_t)usfstl_rand() % (max - min + 1)) + min, an unsigned sum that is returned as an int32_t.
-- `max - min + 1` is an int: beyond INT_MAX the program has no defined behaviour.
unfoldable pub rand_range : ℤ → ℤ → ℤ → Result (ℤ × ℤ)
rand_range seed min max = do
  assert (ltb_ℤ min max) "min < max"
  let width = max -ℤ min +ℤ pos 1
  assert (ltb_ℤ width (pos (2 ^ 31))) "signed overflow in max - min + 1"
  let r = rand seed
  ok (r.0, from_u32 ((to_u32 r.1 % to_u32 width + to_u32 min) % 2 ^ 32))
