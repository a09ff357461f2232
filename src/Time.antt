-- ===== src/Time.antt =====
-- The wrapping 64-bit clock: usfstl_time_cmp of include/usfstl/sched.h.
-- A time is a number below 2 ^ 64. `usfstl_time_cmp(a, op, b)` is `0 op (int64_t)(b - a)`.
pub mod Window
use usfstl.Base.{ℕ, ◌+◌, ◌-◌, ◌*◌, ◌/◌, ◌%◌, ◌^◌, Bool, ◌&&◌, ◌||◌, ltb, leb, ◌==◌}

abbrev pub two63 : ℕ
two63 = 2 ^ 63

abbrev pub two64 : ℕ
two64 = 2 ^ 64

-- uint64_t a + b, a - b and a * b.
abbrev pub add64 : ℕ → ℕ → ℕ
add64 a b = (a + b) % two64

abbrev pub sub64 : ℕ → ℕ → ℕ
sub64 a b = (a + two64 - b) % two64

abbrev pub mul64 : ℕ → ℕ → ℕ
mul64 a b = a * b % two64

-- The operators of usfstl_time_cmp, by the bits of the difference: from 2 ^ 63 on it is negative.
unfoldable pub time_lt : ℕ → ℕ → Bool
time_lt a b = let d = sub64 b a in ltb 0 d && ltb d two63

unfoldable pub time_gt : ℕ → ℕ → Bool
time_gt a b = let d = sub64 b a in leb two63 d

unfoldable pub time_le : ℕ → ℕ → Bool
time_le a b = let d = sub64 b a in ltb d two63

unfoldable pub time_ge : ℕ → ℕ → Bool
time_ge a b = let d = sub64 b a in d == 0 || leb two63 d

unfoldable pub time_eq : ℕ → ℕ → Bool
time_eq a b = sub64 b a == 0
