-- ===== src/Time/Window.antt =====
-- Inside half of the clock's circle the wrapping comparisons are those of the distance from its
-- first instant.
use usfstl.Base.{ℕ, ◌≤◌, ◌<◌, ◌≡◌, true, false, arith}
use usfstl.Time.{two63, two64, sub64, time_lt, time_gt, time_ge}

-- `t` lies less than 2 ^ 63 ticks behind `lo`.
pub record IsWithin (lo t : ℕ) : Type 0 where
  pub word : t < two64
  pub near : sub64 t lo < two63

module _ (lo a b : ℕ) (w : lo < two64) (ha : IsWithin lo a) (hb : IsWithin lo b) where
  pub time_gt_within : time_gt a b ≡ true → sub64 b lo < sub64 a lo
  unfolding time_gt
  time_gt_within h = ground arith

  pub time_gt_without : time_gt a b ≡ false → sub64 a lo ≤ sub64 b lo
  unfolding time_gt
  time_gt_without h = ground arith

  pub time_lt_within : time_lt a b ≡ true → sub64 a lo < sub64 b lo
  unfolding time_lt
  time_lt_within h = ground arith

  pub time_ge_within : time_ge a b ≡ true → sub64 b lo ≤ sub64 a lo
  unfolding time_ge
  time_ge_within h = ground arith
