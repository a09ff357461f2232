-- ===== src/Sched/Link/Ticks.antt =====
-- The clock of a linked scheduler: the parent's, in larger ticks, counted from the link.
use native.Mathlib.Nat.{mul-add-div, div-eq_of_lt}
use usfstl.Base.{ℕ, ◌+◌, ◌-◌, ◌*◌, ◌/◌, ◌≤◌, ◌<◌, ◌≡◌, ap, ◌∙◌, arith}
use usfstl.Time.{two64, add64, sub64, mul64}
use usfstl.Sched.Link.{div_round_up}

tick_div : (r t : ℕ) → 0 < r → (r * t + (r - 1)) / r ≡ t
tick_div r t h = mul-add-div h t (r - 1) ∙ ap (◌+◌ t) (div-eq_of_lt (omega arith)) ∙ omega arith

rounded : (r m : ℕ) → 0 < r → m + r ≤ two64 → m < two64 → sub64 (add64 m r) 1 ≡ m + (r - 1)
rounded r m h k l = ground arith

counted : (m offset : ℕ) → m < two64 → offset < two64 → sub64 (add64 m offset) offset ≡ m
counted m offset h k = ground arith

-- A tick's time in the parent stands for that tick.
pub ticks_of :
    (r t offset : ℕ)
    → 0 < r
    → r * t + r ≤ two64
    → offset < two64
    → div_round_up (sub64 (add64 (mul64 r t) offset) offset) r ≡ t
ticks_of r t offset h k l =
    let e : mul64 r t ≡ r * t = omega arith in
    rw (e, counted (r * t) offset (omega arith) l, rounded r (r * t) h k (omega arith))
      (tick_div r t h)

-- The same for the offset that the link is made with.
pub ticks_at_link :
    (r t now : ℕ)
    → 0 < r
    → r * t + r ≤ two64
    → now < two64
    → div_round_up (sub64 now (sub64 now (mul64 t r))) r ≡ t
ticks_at_link r t now h k l =
    let e : mul64 t r ≡ r * t = ground arith in
    let d : sub64 now (sub64 now (r * t)) ≡ r * t = omega arith in
    rw (e, d, rounded r (r * t) h k (omega arith)) (tick_div r t h)
