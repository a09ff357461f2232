-- ===== src/Wallclock/Timer.antt =====
-- A tick that was requested is the tick that the clock shows when the timer fires.
use native.Mathlib.Nat.{mul-div_right}
use usfstl.Base.{
  ℕ, ◌*◌, ◌/◌, ◌%◌, ◌<◌, ◌≡◌, refl, arith, true, false, none, some, ◌==◌, ==_refl, ok, Returns,
  ◌>>=◌,
}
use usfstl.Time.{two64, add64, sub64, mul64, time_ge}
use usfstl.Sched.{wait, next_pending}
use usfstl.Sched.Advance.{set_time, move_time, not_beyond}
use usfstl.Wallclock.{
  Timespec, Wallclock, WallSched, System, with_wallclock, to_nsec, to_timespec, wallclock_request,
  sync_real,
}

timespec_lem : (n : ℕ) → n < two64 → to_nsec (to_timespec n) ≡ n
timespec_lem n h = omega arith

elapsed_lem :
    (start n t : ℕ)
    → start < two64
    → n * t < two64
    → 0 < n
    → sub64 (to_nsec (to_timespec (add64 start (mul64 n t)))) start / n ≡ t
elapsed_lem start n t h k l =
    let e : sub64 (to_nsec (to_timespec (add64 start (mul64 n t)))) start ≡ n * t =
      rw (timespec_lem (add64 start (mul64 n t)) (ground arith)) (ground arith) in
    rw e (mul-div_right t l)

below_sec : (n : ℕ) → n % 1000000000 < 1000000000
below_sec n = omega arith

module _ {F : Type 0} (system : System F) (s : WallSched F) where
  set_time_lem :
      (w : Wallclock F) (t : ℕ)
      → system.own.external_get_time ≡ none
      → system.own.external_set_time ≡ none
      → not_beyond s t ≡ true
      → time_ge t s.current_time ≡ true
      → set_time system.own (with_wallclock s w) t ≡ ok (record s { current_time = t; env = w })
  unfolding set_time move_time next_pending
  set_time_lem w t a b h k = rw (b, a, h, k, ==_refl t) refl

  abbrev wake : ℕ → ℕ
  wake t = add64 s.env.start (mul64 s.env.nsec_per_tick t)

  abbrev armed : ℕ → Wallclock F
  armed t = record s.env { itimer = some (to_timespec (wake t)) }

  request_lem :
      (t : ℕ)
      → s.env.initialized ≡ true
      → 0 < s.env.nsec_per_tick
      → wallclock_request system s t ≡ ok (with_wallclock s (armed t), wait)
  unfolding wallclock_request
  request_lem t i n = let e : (s.env.nsec_per_tick == 0) ≡ false = ground arith in rw (e, i) refl

  sync_lem :
      (t : ℕ)
      → 0 < s.env.nsec_per_tick
      → s.env.nsec_per_tick * t < two64
      → s.env.start < two64
      → system.own.external_get_time ≡ none
      → system.own.external_set_time ≡ none
      → not_beyond s t ≡ true
      → time_ge t s.current_time ≡ true
      → ((w : Wallclock F) (ts : Timespec) → w.itimer ≡ some ts → system.clock_gettime w ≡ ts)
      → sync_real system (with_wallclock s (armed t))
        ≡ ok (record s { current_time = t; env = armed t })
  unfolding sync_real
  sync_lem t n k l a b h m f =
      let e : (s.env.nsec_per_tick == 0) ≡ false = ground arith in
      rw
        (
          e,
          f (armed t) (to_timespec (wake t)) refl,
          elapsed_lem s.env.start s.env.nsec_per_tick t l k n,
        )
        (set_time_lem (armed t) t a b h m)

  -- A request sets the timer to a proper time of the clock, the one that stands for the tick. When the clock
  -- shows it, the scheduler's time is set to exactly that tick. The clock was started, the tick is not
  -- before the current one and not behind the first job, its time fits 64 bits, and the scheduler has no other
  -- source of time.
  pub sync_real-wallclock_request :
      (t : ℕ)
      → s.env.initialized ≡ true
      → 0 < s.env.nsec_per_tick
      → s.env.nsec_per_tick * t < two64
      → s.env.start < two64
      → system.own.external_get_time ≡ none
      → system.own.external_set_time ≡ none
      → not_beyond s t ≡ true
      → time_ge t s.current_time ≡ true
      → ((w : Wallclock F) (ts : Timespec) → w.itimer ≡ some ts → system.clock_gettime w ≡ ts)
      → Returns (wallclock_request system s t >>= λ r. sync_real system r.0) (λ u.
        (u.current_time ≡ t)
        × (ts : Timespec) × (u.env.itimer ≡ some ts)
        × (ts.tv_nsec < 1000000000)
        × (to_nsec ts ≡ add64 s.env.start (mul64 s.env.nsec_per_tick t)))
  sync_real-wallclock_request t i n k l a b h m f =
      rw (request_lem t i n, sync_lem t n k l a b h m f)
        (refl, _, refl, below_sec (wake t), timespec_lem (wake t) (omega arith))
