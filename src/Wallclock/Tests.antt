-- ===== src/Wallclock/Tests.antt =====
-- A clock of one tick per millisecond that shows the time of the timer.
use usfstl.Base.{ℕ, ◌≡◌, ◌<◌, refl, arith, true, false, Option, none, some, [], ok, Returns, ◌>>=◌}
use usfstl.Time.{time_ge, add64, mul64}
use usfstl.Sched.{Hooks, next_pending}
use usfstl.Wallclock.{Timespec, Wallclock, WallSched, System, to_nsec, wallclock_request, sync_real}
use usfstl.Wallclock.Timer.{sync_real-wallclock_request}

abbrev demo_hooks : Hooks (Wallclock ℕ)
demo_hooks = record {
  external_request = none;
  external_wait = none;
  external_get_time = none;
  external_set_time = none;
  time_advanced = none;
  next_time_changed = none;
  disable_skip = false;
  callback = λ j s. ok s;
}

abbrev shown : Option Timespec → Timespec
shown none = record { tv_sec = 0; tv_nsec = 0 }
shown (some ts) = ts

abbrev demo_system : System ℕ
demo_system = record {
  clock_gettime = λ w. shown w.itimer;
  own = demo_hooks;
  handle_other = λ k s. ok s;
}

abbrev demo : WallSched ℕ
demo = record {
  current_time = 5;
  prev_external_sync = 0;
  next_external_sync = 0;
  joblist = [];
  pending_jobs = [];
  allowed_job = none;
  blocked_groups = 0;
  next_external_sync_set = false;
  prev_external_sync_set = false;
  waiting = false;
  jobs = λ j. record { start = 0; priority = 0; group = 0; blocked = false; pending = false };
  env = record {
    start = 1999000000;
    nsec_per_tick = 1000000;
    timer_triggered = false;
    initialized = true;
    itimer = none;
    registered = false;
    events = [];
    env = 0;
  };
}

-- The time of tick 7 is in the next second.
sync_real-wallclock_request_example :
    Returns (wallclock_request demo_system demo 7 >>= λ r. sync_real demo_system r.0) (λ u.
      (u.current_time ≡ 7)
      × (ts : Timespec) × (u.env.itimer ≡ some ts)
      × (ts.tv_nsec < 1000000000)
      × (to_nsec ts ≡ add64 1999000000 (mul64 1000000 7)))
unfolding time_ge next_pending
sync_real-wallclock_request_example =
    sync_real-wallclock_request demo_system demo 7 refl (omega arith) (omega arith) (omega arith)
      refl refl refl refl (λ w ts e. rw e refl)
