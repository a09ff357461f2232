-- ===== src/Wallclock.antt =====
-- src/wallclock.c: a scheduler that follows the wall clock by a timer.
pub mod Timer
mod Tests
use usfstl.Base.{
  ℕ, zero, suc, ◌+◌, ◌*◌, ◌/◌, ◌%◌, ◌^◌, Bool, true, false, not, Option, none, some, List, [], ◌∷◌,
  ◌==◌, if◌then◌else◌, Result, ok, abort, assert, ◌>>=◌, ◌>>◌,
}
use usfstl.Time.{add64, sub64, mul64}
use usfstl.Sched.{Sched, Hooks, ReqStatus, wait, next_pending}
use usfstl.Sched.Advance.{set_time}

-- struct timespec.
pub record Timespec : Type 0 where
  pub tv_sec : ℕ
  pub tv_nsec : ℕ

-- What the main loop has to handle next: the timer's descriptor, which is read only while its entry is
-- registered, or something else.
pub data Event : Type 0 where
  timer : Event
  other : ℕ → Event

-- The struct `wallclock` of a scheduler. `itimer` is what the timer was set to, and `registered` tells
-- whether its entry is in the main loop; `events` is what the main loop will find.
pub record Wallclock (F : Type 0) : Type 0 where
  pub start : ℕ  -- uint64_t
  pub nsec_per_tick : ℕ  -- uint32_t
  pub timer_triggered : Bool
  pub initialized : Bool
  pub itimer : Option Timespec
  pub registered : Bool
  pub events : List Event
  pub env : F

abbrev pub WallSched : Type 0 → Type 0
WallSched F = Sched (Wallclock F)

-- The system's clock, the user's callbacks of the scheduler, and the handlers of other entries. The system's
-- calls succeed.
pub record System (F : Type 0) : Type 0 where
  pub clock_gettime : Wallclock F → Timespec
  pub own : Hooks (Wallclock F)
  pub handle_other : ℕ → WallSched F → Result (WallSched F)

abbrev pub to_nsec : Timespec → ℕ
to_nsec now = add64 (mul64 now.tv_sec 1000000000) now.tv_nsec

abbrev pub to_timespec : ℕ → Timespec
to_timespec nsec = record { tv_sec = nsec / 1000000000; tv_nsec = nsec % 1000000000 }

module _ {F : Type 0} where
  abbrev pub with_wallclock : WallSched F → Wallclock F → WallSched F
  with_wallclock s w = record s { env = w }

  abbrev pub handle_fd : WallSched F → WallSched F
  handle_fd s = with_wallclock s (record s.env { timer_triggered = true })

module _ {F : Type 0} (system : System F) where
  abbrev pub initialize : WallSched F → WallSched F
  initialize s =
      with_wallclock s
        (record s.env { start = to_nsec (system.clock_gettime s.env); initialized = true })

  unfoldable pub wallclock_request : WallSched F → ℕ → Result (WallSched F × ReqStatus)
  wallclock_request s0 time = do
    assert (not (s0.env.nsec_per_tick == 0)) "nsec_per_tick != 0"
    let s = if s0.env.initialized then s0 else initialize s0 in
        let waketime = add64 s.env.start (mul64 s.env.nsec_per_tick time) in
        ok (with_wallclock s (record s.env { itimer = some (to_timespec waketime) }), wait)

  -- usfstl_loop_wait_and_handle, with the function that is called before a handler. It blocks when
  -- nothing is left to handle.
  unfoldable pub loop_round :
      (WallSched F → Result (WallSched F)) → WallSched F → List Event → Result (WallSched F)
  loop_round pre_handler s [] = abort "blocked"
  loop_round pre_handler s (timer ∷ events) =
      let rest = loop_round pre_handler s events in
      if s.env.registered
      then (pre_handler (with_wallclock s (record s.env { events = events })) >>= λ s'.
          ok (handle_fd s'))
      else rest
  loop_round pre_handler s (other k ∷ events) =
      pre_handler (with_wallclock s (record s.env { events = events })) >>= λ s'.
      system.handle_other k s'

  -- while (!sched->wallclock.timer_triggered), for a number of rounds.
  unfoldable pub wait_timer : ℕ → WallSched F → Result (WallSched F)
  wait_timer zero s = if s.env.timer_triggered then ok s else abort "out of fuel"
  wait_timer (suc fuel) s =
      if s.env.timer_triggered
      then ok s
      else (loop_round (λ t. ok t) s s.env.events >>= λ s'. wait_timer fuel s')

  unfoldable pub wallclock_wait : ℕ → WallSched F → Result (WallSched F)
  wallclock_wait fuel s0 = do
    s ←
        wait_timer fuel
          (with_wallclock s0 (record s0.env { timer_triggered = false; registered = true }))
    set_time system.own (with_wallclock s (record s.env { registered = false }))
        s.prev_external_sync

  -- usfstl_sched_wallclock_init, for the hooks below.
  abbrev pub wallclock_hooks : ℕ → Hooks (Wallclock F)
  wallclock_hooks fuel = record system.own {
    external_request = some wallclock_request;
    external_wait = some (wallclock_wait fuel);
  }

  abbrev pub wallclock_init : WallSched F → ℕ → WallSched F
  wallclock_init s ns_per_tick = with_wallclock s (record s.env { nsec_per_tick = ns_per_tick })

  unfoldable pub sync_real : WallSched F → Result (WallSched F)
  sync_real s =
      let elapsed = sub64 (to_nsec (system.clock_gettime s.env)) s.env.start in
      if s.env.nsec_per_tick == 0
      then abort "undefined"
      else set_time system.own s (elapsed / s.env.nsec_per_tick)

  unfoldable pub wallclock_wait_and_handle : WallSched F → Result (WallSched F)
  wallclock_wait_and_handle s = elim (next_pending s none) [
    | some j ↦ ok s
    | none ↦
        if not s.env.initialized
        then loop_round (λ t. ok t) s s.env.events
        else loop_round sync_real s s.env.events
  ]
