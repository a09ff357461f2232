-- ===== src/Sched/Advance.antt =====
-- src/sched.c: the clock and the main loop.
pub mod Rebase
pub mod Loop
pub mod Clock
pub mod Sync
use usfstl.Base.{
  ℕ, ◌^◌, Bool, true, false, ◌&&◌, none, some, ◌==◌, zero, suc, if◌then◌else◌, Result, ok, abort,
  assert, ◌>>=◌, ◌>>◌,
}
use usfstl.Time.{add64, sub64, time_lt, time_gt, time_le, time_ge, time_eq}
use usfstl.Sched.{
  Sched, Hooks, can_run, wait, sched_time, external_request, external_wait, next_pending, del_job,
}

-- One round of the loop of usfstl_sched_next: it goes round again, or it ran a job and returns.
pub data Turn (E : Type 0) : Type 0 where
  again : Sched E → Turn E
  ran : Sched E → ℕ → Turn E

module _ {E : Type 0} where
  abbrev pub not_beyond : Sched E → ℕ → Bool
  not_beyond s time = elim (next_pending s none) [
    | none ↦ true
    | some j ↦ time_le time (s.jobs j).start
  ]

  abbrev pub is_next : Sched E → ℕ → Bool
  is_next s j = elim (next_pending s none) [ none ↦ false | some k ↦ k == j ]

  -- The sync time before the job list is looked at.
  abbrev pub sync_point : Sched E → ℕ → ℕ
  sync_point s time =
      let sync = add64 time (2 ^ 62) in
      if s.next_external_sync_set
        && time_gt sync s.next_external_sync
        && time_ge s.next_external_sync time
      then s.next_external_sync
      else sync

module _ {E : Type 0} (hooks : Hooks E) where
  -- The middle of _usfstl_sched_set_time: the scheduler and its new idea of the time.
  unfoldable pub take_time : Sched E → ℕ → Result (Sched E × ℕ)
  take_time s time = elim hooks.external_get_time [
    | some f ↦ do
      let now = sched_time hooks s
      assert (time_eq time now) "time == current_time"
      ok (s, now)
    | none ↦ do
      assert (time_ge time s.current_time) "time >= sched->current_time"
      ok (record s { current_time = time }, time)
  ]

  unfoldable pub advance_hook : Sched E → ℕ → Result (Sched E)
  advance_hook s delta = elim hooks.time_advanced [ none ↦ ok s | some f ↦ f s delta ]

  -- _usfstl_sched_set_time
  unfoldable pub move_time : Sched E → ℕ → Result (Sched E)
  unfolding take_time advance_hook
  move_time s time = do
    s1 ← elim hooks.external_set_time [ none ↦ ok s | some f ↦ f s time ]
    r ← take_time s1 time
    if r.1 == time then ok r.0 else advance_hook r.0 (sub64 time r.1)

  unfoldable pub set_time : Sched E → ℕ → Result (Sched E)
  set_time s time = do
    assert (not_beyond s time) "!job || usfstl_time_cmp(time, <=, job->start)"
    move_time s time

  unfoldable pub forward : Sched E → ℕ → Result (Sched E)
  forward s until = do
    assert (time_ge until (sched_time hooks s)) "until >= usfstl_sched_current_time(sched)"
    r ← external_request hooks s until
    elim r.1 [ wait ↦ external_wait hooks r.0 | can_run ↦ move_time r.0 until ]

  unfoldable pub sched_start : Sched E → Result (Sched E)
  sched_start s = do
    r ← external_request hooks s (sched_time hooks s)
    elim r.1 [ wait ↦ external_wait hooks r.0 | can_run ↦ ok r.0 ]

  -- The end of a round, for the job found at its start.
  unfoldable pub run_job : Sched E → ℕ → Result (Turn E)
  run_job s j =
      if is_next s j then hooks.callback j (del_job s j) >>= (λ s'. ok (ran s' j)) else ok (again s)

  unfoldable pub reach_job : Sched E → ℕ → Result (Sched E)
  reach_job s j =
      if time_gt (s.jobs j).start (sched_time hooks s) then forward s (s.jobs j).start else ok s

  unfoldable pub next_turn : Sched E → Result (Turn E)
  unfolding run_job reach_job
  next_turn s = elim (next_pending s none) [
    | none ↦ elim hooks.external_request [
      | none ↦ abort "scheduling while there's nothing to do"
      | some f ↦ external_wait hooks s >>= (λ s'. ok (again s'))
    ]
    | some j ↦ reach_job s j >>= (λ s'. run_job s' j)
  ]

  -- usfstl_sched_next, followed for a number of rounds: `again` says that it is still looping.
  unfoldable pub sched_next : ℕ → Sched E → Result (Turn E)
  sched_next zero s = ok (again s)
  sched_next (suc n) s =
      next_turn s >>= elim [ again s' ↦ sched_next n s' | ran s' j ↦ ok (ran s' j) ]

  unfoldable pub set_sync_time : Sched E → ℕ → Result (Sched E)
  set_sync_time s time = do
    assert (time_ge time (sched_time hooks s)) "time >= usfstl_sched_current_time(sched)"
    ok (record s { next_external_sync = time; next_external_sync_set = true })

  unfoldable pub get_sync_time : Sched E → ℕ
  get_sync_time s =
      let sync = sync_point s (sched_time hooks s) in
      elim (next_pending s none) [
        | none ↦ sync
        | some j ↦ if time_lt (s.jobs j).start sync then (s.jobs j).start else sync
      ]
