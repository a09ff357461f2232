-- ===== src/Task/Wait.antt =====
-- src/task.c: waiting for a semaphore, blocking tasks, and what else changes a task.
use usfstl.Base.{
  ℕ, ◌-◌, Bool, true, false, not, Option, none, some, List, [], ◌∷◌, mem, remove, ltb, ◌==◌,
  if◌then◌else◌, Result, ok, abort, assert, ◌>>=◌, ◌>>◌,
}
use usfstl.Time.{two64, add64}
use usfstl.Sched.{Job, Sched, Hooks, set_job, sched_time, job_scheduled, add_job}
use usfstl.Sched.Groups.{block_job, unblock_job}
use usfstl.Task.{Tasks, set_task, set_sem, process_sem_wakeup}

-- The loop over the waiters and the insertion: before the first of a lower priority, or at the end.
unfoldable pub insert_waiter : (ℕ → Job) → ℕ → List ℕ → List ℕ
insert_waiter jobs t [] = t ∷ []
insert_waiter jobs t (u ∷ us) =
    if ltb (jobs u).priority (jobs t).priority then t ∷ u ∷ us else u ∷ insert_waiter jobs t us

-- NO_TIMEOUT is 2 ^ 64 - 1.
abbrev pub is_no_timeout : ℕ → Bool
is_no_timeout timeout = timeout == two64 - 1

abbrev pub is_null : Option ℕ → Bool
is_null none = true
is_null (some m) = false

module _ {E : Type 0} where
  abbrev pub with_sched : Tasks E → Sched E → Tasks E
  with_sched s sched = record s { sched = sched }

  unfoldable pub task_block : Tasks E → ℕ → Result (Tasks E)
  task_block s t = block_job s.sched t >>= λ sched. ok (with_sched s sched)

  unfoldable pub set_priority : Tasks E → ℕ → ℕ → Result (Tasks E)
  set_priority s t prio = do
    assert (not (job_scheduled s.sched t)) "cannot change task priority while scheduled"
    ok (with_sched s (set_job s.sched t (record (s.sched.jobs t) { priority = prio })))

  unfoldable pub set_group : Tasks E → ℕ → ℕ → Result (Tasks E)
  set_group s t group = do
    assert (not (job_scheduled s.sched t)) "cannot change task group while scheduled"
    assert (ltb group 32) "group < 32"
    ok (with_sched s (set_job s.sched t (record (s.sched.jobs t) { group = group })))

  -- usfstl_task_end, for a task that waits for the semaphore `waits`, if any, up to the end of its context.
  unfoldable pub task_end : Tasks E → ℕ → Option ℕ → Result (Tasks E)
  task_end s t waits = do
    assert (not (job_scheduled s.sched t)) "task cannot be ended while scheduled"
    ok (elim waits [
      | none ↦ s
      | some m ↦ set_sem s m (record (s.sems m) { waiters = remove t (s.sems m).waiters })
    ])

-- `suspend` is usfstl_task_next: the scheduler runs other tasks until the one that calls is selected.
-- `current` is usfstl_task_current, `none` in the scheduler.
module _ {E : Type 0} (hooks : Hooks E) (suspend : Tasks E → Result (Tasks E)) where
  unfoldable pub schedule_in : Tasks E → ℕ → ℕ → Result (Tasks E)
  schedule_in s t delay =
      add_job hooks
        (set_job s.sched t
          (record (s.sched.jobs t) { start = add64 (sched_time hooks s.sched) delay }))
        t
      >>= λ sched. ok (with_sched s sched)

  unfoldable pub task_sleep : Tasks E → Option ℕ → ℕ → Result (Tasks E)
  task_sleep s none delay = abort "can only call usfstl_task_sleep() while in task"
  task_sleep s (some t) delay = schedule_in s t delay >>= λ s'. suspend s'

  unfoldable pub task_resume : Tasks E → ℕ → Result (Tasks E)
  task_resume s t =
      add_job hooks
        (set_job s.sched t (record (s.sched.jobs t) { start = sched_time hooks s.sched })) t
      >>= λ sched. ok (with_sched s sched)

  -- usfstl_sem_timedwait, up to the suspension: the timeout's job and the place among the waiters.
  unfoldable pub begin_wait : Tasks E → ℕ → ℕ → ℕ → Result (Tasks E)
  begin_wait s m t timeout = do
    s' ← if is_no_timeout timeout then ok s else schedule_in s t timeout
    ok (
        set_sem s' m
          (record (s'.sems m) { waiters = insert_waiter s'.sched.jobs t (s'.sems m).waiters }))

  -- The rest, behind the suspension.
  unfoldable pub end_wait : Tasks E → ℕ → ℕ → ℕ → Result (Tasks E × Bool)
  end_wait s m t timeout = do
    assert (is_null (s.tasks t).check_sem) "check_sem must be reset by unblock"
    if (s.tasks t).woken_by_sem_post
        then ok (set_task s t (record (s.tasks t) { woken_by_sem_post = false }), true)
        else (do
          assert (mem t (s.sems m).waiters) "task must be on semaphore list here"
          assert (not (is_no_timeout timeout)) "timeout != NO_TIMEOUT"
          ok (set_sem s m (record (s.sems m) { waiters = remove t (s.sems m).waiters }), false))

  unfoldable pub sem_timedwait : Tasks E → ℕ → Option ℕ → ℕ → Result (Tasks E × Bool)
  sem_timedwait s m none timeout = abort "can only call usfstl_sem_timedwait() while in task"
  sem_timedwait s m (some t) timeout = do
    assert (not (s.tasks t).woken_by_sem_post) "task->woken_by_sem_post corruption"
    if (s.sems m).ctr == 0
        then (do s1 ← begin_wait s m t timeout; s2 ← suspend s1; end_wait s2 m t timeout)
        else ok (set_sem s m (record (s.sems m) { ctr = (s.sems m).ctr - 1 }), true)

  unfoldable pub sem_wait : Tasks E → ℕ → Option ℕ → Result (Tasks E)
  sem_wait s m current = do
    r ← sem_timedwait s m current (two64 - 1)
    assert r.1 "usfstl_sem_timedwait(NO_TIMEOUT) failed"
    ok r.0

module _ {E : Type 0} (hooks : Hooks E) where
  -- The part of usfstl_task_unblock for a semaphore that a post has noted.
  unfoldable pub wake_noted : Tasks E → ℕ → ℕ → Result (Tasks E)
  wake_noted s t m = if (s.sems m).ctr == 0 then ok s else (do
    r ← process_sem_wakeup hooks (set_sem s m (record (s.sems m) { ctr = (s.sems m).ctr - 1 })) m
    assert r.1 "usfstl_process_sem_wakeup(sem)"
    ok r.0)

  unfoldable pub task_unblock : Tasks E → ℕ → Result (Tasks E)
  unfolding wake_noted
  task_unblock s0 t = do
    sched ← unblock_job hooks s0.sched t
    let s = with_sched s0 sched in
        elim (s0.tasks t).check_sem [
          | none ↦ ok s
          | some m ↦ wake_noted s t m >>= λ s'.
              ok (set_task s' t (record (s'.tasks t) { check_sem = none }))
        ]
