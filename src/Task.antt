-- ===== src/Task.antt =====
-- src/task.c: semaphores and the tasks that wait for them. A task's job has the task's number in the
-- task scheduler, and the tasks' contexts are not modelled.
pub mod Post
pub mod Wait
pub mod Waiters
mod Tests
use usfstl.Base.{
  ℕ, ◌+◌, ◌-◌, ◌%◌, ◌^◌, Bool, true, false, Option, none, some, List, [], ◌∷◌, ltb, ◌==◌,
  if◌then◌else◌, remove, Result, ok, abort, ◌>>=◌,
}
use usfstl.Sched.{Job, Sched, Hooks, set_job, sched_time, del_job, add_job}

-- The members of struct usfstl_task that the semaphores use, but for its job.
pub record Task : Type 0 where
  pub check_sem : Option ℕ
  pub woken_by_sem_post : Bool

-- struct usfstl_sem.
pub record Sem : Type 0 where
  pub ctr : ℕ  -- uint32_t
  pub waiters : List ℕ

-- The task scheduler, the tasks and the semaphores, which are known by numbers.
pub record Tasks (E : Type 0) : Type 0 where
  pub sched : Sched E
  pub tasks : ℕ → Task
  pub sems : ℕ → Sem

abbrev pub set_task : {E : Type 0} → Tasks E → ℕ → Task → Tasks E
set_task s t v = record s { tasks = λ i. if t == i then v else s.tasks i }

abbrev pub set_sem : {E : Type 0} → Tasks E → ℕ → Sem → Tasks E
set_sem s m v = record s { sems = λ i. if m == i then v else s.sems i }

module _ {E : Type 0} (hooks : Hooks E) where
  -- usfstl_sched_del_job, the new start and usfstl_sched_add_job for the job of a task.
  unfoldable pub restart_job : Sched E → ℕ → Result (Sched E)
  restart_job s t =
      let s' = del_job s t in
      add_job hooks (set_job s' t (record (s'.jobs t) { start = sched_time hooks s' })) t

  -- The body of the loop of usfstl_process_sem_wakeup for a task that is not blocked.
  unfoldable pub wake_task : Tasks E → ℕ → ℕ → Result (Tasks E)
  wake_task s m t = restart_job s.sched t >>= λ sched.
      let s' =
        set_task (record s { sched = sched }) t (record (s.tasks t) { woken_by_sem_post = true }) in
      ok (set_sem s' m (record (s.sems m) { waiters = remove t (s.sems m).waiters }))

  unfoldable pub wake_first : Tasks E → ℕ → List ℕ → Result (Tasks E × Bool)
  wake_first s m [] = ok (s, false)
  wake_first s m (t ∷ ts) =
      let rest = wake_first (set_task s t (record (s.tasks t) { check_sem = some m })) m ts in
      if (s.sched.jobs t).blocked then rest else (wake_task s m t >>= λ s'. ok (s', true))

  unfoldable pub process_sem_wakeup : Tasks E → ℕ → Result (Tasks E × Bool)
  process_sem_wakeup s m = wake_first s m (s.sems m).waiters

  unfoldable pub sem_post : Tasks E → ℕ → Result (Tasks E)
  sem_post s m = do
    r ← process_sem_wakeup s m
    if r.1
        then ok r.0
        else ok (set_sem r.0 m (record (r.0.sems m) { ctr = ((r.0.sems m).ctr + 1) % 2 ^ 32 }))

module _ {E : Type 0} where
  -- if (sem->ctr > 0) { sem->ctr--; return true; } return false;
  unfoldable pub sem_trywait : Tasks E → ℕ → Tasks E × Bool
  sem_trywait s m =
      if ltb 0 (s.sems m).ctr
      then (set_sem s m (record (s.sems m) { ctr = (s.sems m).ctr - 1 }), true)
      else (s, false)
