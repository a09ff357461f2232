-- ===== src/Task/Tests.antt =====
-- A semaphore with two waiters, the first of them blocked.
use usfstl.Base.{ℕ, ◌≡◌, refl, true, false, none, List, [], ◌∷◌, arith, ◌==◌, ok, ◌>>=◌, Returns}
use usfstl.Sched.{Sched, Hooks, set_job, sched_time}
use usfstl.Sched.Sound.{view, IsSound}
use usfstl.Sched.Quiet.{IsQuiet}
use usfstl.Sched.Add.{Added}
use usfstl.Sched.Link.Request.{asked}
use usfstl.Sched.Advance.Loop.{standalone}
use usfstl.Task.{Tasks, sem_post}
use usfstl.Task.Wait.{task_unblock}
use usfstl.Task.Waiters.{task_unblock-sem_post}
use usfstl.Task.Post.{Woken, sem_post-Woken}

abbrev demo_hooks : Hooks (Unit {0})
demo_hooks = standalone (λ j s. ok s)

demo-IsQuiet : IsQuiet demo_hooks
demo-IsQuiet = record { request = λ f e s t. cc; changed = λ f e s. cc }

abbrev demo_sched : Sched (Unit {0})
demo_sched = record {
  current_time = 50;
  prev_external_sync = 0;
  next_external_sync = 0;
  joblist = [];
  pending_jobs = [];
  allowed_job = none;
  blocked_groups = 0;
  next_external_sync_set = false;
  prev_external_sync_set = false;
  waiting = false;
  jobs = λ j. record { start = 0; priority = 0; group = 1; blocked = j == 4; pending = false };
  env = tt;
}

demo_sched-IsSound : IsSound 50 (view demo_sched)
demo_sched-IsSound = record {
  linked = record {
    distinct = tt;
    distinct_pending = tt;
    apart = tt;
    near = tt;
    ordered = tt;
    free = tt;
    free_pending = tt;
  };
  unheld = λ i m. cc;
}

-- Task 4 is blocked.
abbrev demo_with : List ℕ → Tasks (Unit {0})
demo_with waiters = record {
  sched = demo_sched;
  tasks = λ t. record { check_sem = none; woken_by_sem_post = false };
  sems = λ m. record { ctr = 0; waiters = waiters };
}

sem_post-Woken_example :
    Returns
      (sem_post demo_hooks (demo_with (4 ∷ 6 ∷ [])) 1)
      (Woken demo_hooks (demo_with (4 ∷ 6 ∷ [])) 1 6)
unfolding sched_time
sem_post-Woken_example =
    sem_post-Woken demo_hooks demo-IsQuiet (demo_with (4 ∷ 6 ∷ [])) 1 6 (omega arith)
      demo_sched-IsSound (λ _. refl) (omega arith) refl

-- The scheduler with task 4 unblocked.
abbrev demo_unblocked : Sched (Unit {0})
demo_unblocked = set_job demo_sched 4 (record (demo_sched.jobs 4) { blocked = false })

demo_unblocked-IsSound : IsSound 50 (view demo_unblocked)
demo_unblocked-IsSound = record {
  linked = record {
    distinct = tt;
    distinct_pending = tt;
    apart = tt;
    near = tt;
    ordered = tt;
    free = tt;
    free_pending = tt;
  };
  unheld = λ i m. cc;
}

task_unblock-sem_post_example :
    Returns (sem_post demo_hooks (demo_with (4 ∷ [])) 1 >>= λ u. task_unblock demo_hooks u 4) (λ v.
      ((v.sems 1).waiters ≡ [])
      × ((v.sems 1).ctr ≡ 0)
      × ((v.tasks 4).woken_by_sem_post ≡ true)
      × ((v.tasks 4).check_sem ≡ none)
      × Added (view (asked demo_unblocked 4 50)) 4 (view v.sched))
unfolding sched_time
task_unblock-sem_post_example =
    task_unblock-sem_post demo_hooks demo-IsQuiet (demo_with (4 ∷ [])) 1 4 (omega arith) refl
      (omega arith) refl refl demo_unblocked-IsSound (λ _. refl) (omega arith)
