-- ===== src/Sched/Tests.antt =====
-- The scheduler at concrete inputs.
use usfstl.Base.{
  ℕ, ◌≡◌, refl, true, false, none, some, [], ◌∷◌, arith, ◌==◌, if◌then◌else◌, mem, All, All_of_mem,
  Result, ok, abort, Returns, ◌>>=◌,
}
use usfstl.Time.{time_gt, time_ge, time_le}
use usfstl.Sched.{
  Job, Sched, Hooks, is_held, group_bit, goes_before, insert_job, job_scheduled, sched_time,
  add_job, next_pending,
}
use usfstl.Sched.Order.{Ahead, Place, insert_job-Place}
use usfstl.Sched.Sound.{view, IsLinked, IsSound, held}
use usfstl.Sched.Quiet.{IsQuiet}
use usfstl.Sched.Add.{Added, add_job-Added}
use usfstl.Sched.Groups.{block_groups, restore_groups, block_job, unblock_job}
use usfstl.Sched.Groups.Remove.{SameClock}
use usfstl.Sched.Groups.Settled.{
  IsSettled, Regrouped, Blocked, block_groups-Blocked, restore_groups-IsSettled,
}
use usfstl.Sched.Groups.Section.{restore_groups-block_groups}
use usfstl.Sched.Groups.Single.{unblock_job-block_job}
use usfstl.Sched.Advance.{ran, sched_next, move_time, set_time, get_sync_time}
use usfstl.Sched.Advance.Loop.{standalone, sched_next_first, at_first}
use usfstl.Sched.Advance.Clock.{move_time_silent, set_time-IsSound}
use usfstl.Sched.Advance.Sync.{IsEarliest, get_sync_time-IsEarliest}

-- Job 0 and job 1 are due at 10, job 1 with the higher priority; job 2 is due at 20, job 3 at 15.
abbrev demo_jobs : ℕ → Job
demo_jobs j =
    if j == 0
    then record { start = 10; priority = 1; group = 0; blocked = false; pending = false }
    else if j == 1
    then record { start = 10; priority = 5; group = 3; blocked = false; pending = false }
    else if j == 2
    then record { start = 20; priority = 0; group = 3; blocked = false; pending = false }
    else record { start = 15; priority = 2; group = 1; blocked = false; pending = false }

abbrev demo : Sched (Unit {0})
demo = record {
  current_time = 5;
  prev_external_sync = 0;
  next_external_sync = 30;
  joblist = 1 ∷ 0 ∷ 2 ∷ [];
  pending_jobs = [];
  allowed_job = none;
  blocked_groups = 0;
  next_external_sync_set = true;
  prev_external_sync_set = false;
  waiting = false;
  jobs = demo_jobs;
  env = tt;
}

abbrev quiet_callback : ℕ → Sched (Unit {0}) → Result (Sched (Unit {0}))
quiet_callback j s = ok s

abbrev demo_hooks : Hooks (Unit {0})
demo_hooks = standalone quiet_callback

demo-IsQuiet : IsQuiet demo_hooks
demo-IsQuiet = record { request = λ f e s t. cc; changed = λ f e s. cc }

demo-IsLinked : IsLinked 5 (view demo)
demo-IsLinked = record {
  distinct = (refl, (refl, (refl, tt)));
  distinct_pending = tt;
  apart = tt;
  near = omega arith;
  ordered = ground arith;
  free = ground arith;
  free_pending = tt;
}

demo-IsSound : IsSound 5 (view demo)
unfolding is_held group_bit
demo-IsSound = record {
  linked = demo-IsLinked;
  unheld = λ i.
      All_of_mem (λ k. held (view demo) k ≡ false) (1 ∷ 0 ∷ 2 ∷ []) i (refl, (refl, (refl, tt)));
}

demo-IsSettled : IsSettled 5 (view demo)
demo-IsSettled = record { sound = demo-IsSound; settled = λ i m. cc }

sched_next_first_example :
    (sched_next demo_hooks 3 demo ≡ ok (ran (at_first quiet_callback demo 1 (0 ∷ 2 ∷ []) refl) 1))
    × IsSound 10 (view (at_first quiet_callback demo 1 (0 ∷ 2 ∷ []) refl))
    × All (λ i. Ahead 5 (demo_jobs 1) (demo_jobs i)) (0 ∷ 2 ∷ [])
    × (job_scheduled (at_first quiet_callback demo 1 (0 ∷ 2 ∷ []) refl) 1 ≡ false)
sched_next_first_example =
    sched_next_first quiet_callback demo 1 (0 ∷ 2 ∷ []) refl 2 (omega arith) demo-IsSound

insert_job-Place_example : Place 5 demo_jobs 3 (1 ∷ 0 ∷ 2 ∷ [])
insert_job-Place_example =
    insert_job-Place 5 demo_jobs 3 (omega arith) (omega arith) (1 ∷ 0 ∷ 2 ∷ []) demo-IsLinked.near
      demo-IsLinked.ordered

demo_inserted : insert_job demo_jobs 3 (1 ∷ 0 ∷ 2 ∷ []) ≡ 1 ∷ 0 ∷ 3 ∷ 2 ∷ []
unfolding insert_job goes_before time_gt
demo_inserted = refl

add_job-Added_example :
    Returns (add_job demo_hooks demo 3) (λ t. IsSound 5 (view t) × Added (view demo) 3 (view t))
unfolding job_scheduled time_ge sched_time
add_job-Added_example =
    add_job-Added demo_hooks demo-IsQuiet 5 demo 3 (omega arith) (omega arith) (λ _. refl)
      demo-IsSound (record { future = refl; unscheduled = refl; small_group = omega arith })

-- Group 3 is blocked for all jobs but job 1.
block_groups-Blocked_example :
    Returns
      (block_groups demo 8 (some 1))
      (λ r. Blocked 5 (view demo) 8 (some 1) (view r.0) r.1 × SameClock demo r.0)
unfolding group_bit
block_groups-Blocked_example = block_groups-Blocked 5 demo 8 (some 1) demo-IsLinked refl refl

restore_groups-IsSettled_example :
    Returns
      (restore_groups demo_hooks demo (record { groups = 8; job = none }))
      (λ t. IsSettled 5 (view t) × Regrouped (view demo) (view t) 8 none)
unfolding sched_time
restore_groups-IsSettled_example =
    restore_groups-IsSettled demo_hooks demo-IsQuiet 5 (omega arith) demo
      (record { groups = 8; job = none }) refl demo-IsLinked tt

restore_groups-block_groups_example :
    Returns (block_groups demo 8 (some 1) >>= λ r. restore_groups demo_hooks r.0 r.1) (λ t.
      IsSettled 5 (view t)
      × (t.blocked_groups ≡ 0)
      × (t.allowed_job ≡ none)
      × ((i : ℕ) → (mem i t.joblist ≡ mem i demo.joblist) × (mem i t.pending_jobs ≡ mem i [])))
unfolding sched_time group_bit
restore_groups-block_groups_example =
    restore_groups-block_groups demo_hooks demo-IsQuiet 5 (omega arith) demo 8 (some 1) refl
      demo-IsSettled tt refl refl

unblock_job-block_job_example : Returns (block_job demo 0 >>= λ t. unblock_job demo_hooks t 0) (λ u.
    IsLinked 5 (view u)
    × ((i : ℕ) → (mem i u.joblist ≡ mem i demo.joblist) × (mem i u.pending_jobs ≡ mem i [])))
unfolding sched_time job_scheduled
unblock_job-block_job_example =
    unblock_job-block_job demo_hooks demo-IsQuiet 5 (omega arith) demo 0 refl demo-IsSettled refl
      (omega arith)

set_time-IsSound_example :
    (set_time demo_hooks demo 8 ≡ ok (record demo { current_time = 8 }))
    × IsSound 8 (view (record demo { current_time = 8 }))
unfolding next_pending time_le
set_time-IsSound_example =
    set_time-IsSound quiet_callback demo 8 (omega arith) (omega arith) refl demo-IsSound

move_time_silent_example :
    move_time (record demo_hooks { time_advanced = some (λ s d. abort "called") }) demo 8
    ≡ move_time (record demo_hooks { time_advanced = none }) demo 8
move_time_silent_example =
    move_time_silent demo_hooks (λ f e c d. cc) (some (λ s d. abort "called")) none demo 8
      (omega arith)

get_sync_time-IsEarliest_example : IsEarliest demo 5 (get_sync_time demo_hooks demo)
unfolding sched_time
get_sync_time-IsEarliest_example =
    get_sync_time-IsEarliest demo_hooks demo (omega arith) (omega arith) demo-IsLinked.near
      demo-IsLinked.ordered
