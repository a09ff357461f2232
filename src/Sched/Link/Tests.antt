-- ===== src/Sched/Link/Tests.antt =====
-- A scheduler in ticks of 1000 that is linked to a parent.
use usfstl.Base.{
  ℕ, ◌≡◌, refl, false, Bool, Option, none, some, List, [], ◌∷◌, arith, ◌==◌, if◌then◌else◌,
  All_of_mem, Result, ok, Returns, ◌>>=◌,
}
use usfstl.Time.{time_ge, time_le, sub64, mul64}
use usfstl.Sched.{Job, Sched, Hooks, is_held, group_bit, job_scheduled, sched_time, next_pending}
use usfstl.Sched.Sound.{view, IsSound, held}
use usfstl.Sched.Quiet.{IsQuiet}
use usfstl.Sched.Advance.Loop.{standalone}
use usfstl.Sched.Link.{Link, Linked, clock_hooks, link_wait, link, unlink}
use usfstl.Sched.Link.Unlink.{IsLinkable, unlink-link}
use usfstl.Sched.Link.Wait.{resumed, link_wait_arrives}

-- The parent's jobs: the link job 0 and a job 1, due at 4000.
abbrev parent_jobs : ℕ → Job
parent_jobs j =
    if j == 0
    then record { start = 3000; priority = 0; group = 0; blocked = false; pending = false }
    else record { start = 4000; priority = 0; group = 0; blocked = false; pending = false }

abbrev parent_with : List ℕ → Sched Bool
parent_with jobs = record {
  current_time = 1000;
  prev_external_sync = 0;
  next_external_sync = 0;
  joblist = jobs;
  pending_jobs = [];
  allowed_job = none;
  blocked_groups = 0;
  next_external_sync_set = false;
  prev_external_sync_set = false;
  waiting = false;
  jobs = parent_jobs;
  env = false;
}

abbrev quiet_callback : ℕ → Sched Bool → Result (Sched Bool)
quiet_callback j s = ok s

abbrev parent_hooks : Hooks Bool
parent_hooks = standalone quiet_callback

parent-IsQuiet : IsQuiet parent_hooks
parent-IsQuiet = record { request = λ f e s t. cc; changed = λ f e s. cc }

abbrev idle_parent : Sched Bool
idle_parent = parent_with (1 ∷ [])

abbrev busy_parent : Sched Bool
busy_parent = parent_with (0 ∷ 1 ∷ [])

idle_parent-IsSound : IsSound 1000 (view idle_parent)
unfolding is_held group_bit
idle_parent-IsSound = record {
  linked = record {
    distinct = (refl, tt);
    distinct_pending = tt;
    apart = tt;
    near = omega arith;
    ordered = ground arith;
    free = ground arith;
    free_pending = tt;
  };
  unheld = λ i. All_of_mem (λ k. held (view idle_parent) k ≡ false) (1 ∷ []) i (refl, tt);
}

busy_parent-IsSound : IsSound 1000 (view busy_parent)
unfolding is_held group_bit
busy_parent-IsSound = record {
  linked = record {
    distinct = (refl, (refl, tt));
    distinct_pending = tt;
    apart = tt;
    near = omega arith;
    ordered = ground arith;
    free = ground arith;
    free_pending = tt;
  };
  unheld =
      λ i. All_of_mem (λ k. held (view busy_parent) k ≡ false) (0 ∷ 1 ∷ []) i (refl, (refl, tt));
}

-- The scheduler to link, at tick 3, with a job at tick 5.
abbrev ticker : Linked
ticker = record {
  current_time = 3;
  prev_external_sync = 0;
  next_external_sync = 0;
  joblist = 0 ∷ [];
  pending_jobs = [];
  allowed_job = none;
  blocked_groups = 0;
  next_external_sync_set = false;
  prev_external_sync_set = false;
  waiting = false;
  jobs = λ j. record { start = 5; priority = 0; group = 0; blocked = false; pending = false };
  env = none;
}

abbrev own_hooks : Hooks (Option Link)
own_hooks = standalone (λ j s. ok s)

abbrev the_link : Sched Bool → Link
the_link p = record { parent = p; offset = sub64 1000 (mul64 3 1000); tick_ratio = 1000; job = 0 }

abbrev linked_ticker : Sched Bool → Linked
linked_ticker p = record ticker { env = some (the_link p) }

ticker-IsLinkable : IsLinkable parent_hooks own_hooks 9 ticker idle_parent 0 1000
unfolding sched_time time_ge
ticker-IsLinkable = record {
  positive = omega arith;
  fits = omega arith;
  clock = omega arith;
  unlinked = refl;
  request = refl;
  wait = refl;
  get_time = refl;
  set_time = refl;
  sound = idle_parent-IsSound;
  tidy = λ _. refl;
  group = omega arith;
  later = λ j e. (record { near = omega arith; word = omega arith }, refl);
}

unlink-link_example :
    Returns
      (link parent_hooks own_hooks 9 ticker idle_parent 0 1000 >>= unlink parent_hooks own_hooks 9)
      (λ r.
        (r.0.current_time ≡ 3)
        × (r.0.env ≡ none)
        × (sched_time parent_hooks r.1 ≡ sched_time parent_hooks idle_parent)
        × (job_scheduled r.1 0 ≡ false))
unlink-link_example =
    unlink-link parent_hooks own_hooks 9 ticker idle_parent 0 1000 parent-IsQuiet ticker-IsLinkable

link_wait_arrives_example :
    (link_wait parent_hooks own_hooks 9 (linked_ticker busy_parent)
      ≡ ok (
          resumed quiet_callback own_hooks
            (linked_ticker busy_parent)
            (the_link busy_parent)
            (1 ∷ [])))
    × (sched_time (clock_hooks parent_hooks own_hooks) (
          resumed quiet_callback own_hooks
            (linked_ticker busy_parent)
            (the_link busy_parent)
            (1 ∷ []))
        ≡ 5)
unfolding next_pending time_le
link_wait_arrives_example =
    link_wait_arrives quiet_callback own_hooks (linked_ticker busy_parent) (the_link busy_parent)
      (1 ∷ []) 8 5 refl (omega arith) busy_parent-IsSound refl refl (omega arith) (omega arith)
      (omega arith) refl
