-- ===== src/Sched/Advance/Loop.antt =====
-- usfstl_sched_next on a scheduler of its own runs the jobs in order and moves the clock to each.
use usfstl.Base.{
  ℕ, suc, ◌<◌, ◌≡◌, refl, ap, subst, ◌∙◌, Bool, true, false, Option, none, some, List, ◌∷◌, arith,
  mem, head?, Distinct, ◌==◌, remove, remove_absent, All, ==_refl, Result, ok, abort, ◌>>=◌,
}
use usfstl.Time.{two64, time_gt, time_ge}
use usfstl.Sched.{Sched, Hooks, sched_time, external_request, next_pending, del_job, job_scheduled}
use usfstl.Sched.Order.{Ahead, IsNear, IsOrdered}
use usfstl.Sched.Sound.{view, IsLinked, IsSound}
use usfstl.Sched.Jobs.{remove-IsLinked}
use usfstl.Sched.Groups.Remove.{not_pending}
use usfstl.Sched.Advance.{
  again, ran, move_time, forward, reach_job, run_job, is_next, next_turn, sched_next,
}
use usfstl.Sched.Advance.Rebase.{rebase-IsSound, IsLater-than_first}

module _ {E : Type 0} (callback : ℕ → Sched E → Result (Sched E)) where
  -- USFSTL_SCHEDULER: all pointers of the scheduler are NULL.
  abbrev pub standalone : Hooks E
  standalone = record {
    external_request = none;
    external_wait = none;
    external_get_time = none;
    external_set_time = none;
    time_advanced = none;
    next_time_changed = none;
    disable_skip = false;
    callback = callback;
  }

  ran_last :
      (n : ℕ) (m : Result (Sched E)) (j : ℕ)
      → ((m >>= λ t. ok (ran t j))
          >>= elim [ again s' ↦ sched_next standalone n s' | ran s' i ↦ ok (ran s' i) ])
        ≡ (m >>= λ t. ok (ran t j))
  ran_last n (ok t) j = refl
  ran_last n (abort x) j = refl

  module _ (s : Sched E) (j : ℕ) (rest : List ℕ) (e : s.joblist ≡ j ∷ rest) where
    -- What the callback of the first job is given.
    abbrev pub at_first : Sched E
    at_first = record s { current_time = (s.jobs j).start; joblist = rest }

    first-IsNear : IsSound s.current_time (view s) → IsNear s.current_time s.jobs (j ∷ rest)
    first-IsNear h = subst (IsNear s.current_time s.jobs) e h.linked.near

    first-IsOrdered : IsSound s.current_time (view s) → IsOrdered s.current_time s.jobs (j ∷ rest)
    first-IsOrdered h = subst (IsOrdered s.current_time s.jobs) e h.linked.ordered

    -- The first job is linked nowhere else.
    first_apart :
        IsSound s.current_time (view s) → (mem j rest ≡ false) × (mem j s.pending_jobs ≡ false)
    first_apart h =
        let o : mem j s.joblist ≡ true = ap (mem j) e ∙ ground (arith, ==_refl j) in
        ((subst Distinct e h.linked.distinct).0, not_pending _ (view s) j h.linked o)

    first_rest :
        IsSound s.current_time (view s)
        → IsSound s.current_time (view (record s { joblist = rest }))
    first_rest h = record {
      linked =
          subst
            (λ (xs : List ℕ).
              IsLinked s.current_time
                (record (view s) { joblist = xs; pending_jobs = s.pending_jobs }))
            (ap (remove j) e ∙ ground (arith, ==_refl j))
            (subst
              (λ (ys : List ℕ).
                IsLinked s.current_time
                  (record (view s) { joblist = remove j s.joblist; pending_jobs = ys }))
              (remove_absent j s.pending_jobs (first_apart h).1)
              (remove-IsLinked s.current_time j (view s) h.linked));
      unheld =
          λ i m. let o : mem i s.joblist ≡ true = ap (mem i) e ∙ ground (arith, m) in h.unheld i o;
    }

    reach_job_first :
        s.current_time < two64
        → IsSound s.current_time (view s)
        → reach_job standalone s j ≡ ok (record s { current_time = (s.jobs j).start })
    unfolding reach_job forward move_time sched_time external_request time_gt time_ge
    reach_job_first w h = let n = (first-IsNear h).0 in ground (arith, n)

    first_unlinked :
        IsSound s.current_time (view s)
        → del_job (record s { current_time = (s.jobs j).start }) j ≡ at_first
    unfolding del_job
    first_unlinked h = rw (e, ==_refl j, remove_absent j s.pending_jobs (first_apart h).1)

    next_pending_first : (t : ℕ) → next_pending (record s { current_time = t }) none ≡ some j
    unfolding next_pending
    next_pending_first t = ap head? e

    is_next_first : (t : ℕ) → is_next (record s { current_time = t }) j ≡ true
    is_next_first t =
        ap (λ (o : Option ℕ). elim o as (λ _. Bool) [ none ↦ false | some k ↦ k == j ])
          (next_pending_first t)
        ∙ ==_refl j

    run_job_first :
        IsSound s.current_time (view s)
        → run_job standalone (record s { current_time = (s.jobs j).start }) j
          ≡ (callback j at_first >>= λ t. ok (ran t j))
    unfolding run_job
    run_job_first h = rw (is_next_first (s.jobs j).start, first_unlinked h)

    next_turn_first :
        s.current_time < two64
        → IsSound s.current_time (view s)
        → next_turn standalone s ≡ (callback j at_first >>= λ t. ok (ran t j))
    unfolding next_turn
    next_turn_first w h =
        rw (next_pending_first s.current_time, next_turn)
          (rw (reach_job_first w h) (run_job_first h))

    -- The next job to run is the first of the job list. Its callback runs with the clock at the start
    -- of that job, which is then on no list; the scheduler is sound, and the other jobs come later,
    -- or at the same time with no higher priority.
    pub sched_next_first :
        (n : ℕ)
        → s.current_time < two64
        → IsSound s.current_time (view s)
        → (sched_next standalone (suc n) s ≡ (callback j at_first >>= λ t. ok (ran t j)))
          × IsSound (s.jobs j).start (view at_first)
          × All (λ i. Ahead s.current_time (s.jobs j) (s.jobs i)) rest
          × (job_scheduled at_first j ≡ false)
    unfolding sched_next job_scheduled
    sched_next_first n w h =
        let l =
          IsLater-than_first s.current_time s.jobs w j rest (first-IsNear h)
            (first-IsOrdered h).0 in
        (
          rw (next_turn_first w h) (ran_last n (callback j at_first) j),
          rebase-IsSound s.current_time (s.jobs j).start w (first-IsNear h).0
              (view (record s { joblist = rest })) l (first_rest h),
          (first-IsOrdered h).0,
          rw ((first_apart h).0, (first_apart h).1),
        )
