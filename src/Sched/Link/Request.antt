-- ===== src/Sched/Link/Request.antt =====
-- A linked scheduler's request for runtime: its link job is put on the parent's job list.
use usfstl.Base.{
  inl, inr, remove_absent, Bool, ℕ, ◌<◌, ◌≡◌, refl, sym, ap, subst, true, false, some, Bool-cases,
  ==_refl, mem, remove, mem-remove_self, mem-remove_le, arith, Returns,
}
use usfstl.Time.{two64, time_ge}
use usfstl.Time.Window.{IsWithin}
use usfstl.Sched.{
  Sched, Hooks, ReqStatus, wait, set_job, update_job, is_held, job_scheduled, sched_time, add_job,
  del_job,
}
use usfstl.Sched.Sound.{view, held, IsSound}
use usfstl.Sched.Jobs.{remove-IsLinked, update_job-IsLinked}
use usfstl.Sched.Quiet.{IsQuiet, Returns-bind, Returns-mono, Returns-both}
use usfstl.Sched.Add.{IsAddable, IsTidy, update_job_group, Added, add_job-IsLinked, add_job-Added}
use usfstl.Sched.Link.{Link, Linked, to_parent, set_parent, link_request}

module _ {E : Type 0} (s : Sched E) (j : ℕ) where
  -- usfstl_sched_del_job takes the job off both lists, if it is on one.
  pub del_job_lem :
      del_job s j
      ≡ record s { joblist = remove j s.joblist; pending_jobs = remove j s.pending_jobs }
  unfolding del_job job_scheduled
  del_job_lem = elim (Bool-cases (job_scheduled s j)) [
    | inl e ↦ rw e refl
    | inr e ↦
        let a : mem j s.joblist ≡ false = ground (arith, e) in
        let b : mem j s.pending_jobs ≡ false = ground (arith, e) in
        rw (e, remove_absent j s.joblist a, remove_absent j s.pending_jobs b) refl
  ]

  -- The scheduler when the job is off its lists and has a new start time.
  abbrev pub asked : ℕ → Sched E
  asked start = set_job (del_job s j) j (record ((del_job s j).jobs j) { start = start })

  abbrev cleared : ℕ → Sched E
  cleared start = record s {
    joblist = remove j s.joblist;
    pending_jobs = remove j s.pending_jobs;
    jobs = update_job s.jobs j (record (s.jobs j) { start = start });
  }

  asked_lem : (start : ℕ) → asked start ≡ cleared start
  asked_lem start =
      ap (λ (t : Sched E). set_job t j (record (t.jobs j) { start = start })) del_job_lem

  module _ (lo start : ℕ) (h : IsSound lo (view s)) where
    cleared_unscheduled : job_scheduled (cleared start) j ≡ false
    unfolding job_scheduled
    cleared_unscheduled = rw (
      mem-remove_self j s.joblist h.linked.distinct,
      mem-remove_self j s.pending_jobs h.linked.distinct_pending,
    )

    cleared_unheld :
        (i : ℕ) → mem i (cleared start).joblist ≡ true → held (view (cleared start)) i ≡ false
    unfolding is_held
    cleared_unheld i m =
        rw (update_job_group s.jobs j (record (s.jobs j) { start = start }) refl i)
          (h.unheld i (ground (arith, mem-remove_le i j s.joblist)))

    cleared-IsSound : IsSound lo (view (cleared start))
    cleared-IsSound = record {
      linked =
          update_job-IsLinked lo j _
            (record (view s) {
              joblist = remove j s.joblist;
              pending_jobs = remove j s.pending_jobs;
            })
            (mem-remove_self j s.joblist h.linked.distinct)
            (mem-remove_self j s.pending_jobs h.linked.distinct_pending)
            (remove-IsLinked lo j (view s) h.linked);
      unheld = cleared_unheld;
    }

-- The answer to a request: the parent's link job was added, at the parent's time of the tick.
pub record Granted (hooks : Hooks Bool) (lo : ℕ) (s : Linked) (l : Link) (time : ℕ)
    (r : Linked × ReqStatus) : Type 0 where
  pub parent : Sched Bool
  pub scheduler : r.0 ≡ set_parent s l parent
  pub status : r.1 ≡ wait
  pub sound : IsSound lo (view parent)
  pub added : Added (view (asked l.parent l.job (to_parent l time))) l.job (view parent)
  pub clock : sched_time hooks parent ≡ sched_time hooks l.parent

module _ {E : Type 0} (hooks : Hooks E) (q : IsQuiet hooks) (lo : ℕ) (s : Sched E)
    (j start : ℕ) where
  cleared-IsAddable :
      IsSound lo (view s)
      → time_ge start (sched_time hooks s) ≡ true
      → (s.jobs j).group < 32
      → IsAddable hooks (cleared s j start) j
  unfolding sched_time
  cleared-IsAddable h g k = record {
    future = rw (==_refl j) g;
    unscheduled = cleared_unscheduled s j lo start h;
    small_group = rw (==_refl j) k;
  }

  pub asked-Added :
      lo < two64
      → IsSound lo (view s)
      → IsWithin lo start
      → time_ge start (sched_time hooks s) ≡ true
      → IsTidy (view s) j
      → (s.jobs j).group < 32
      → Returns (add_job hooks (asked s j start) j) (λ p.
        (IsSound lo (view p) × Added (view (asked s j start)) j (view p))
        × (sched_time hooks p ≡ sched_time hooks s))
  unfolding sched_time
  asked-Added w h n g d k =
      let c = cleared-IsSound s j lo start h in
      let a = cleared-IsAddable h g k in
      let m : IsWithin lo ((cleared s j start).jobs j).start = rw (==_refl j) n in
      let i : IsTidy (view (cleared s j start)) j = rw (==_refl j) d in
      subst
        (λ (t : Sched E). Returns (add_job hooks t j) (λ p.
          (IsSound lo (view p) × Added (view t) j (view p))
          × (sched_time hooks p ≡ sched_time hooks s)))
        (sym (asked_lem s j start))
        (Returns-mono (add_job hooks (cleared s j start) j) _ _
          (Returns-both (add_job hooks (cleared s j start) j) _ _
            (add_job-Added hooks q lo (cleared s j start) j w m i c a)
            (add_job-IsLinked hooks q lo (cleared s j start) j w m i c.linked a))
          (λ p r. (r.0, r.1.2)))

module _ {E : Type 0} (s : Sched E) (j : ℕ) where
  pub del_job_time : (hooks : Hooks E) → sched_time hooks (del_job s j) ≡ sched_time hooks s
  unfolding sched_time
  del_job_time hooks = ap (sched_time hooks) (del_job_lem s j)

  pub del_job_unscheduled : (lo : ℕ) → IsSound lo (view s) → job_scheduled (del_job s j) j ≡ false
  unfolding job_scheduled
  del_job_unscheduled lo h = rw (
    del_job_lem s j,
    mem-remove_self j s.joblist h.linked.distinct,
    mem-remove_self j s.pending_jobs h.linked.distinct_pending,
  )

module _ (hooks : Hooks Bool) (q : IsQuiet hooks) (lo : ℕ) (s : Linked) (l : Link) (time : ℕ) where
  -- With a sound parent, a request for a tick that is not past in the parent's time returns: the link
  -- job is added to the parent, which stays sound and at its time, and the linked scheduler has to
  -- wait.
  pub link_request-Granted :
      lo < two64
      → IsSound lo (view l.parent)
      → IsWithin lo (to_parent l time)
      → time_ge (to_parent l time) (sched_time hooks l.parent) ≡ true
      → IsTidy (view l.parent) l.job
      → (l.parent.jobs l.job).group < 32
      → s.env ≡ some l
      → Returns (link_request hooks s time) (Granted hooks lo s l time)
  unfolding link_request
  link_request-Granted w h n g d k e = rw e (
      Returns-bind (add_job hooks (asked l.parent l.job (to_parent l time)) l.job) _ _ _
        (asked-Added hooks q lo l.parent l.job (to_parent l time) w h n g d k)
        (λ p r. record {
          parent = p;
          scheduler = refl;
          status = refl;
          sound = r.0.0;
          added = r.0.1;
          clock = r.1;
        }))
