-- ===== src/Sched/Add.antt =====
-- usfstl_sched_add_job and usfstl_sched_del_job: where a job ends up, and when the call aborts.
use usfstl.Base.{
  ℕ, ◌<◌, ◌≡◌, refl, sym, subst, inl, inr, ◌≢◌, ◌≤◌, ◌⊎◌, Bool, true, false, ◌||◌, ◌&&◌, not, [],
  ◌∷◌, ◌++◌, arith, ◌==◌, ==_refl, ==→eq, Bool-cases, lt→ltb, mem, mem-append, Returns, Aborts,
}
use usfstl.Time.{two64, time_ge}
use usfstl.Time.Window.{IsWithin}
use usfstl.Sched.{
  Job, Sched, Hooks, update_job, is_held, insert_job, job_scheduled, sched_time, enlist, place_job,
  add_job,
}
use usfstl.Sched.Order.{mem-insert_job}
use usfstl.Sched.Sound.{View, view, IsFree, IsLinked, IsSound, held}
use usfstl.Sched.Quiet.{IsQuiet, enlist_lem, Returns-mono}
use usfstl.Sched.Jobs.{update_job-IsLinked, append-IsLinked, insert-IsLinked}

-- Nothing holds the job back.
abbrev pub is_runnable : View → ℕ → Bool
is_runnable v j = not (v.jobs j).blocked && not (is_held v.blocked_groups v.allowed_job v.jobs j)

-- `w` is `v` with the job `j` added: to the job list if nothing holds it back, to the pending jobs
-- if its group does, and marked as pending if it is blocked itself.
pub record Added (v : View) (j : ℕ) (w : View) : Type 0 where
  pub joblist : (i : ℕ) → mem i w.joblist ≡ ((j == i && is_runnable v j) || mem i v.joblist)
  pub pending_jobs :
      (i : ℕ)
      → mem i w.pending_jobs
        ≡ ((j == i && (not (v.jobs j).blocked && not (is_runnable v j))) || mem i v.pending_jobs)
  pub kept : is_runnable v j ≡ true → w.pending_jobs ≡ v.pending_jobs
  pub pending : (w.jobs j).pending ≡ (v.jobs j).blocked
  pub groups : (i : ℕ) → (w.jobs i).group ≡ (v.jobs i).group
  pub others : (i : ℕ) → i ≢ j → w.jobs i ≡ v.jobs i
  pub blocked_groups : w.blocked_groups ≡ v.blocked_groups
  pub allowed_job : w.allowed_job ≡ v.allowed_job

-- Job `j` is marked as pending only while it is blocked.
abbrev pub IsTidy : View → ℕ → Type 0
IsTidy v j = (v.jobs j).blocked ≡ false → (v.jobs j).pending ≡ false

-- What the callers of usfstl_sched_add_job see to, and its assertions check.
pub record IsAddable {E : Type 0} (hooks : Hooks E) (s : Sched E) (j : ℕ) : Type 0 where
  pub future : time_ge (s.jobs j).start (sched_time hooks s) ≡ true
  pub unscheduled : job_scheduled s j ≡ false
  pub small_group : (s.jobs j).group < 32

pub update_job_other : (js : ℕ → Job) (j : ℕ) (w : Job) (i : ℕ) → i ≢ j → update_job js j w i ≡ js i
update_job_other js j w i h = ground arith

pub update_job_group :
    (js : ℕ → Job) (j : ℕ) (w : Job)
    → w.group ≡ (js j).group
    → (i : ℕ) → (update_job js j w i).group ≡ (js i).group
update_job_group js j w e i = ground (arith, ==→eq j i)

module _ (lo : ℕ) (v : View) (j : ℕ) (h : IsLinked lo v) (b : mem j v.pending_jobs ≡ false) where
  add_held :
      mem j v.joblist ≡ false
      → (w : Job) → IsFree w
      → w.group ≡ (v.jobs j).group
      → (v.jobs j).blocked ≡ false
      → is_held v.blocked_groups v.allowed_job v.jobs j ≡ true
      → let v' = record v {
        jobs = update_job v.jobs j w;
        pending_jobs = v.pending_jobs ++ j ∷ [];
      } in
        IsLinked lo v' × Added v j v'
  add_held a w f g e k = (
    append-IsLinked lo j (record v { jobs = update_job v.jobs j w }) a b (rw (==_refl j) f)
        (update_job-IsLinked lo j w v a b h),
    record {
      joblist = λ i. ground arith;
      pending_jobs = λ i. rw (e, k) (ground (arith, mem-append i v.pending_jobs (j ∷ [])));
      kept = λ r. let no_run : ⊥ = ground arith in absurd no_run;
      pending = rw (==_refl j, e) f.1;
      groups = update_job_group v.jobs j w g;
      others = update_job_other v.jobs j w;
      blocked_groups = refl;
      allowed_job = refl;
    },
  )

  add_enlisted :
      mem j v.joblist ≡ false
      → lo < two64
      → IsWithin lo (v.jobs j).start
      → IsFree (v.jobs j)
      → is_held v.blocked_groups v.allowed_job v.jobs j ≡ false
      → let v' = record v { joblist = insert_job v.jobs j v.joblist } in
        IsLinked lo v' × Added v j v'
  add_enlisted a w n f k = (
    insert-IsLinked lo j v w n a b f h,
    record {
      joblist = λ i. rw (f.0, k, mem-insert_job v.jobs i j v.joblist) (ground arith);
      pending_jobs = λ i. rw (f.0, k) (ground arith);
      kept = λ r. refl;
      pending = rw (f.0, f.1) refl;
      groups = λ i. refl;
      others = λ i _. refl;
      blocked_groups = refl;
      allowed_job = refl;
    },
  )

-- A job that is added to the job list is not held back, nor are the others.
Added-unheld :
    (lo : ℕ) (v w : View) (j : ℕ)
    → IsSound lo v
    → Added v j w
    → (i : ℕ) → mem i w.joblist ≡ true
    → held w i ≡ false
unfolding is_held
Added-unheld lo v w j h a i m =
    let old : held v i ≡ false = elim (Bool-cases (j == i)) [
      | inl e ↦ elim (Bool-cases (mem i v.joblist)) [
        | inl k ↦ h.unheld i k
        | inr k ↦ rw (← ==→eq j i e) (ground (arith, a.joblist i))
      ]
      | inr e ↦ h.unheld i (ground (arith, a.joblist i))
    ] in
    rw (a.groups i, a.blocked_groups, a.allowed_job) old

module _ {E : Type 0} (hooks : Hooks E) (q : IsQuiet hooks) (lo : ℕ) (s : Sched E) (j : ℕ) where
  pub place_job-Added :
      mem j s.joblist ≡ false
      → mem j s.pending_jobs ≡ false
      → lo < two64
      → IsWithin lo (s.jobs j).start
      → (s.jobs j).group < 32
      → IsTidy (view s) j
      → IsLinked lo (view s)
      → Returns (place_job hooks s j) (λ t.
        IsLinked lo (view t)
        × Added (view s) j (view t)
        × (sched_time hooks t ≡ sched_time hooks s))
  unfolding place_job sched_time
  place_job-Added a b w n g d h = elim (Bool-cases (s.jobs j).blocked) [
    | inl e ↦ rw e (
      update_job-IsLinked lo j _ (view s) a b h,
      (record {
        joblist = λ i. ground arith;
        pending_jobs = λ i. ground arith;
        kept = λ r. refl;
        pending = rw (==_refl j) (sym e);
        groups = update_job_group s.jobs j _ refl;
        others = update_job_other s.jobs j _;
        blocked_groups = refl;
        allowed_job = refl;
      }),
      refl,
    )
    | inr e ↦ elim (Bool-cases (is_held s.blocked_groups s.allowed_job s.jobs j)) [
      | inl k ↦
          let r =
            add_held lo (view s) j h b a (record (s.jobs j) { start = 0; blocked = false })
              (refl, d e, g) refl e k in
          rw (e, k) (r.0, r.1, refl)
      | inr k ↦
          rw (e, k)
            (Returns-mono (enlist hooks s j) _ _ (enlist_lem hooks q s j) (λ t m.
              let r =
                subst (λ v. IsLinked lo v × Added (view s) j v) (sym m.0)
                  (add_enlisted lo (view s) j h b a w n (e, d e, g) k) in
              (r.0, r.1, m.1)))
    ]
  ]

  pub add_job-IsLinked :
      lo < two64
      → IsWithin lo (s.jobs j).start
      → IsTidy (view s) j
      → IsLinked lo (view s)
      → IsAddable hooks s j
      → Returns (add_job hooks s j) (λ t.
        IsLinked lo (view t)
        × Added (view s) j (view t)
        × (sched_time hooks t ≡ sched_time hooks s))
  unfolding add_job job_scheduled
  add_job-IsLinked w n d h a =
      rw (a.future, a.unscheduled, lt→ltb (s.jobs j).group 32 a.small_group)
        (place_job-Added (ground (arith, a.unscheduled)) (ground (arith, a.unscheduled)) w n
          a.small_group d h)

  -- In a sound scheduler, with callbacks that leave its jobs alone, a job that passes the assertions
  -- is added: the call returns, and the scheduler is sound again.
  pub add_job-Added :
      lo < two64
      → IsWithin lo (s.jobs j).start
      → IsTidy (view s) j
      → IsSound lo (view s)
      → IsAddable hooks s j
      → Returns (add_job hooks s j) (λ t. IsSound lo (view t) × Added (view s) j (view t))
  add_job-Added w n d h a =
      Returns-mono (add_job hooks s j) _ _ (add_job-IsLinked w n d h.linked a)
        (λ t r. (record { linked = r.0; unheld = Added-unheld lo (view s) (view t) j h r.1 }, r.1))

-- A job in the past, a job that is already linked and a group beyond 31 are refused.
pub add_job-Aborts :
    {E : Type 0} (hooks : Hooks E) (s : Sched E) (j : ℕ)
    → (time_ge (s.jobs j).start (sched_time hooks s) ≡ false)
      ⊎ (job_scheduled s j ≡ true)
      ⊎ (32 ≤ (s.jobs j).group)
    → Aborts (add_job hooks s j)
unfolding add_job
add_job-Aborts hooks s j h = ground arith
