-- ===== src/Sched/Groups/Restore.antt =====
-- usfstl_sched_restore_blocked_jobs and usfstl_sched_restore_groups: the jobs that no block holds
-- back any more return to the job list.
use mathlib.Core.List.{append_assoc}
use usfstl.Base.{
  ℕ, ◌<◌, ◌≡◌, ◌≢◌, refl, sym, ap, ◌∙◌, inl, inr, true, false, ◌||◌, List, [], ◌∷◌, ◌++◌, arith,
  ==→eq, ==_refl, Bool-cases, mem, remove, All, All_of_mem, All-others, Distinct, Distinct-middle,
  remove_middle, remove_absent, mem-append, mem-remove, mem-remove_self, if◌then◌else◌, subst, ok,
  Returns,
}
use usfstl.Time.{two63, two64, sub64, time_lt, time_ge}
use usfstl.Time.Window.{IsWithin}
use usfstl.Sched.{Sched, Hooks, update_job, is_held, del_job, job_scheduled, sched_time, add_job}
use usfstl.Sched.Sound.{View, view, IsLinked, held, IsFree}
use usfstl.Sched.Jobs.{remove-IsLinked, update_job-IsLinked}
use usfstl.Sched.Quiet.{IsQuiet, Returns-mono}
use usfstl.Sched.Add.{Added, is_runnable, add_job-IsLinked, update_job_group, update_job_other}
use usfstl.Sched.Groups.{release_job, restore_job, start_from_now}

-- The time is a word, and not exactly half the circle away from `now`.
abbrev pub IsAway : ℕ → ℕ → Type 0
IsAway now t = (t < two64) × (sub64 t now ≢ two63)

-- A restored job is due now or later.
pub start_from_now_due :
    (t now start : ℕ)
    → t ≡ now
    → now < two64
    → IsAway now start
    → let st = if time_lt start t then t else start in (time_ge st t ≡ true) × IsWithin now st
unfolding time_lt time_ge
start_from_now_due t now start e w a = ground arith

-- How far the restoring of jobs has come: `rest` is still to be visited.
pub record Restoring (now : ℕ) (v : View) (rest : List ℕ) (w : View) : Type 0 where
  pub before : List ℕ
  pub at : w.pending_jobs ≡ before ++ rest
  pub linked : IsLinked now w
  pub blocked_groups : w.blocked_groups ≡ v.blocked_groups
  pub allowed_job : w.allowed_job ≡ v.allowed_job
  pub groups : (i : ℕ) → (w.jobs i).group ≡ (v.jobs i).group
  pub away : All (λ i. IsAway now (w.jobs i).start) rest
  pub kept : (i : ℕ) → mem i before ≡ true → held v i ≡ true
  pub linked_jobs :
      (i : ℕ)
      → (mem i w.joblist || mem i w.pending_jobs) ≡ (mem i v.joblist || mem i v.pending_jobs)

pub Restoring-held :
    (now : ℕ) (v w : View) (rest : List ℕ) → Restoring now v rest w → (i : ℕ) → held w i ≡ held v i
unfolding is_held
Restoring-held now v w rest r i = rw (r.groups i, r.blocked_groups, r.allowed_job) refl

-- The job that is visited is on the pending list only.
pub Restoring-here :
    (now : ℕ) (v w : View) (j : ℕ) (rest : List ℕ) (r : Restoring now v (j ∷ rest) w)
    → (mem j w.pending_jobs ≡ true)
      × (mem j w.joblist ≡ false)
      × (mem j rest ≡ false)
      × (mem j r.before ≡ false)
Restoring-here now v w j rest r =
    let d = Distinct-middle r.before j rest (subst Distinct r.at r.linked.distinct_pending) in
    let m : mem j w.pending_jobs ≡ true =
      ap (mem j) r.at ∙ (mem-append j r.before (j ∷ rest) ∙ ground (arith, d)) in
    (m, All_of_mem _ w.pending_jobs j r.linked.apart m, d.1, d.0)

Restoring-keep :
    (now : ℕ) (v w : View) (j : ℕ) (rest : List ℕ)
    → held v j ≡ true
    → Restoring now v (j ∷ rest) w
    → Restoring now v rest w
Restoring-keep now v w j rest e r = record {
  before = r.before ++ j ∷ [];
  at = r.at ∙ sym (append_assoc r.before (j ∷ []) rest);
  linked = r.linked;
  blocked_groups = r.blocked_groups;
  allowed_job = r.allowed_job;
  groups = r.groups;
  away = r.away.1;
  kept = λ i m. ground (arith, r.kept i, ==→eq j i, mem-append i r.before (j ∷ []));
  linked_jobs = r.linked_jobs;
}

del_job_scheduled :
    {E : Type 0} (s : Sched E) (j : ℕ)
    → mem j s.pending_jobs ≡ true
    → mem j s.joblist ≡ false
    → del_job s j ≡ record s { pending_jobs = remove j s.pending_jobs }
unfolding del_job
del_job_scheduled s j m n = rw (m, n, remove_absent j s.joblist n) refl

-- The view once the job is unlinked and its start is set.
abbrev freed : View → ℕ → ℕ → View
freed w j st = record w {
  pending_jobs = remove j w.pending_jobs;
  jobs = update_job w.jobs j (record (w.jobs j) { start = st });
}

freed-IsLinked :
    (now : ℕ) (v w : View) (j st : ℕ) (rest : List ℕ)
    → Restoring now v (j ∷ rest) w
    → IsLinked now (freed w j st)
freed-IsLinked now v w j st rest r =
    let (m, n, o, b) = Restoring-here now v w j rest r in
    let w' : View = record w { joblist = w.joblist; pending_jobs = remove j w.pending_jobs } in
    let l : IsLinked now w' =
      subst
        (λ (xs : List ℕ).
          IsLinked now (record w { joblist = xs; pending_jobs = remove j w.pending_jobs }))
        (remove_absent j w.joblist n) (remove-IsLinked now j w r.linked) in
    update_job-IsLinked now j (record (w.jobs j) { start = st }) w' n
      (mem-remove_self j w.pending_jobs r.linked.distinct_pending) l

-- The job has left the pending jobs, and has been added.
Restoring-add :
    (now : ℕ) (v w u : View) (j st : ℕ) (rest : List ℕ)
    → held v j ≡ false
    → (r : Restoring now v (j ∷ rest) w) → IsLinked now u
    → Added (freed w j st) j u
    → Restoring now v rest u
unfolding is_held
Restoring-add now v w u j st rest e r l a =
    let (m, n, o, b) = Restoring-here now v w j rest r in
    let f : IsFree (w.jobs j) = All_of_mem _ w.pending_jobs j r.linked.free_pending m in
    let run : is_runnable (freed w j st) j ≡ true =
      ground (arith, ==_refl j, f.0, Restoring-held now v w (j ∷ rest) r j, e) in
    record {
      before = r.before;
      at = a.kept run ∙ (ap (remove j) r.at ∙ remove_middle r.before j rest b);
      linked = l;
      blocked_groups = a.blocked_groups ∙ r.blocked_groups;
      allowed_job = a.allowed_job ∙ r.allowed_job;
      groups = λ i.
          a.groups i
          ∙ (update_job_group w.jobs j (record (w.jobs j) { start = st }) refl i ∙ r.groups i);
      away =
          All-others _ _ j rest (λ i k h. rw (a.others i k, update_job_other w.jobs j _ i k) h) o
            r.away.1;
      kept = r.kept;
      linked_jobs = λ i. ground (
        arith,
        a.joblist i,
        a.pending_jobs i,
        run,
        m,
        n,
        ==→eq j i,
        r.linked_jobs i,
        mem-remove i j w.pending_jobs r.linked.distinct_pending,
      );
    }

module _ {E : Type 0} (hooks : Hooks E) (s : Sched E) (j : ℕ) where
  release_job-held : held (view s) j ≡ true → release_job hooks s j ≡ ok s
  unfolding release_job is_held
  release_job-held h = ground arith

  release_job_unheld : held (view s) j ≡ false → release_job hooks s j ≡ restore_job hooks s j
  unfolding release_job is_held
  release_job_unheld h = ground arith

module _ {E : Type 0} (hooks : Hooks E) (q : IsQuiet hooks) (now : ℕ) (w : now < two64) where
  restore_job-Restoring :
      (v : View) (s : Sched E) (j : ℕ) (rest : List ℕ)
      → sched_time hooks s ≡ now
      → held v j ≡ false
      → Restoring now v (j ∷ rest) (view s)
      → Returns
          (restore_job hooks s j)
          (λ t. Restoring now v rest (view t) × (sched_time hooks t ≡ now))
  unfolding restore_job sched_time job_scheduled
  restore_job-Restoring v s j rest e h r =
      let (m, n, o, b) = Restoring-here now v (view s) j rest r in
      let f : IsFree (s.jobs j) = All_of_mem _ s.pending_jobs j r.linked.free_pending m in
      let st = start_from_now hooks s (s.jobs j).start in
      let d = start_from_now_due (sched_time hooks s) now (s.jobs j).start e w r.away.0 in
      let s' : Sched E = record s {
        pending_jobs = remove j s.pending_jobs;
        jobs = update_job s.jobs j (record (s.jobs j) { start = st });
      } in
      rw (del_job_scheduled s j m n) (
        Returns-mono (add_job hooks s' j) _ _
          (add_job-IsLinked hooks q now s' j w (rw (==_refl j) d.1) (λ _. rw (==_refl j) f.1)
            (freed-IsLinked now v (view s) j st rest r)
            (record {
              future = rw (==_refl j) d.0;
              unscheduled = rw (n, mem-remove_self j s.pending_jobs r.linked.distinct_pending);
              small_group = rw (==_refl j) f.2;
            }))
          (λ t k. (Restoring-add now v (view s) (view t) j st rest h r k.0 k.1, k.2 ∙ e)))

  pub release_job-Restoring :
      (v : View) (s : Sched E) (j : ℕ) (rest : List ℕ)
      → sched_time hooks s ≡ now
      → Restoring now v (j ∷ rest) (view s)
      → Returns
          (release_job hooks s j)
          (λ t. Restoring now v rest (view t) × (sched_time hooks t ≡ now))
  unfolding release_job
  release_job-Restoring v s j rest e r = elim (Bool-cases (held v j)) [
    | inl k ↦
        let o = (Restoring-held now v (view s) (j ∷ rest) r j) ∙ k in
        rw (release_job-held hooks s j o) (Restoring-keep now v (view s) j rest k r, e)
    | inr k ↦
        let o = (Restoring-held now v (view s) (j ∷ rest) r j) ∙ k in
        rw (release_job_unheld hooks s j o) (restore_job-Restoring v s j rest e k r)
  ]
