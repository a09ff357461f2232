-- ===== src/Sched/Groups/Single.antt =====
-- usfstl_sched_block_job and usfstl_sched_unblock_job: a job that is blocked and unblocked again.
use usfstl.Base.{
  ℕ, ◌<◌, ◌≡◌, refl, sym, ap, ◌∙◌, subst, inl, inr, true, false, ◌&&◌, ◌||◌, not, arith, ◌==◌,
  ==→eq, ==_refl, Bool-cases, mem, remove, All_of_mem, mem-remove, mem-remove_self, ok, Returns,
  ◌>>=◌,
}
use usfstl.Time.{two64, time_ge}
use usfstl.Time.Window.{IsWithin}
use usfstl.Sched.{
  Job, Sched, Hooks, update_job, set_job, is_held, del_job, job_scheduled, sched_time, add_job,
  group_bit, is_allowed,
}
use usfstl.Sched.Sound.{View, view, IsLinked, held, IsFree}
use usfstl.Sched.Jobs.{remove-IsLinked, update_job-IsLinked}
use usfstl.Sched.Quiet.{IsQuiet, Returns-mono}
use usfstl.Sched.Add.{is_runnable, add_job-IsLinked}
use usfstl.Sched.Groups.{restore_job, block_job, unblock_job, start_from_now}
use usfstl.Sched.Groups.Restore.{IsAway, start_from_now_due}
use usfstl.Sched.Groups.Settled.{IsSettled}

-- The scheduler with the job unlinked, and blocked.
abbrev pub job_blocked : {E : Type 0} → Sched E → ℕ → Sched E
job_blocked s j = record s {
  joblist = remove j s.joblist;
  pending_jobs = remove j s.pending_jobs;
  jobs = update_job s.jobs j (record (s.jobs j) { blocked = true; pending = true });
}

block_job_linked :
    {E : Type 0} (s : Sched E) (j : ℕ)
    → job_scheduled s j ≡ true
    → IsFree (s.jobs j)
    → block_job s j ≡ ok (job_blocked s j)
unfolding block_job del_job job_scheduled
block_job_linked s j h f = rw (f.0, f.1, h)

job_blocked-IsLinked :
    {E : Type 0} (now : ℕ) (s : Sched E) (j : ℕ) (w : Job)
    → IsLinked now (view s)
    → IsLinked now (record (view (job_blocked s j)) { jobs = update_job s.jobs j w })
job_blocked-IsLinked now s j w h =
    update_job-IsLinked now j w
      (record (view s) { joblist = remove j s.joblist; pending_jobs = remove j s.pending_jobs })
      (mem-remove_self j s.joblist h.distinct) (mem-remove_self j s.pending_jobs h.distinct_pending)
      (remove-IsLinked now j (view s) h)

-- A linked job is free, on whichever list it stands.
linked_IsFree :
    (now : ℕ) (v : View) (j : ℕ)
    → IsLinked now v
    → (mem j v.joblist || mem j v.pending_jobs) ≡ true
    → IsFree (v.jobs j)
linked_IsFree now v j h m = elim (Bool-cases (mem j v.joblist)) [
  | inl e ↦ All_of_mem _ v.joblist j h.free e
  | inr e ↦ All_of_mem _ v.pending_jobs j h.free_pending (ground arith)
]

module _ {E : Type 0} (hooks : Hooks E) (t : Sched E) (j : ℕ) where
  unblock_job_pending :
      (t.jobs j).blocked ≡ true
      → (t.jobs j).pending ≡ true
      → unblock_job hooks t j
        ≡ restore_job hooks (set_job t j (record (t.jobs j) { blocked = false; pending = false })) j
  unfolding unblock_job
  unblock_job_pending b p = rw (b, p) refl

  restore_job_unlinked :
      job_scheduled t j ≡ false
      → restore_job hooks t j
        ≡ add_job hooks
            (set_job t j (record (t.jobs j) { start = start_from_now hooks t (t.jobs j).start }))
            j
  unfolding restore_job del_job
  restore_job_unlinked h = rw h refl

-- A job that leaves its list and is put where the blocks want it is back in a settled scheduler.
lists_back :
    (now : ℕ) (v w : View) (j i : ℕ)
    → IsSettled now v
    → (mem j v.joblist || mem j v.pending_jobs) ≡ true
    → mem i w.joblist ≡ ((j == i && not (held v j)) || mem i (remove j v.joblist))
    → mem i w.pending_jobs ≡ ((j == i && held v j) || mem i (remove j v.pending_jobs))
    → (mem i w.joblist ≡ mem i v.joblist) × (mem i w.pending_jobs ≡ mem i v.pending_jobs)
lists_back now v w j i h m a b = ground (
  arith,
  ==→eq j i,
  mem-remove i j v.joblist h.sound.linked.distinct,
  mem-remove i j v.pending_jobs h.sound.linked.distinct_pending,
  h.sound.unheld j,
  h.settled j,
)

module _ {E : Type 0} (hooks : Hooks E) (q : IsQuiet hooks) (now : ℕ) (w : now < two64) where
  -- A blocked job that something scheduled meanwhile is put back where the group blocks want it.
  pub unblock_job-Added :
      (t : Sched E) (j : ℕ)
      → sched_time hooks t ≡ now
      → IsLinked now (view t)
      → (mem j t.joblist ≡ false) × (mem j t.pending_jobs ≡ false)
      → ((t.jobs j).blocked ≡ true) × ((t.jobs j).pending ≡ true) × ((t.jobs j).group < 32)
      → IsAway now (t.jobs j).start
      → Returns (unblock_job hooks t j) (λ u.
        IsLinked now (view u)
        × ((i : ℕ) → mem i u.joblist ≡ ((j == i && not (held (view t) j)) || mem i t.joblist))
        × ((i : ℕ) → mem i u.pending_jobs ≡ ((j == i && held (view t) j) || mem i t.pending_jobs)))
  unfolding job_scheduled sched_time is_held
  unblock_job-Added t j e h m b a =
      let t1 : Sched E = set_job t j (record (t.jobs j) { blocked = false; pending = false }) in
      let st = start_from_now hooks t1 (t1.jobs j).start in
      let t2 : Sched E = set_job t1 j (record (t1.jobs j) { start = st }) in
      let c : (t1.jobs j).start ≡ (t.jobs j).start = rw (==_refl j) refl in
      let d = start_from_now_due (sched_time hooks t1) now (t1.jobs j).start e w (rw c a) in
      let l =
        update_job-IsLinked now j (record (t1.jobs j) { start = st }) (view t1) m.0 m.1
          (update_job-IsLinked now j (record (t.jobs j) { blocked = false; pending = false })
            (view t) m.0 m.1 h) in
      let k : t2.jobs j ≡ record (t.jobs j) { start = st; blocked = false; pending = false } =
        rw (==_refl j) refl in
      let run : is_runnable (view t2) j ≡ not (held (view t) j) =
        ap
          (λ (x : Job).
            not x.blocked
            && not (group_bit x.group t.blocked_groups && not (is_allowed t.allowed_job j)))
          k in
      rw
        (
          unblock_job_pending hooks t j b.0 b.1,
          restore_job_unlinked hooks t1 j (rw (m.0, m.1) refl),
        )
        (Returns-mono (add_job hooks t2 j) _ _
          (add_job-IsLinked hooks q now t2 j w
            (subst (λ (x : Job). IsWithin now x.start) (sym k) d.1)
            (λ _. ap (λ (x : Job). x.pending) k) l
            (record {
              future =
                  subst (λ (x : Job). time_ge x.start (sched_time hooks t1) ≡ true) (sym k) d.0;
              unscheduled = rw (m.0, m.1) refl;
              small_group = subst (λ (x : Job). x.group < 32) (sym k) b.2;
            }))
          (λ u r. (
            r.0,
            (λ i. ground (arith, r.1.joblist i, run)),
            (λ i. ground (arith, r.1.pending_jobs i, run, ap (λ (x : Job). x.blocked) k)),
          )))

  -- A linked job of a settled scheduler that is blocked and then unblocked is back on its list, and
  -- no other job has moved.
  pub unblock_job-block_job :
      (s : Sched E) (j : ℕ)
      → sched_time hooks s ≡ now
      → IsSettled now (view s)
      → job_scheduled s j ≡ true
      → IsAway now (s.jobs j).start
      → Returns (block_job s j >>= λ t. unblock_job hooks t j) (λ u.
        IsLinked now (view u)
        × ((i : ℕ)
            → (mem i u.joblist ≡ mem i s.joblist) × (mem i u.pending_jobs ≡ mem i s.pending_jobs)))
  unfolding job_scheduled sched_time is_held
  unblock_job-block_job s j e h m a =
      let f = linked_IsFree now (view s) j h.sound.linked m in
      let t = job_blocked s j in
      let l =
        job_blocked-IsLinked now s j (record (s.jobs j) { blocked = true; pending = true })
          h.sound.linked in
      let k : t.jobs j ≡ record (s.jobs j) { blocked = true; pending = true } =
        rw (==_refl j) refl in
      let g : held (view t) j ≡ held (view s) j =
        ap (λ (x : Job). group_bit x.group s.blocked_groups && not (is_allowed s.allowed_job j))
          k in
      rw (block_job_linked s j m f) (
        Returns-mono (unblock_job hooks t j) _ _
          (unblock_job-Added t j e l
            (
              mem-remove_self j s.joblist h.sound.linked.distinct,
              mem-remove_self j s.pending_jobs h.sound.linked.distinct_pending,
            )
            (
              ap (λ (x : Job). x.blocked) k,
              ap (λ (x : Job). x.pending) k,
              subst (λ (x : Job). x.group < 32) (sym k) f.2,
            )
            (subst (λ (x : Job). IsAway now x.start) (sym k) a))
          (λ u r. (
            r.0,
            λ i.
                lists_back now (view s) (view u) j i h m
                  (r.1 i ∙ ap (λ b. (j == i && not b) || mem i t.joblist) g)
                  (r.2 i ∙ ap (λ b. (j == i && b) || mem i t.pending_jobs) g),
          )))
