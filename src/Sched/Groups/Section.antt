-- ===== src/Sched/Groups/Section.antt =====
-- A critical section: usfstl_sched_block_groups, then usfstl_sched_restore_groups of what it saved.
use usfstl.Base.{
  ℕ, ◌<◌, ◌≡◌, refl, ap, ◌∙◌, inl, inr, true, List, [], ◌∷◌, arith, Bool-cases, ==_refl, ◌>>=◌,
  All_of_mem, mem, All, Option, none, some, Returns,
}
use usfstl.Time.{two64}
use usfstl.Sched.{Sched, Hooks, is_held, sched_time}
use usfstl.Sched.Sound.{View, view, IsLinked, held}
use usfstl.Sched.Quiet.{IsQuiet, Returns-mono, Returns-bind}
use usfstl.Sched.Groups.{BlockData, restore_groups, block_groups, may_allow, is_unblocked}
use usfstl.Sched.Groups.Remove.{SameClock, not_pending}
use usfstl.Sched.Groups.Restore.{IsAway}
use usfstl.Sched.Groups.Settled.{
  IsSettled, Regrouped, Blocked, block_groups-Blocked, restore_groups-IsSettled,
}

All-of_All {ℓ} : (P : ℕ → Type ℓ) (xs : List ℕ) → ((i : ℕ) → mem i xs ≡ true → P i) → All P xs
All-of_All P [] f = tt
All-of_All P (x ∷ xs) f =
    (f x (ground (arith, ==_refl x)), All-of_All P xs (λ i h. f i (ground (arith, h))))

-- Jobs of the job list lie near, so those that a block moves to the pending jobs do too.
Blocked-IsAway :
    (now : ℕ) (v w : View) (groups : ℕ) (job : Option ℕ) (save : BlockData)
    → IsLinked now v
    → All (λ i. IsAway now (v.jobs i).start) v.pending_jobs
    → Blocked now v groups job w save
    → All (λ i. IsAway now (w.jobs i).start) w.pending_jobs
Blocked-IsAway now v w groups job save h a b = rw b.jobs (
    All-of_All _ w.pending_jobs λ i m. elim (Bool-cases (mem i v.pending_jobs)) [
      | inl e ↦ All_of_mem _ v.pending_jobs i a e
      | inr e ↦
          let n : mem i v.joblist ≡ true = ground (arith, b.regrouped.linked_jobs i) in
          let k = All_of_mem _ v.joblist i h.near n in omega (arith, k)
    ])

-- The lists of a settled scheduler are given by its linked jobs and its blocks.
settled_lists :
    (now : ℕ) (v w : View)
    → IsSettled now v
    → IsSettled now w
    → Regrouped v w v.blocked_groups v.allowed_job
    → (i : ℕ) → (mem i w.joblist ≡ mem i v.joblist) × (mem i w.pending_jobs ≡ mem i v.pending_jobs)
unfolding is_held
settled_lists now v w a b g i =
    let h : held w i ≡ held v i = rw (g.groups_kept i, g.blocked_groups, g.allowed_job) refl in
    ground (
      arith,
      h,
      a.settled i,
      b.settled i,
      a.sound.unheld i,
      b.sound.unheld i,
      g.linked_jobs i,
      not_pending now v i a.sound.linked,
      not_pending now w i b.sound.linked,
    )

sched_time-SameClock :
    {E : Type 0} (hooks : Hooks E) (s t : Sched E)
    → SameClock s t
    → sched_time hooks t ≡ sched_time hooks s
unfolding sched_time
sched_time-SameClock hooks s t c =
    λ i. elim hooks.external_get_time [ none ↦ c.0 i | some f ↦ f (c.1 i) (c.0 i) ]

module _ {E : Type 0} (hooks : Hooks E) (q : IsQuiet hooks) (now : ℕ) (w : now < two64) where
  -- A critical section: blocking groups and then restoring what was saved returns, and each job is
  -- on the same list as before.
  pub restore_groups-block_groups :
      (s : Sched E) (groups : ℕ) (job : Option ℕ)
      → sched_time hooks s ≡ now
      → IsSettled now (view s)
      → All (λ i. IsAway now (s.jobs i).start) s.pending_jobs
      → may_allow s groups job ≡ true
      → is_unblocked s job ≡ true
      → Returns (block_groups s groups job >>= λ r. restore_groups hooks r.0 r.1) (λ t.
        IsSettled now (view t)
        × (t.blocked_groups ≡ s.blocked_groups)
        × (t.allowed_job ≡ s.allowed_job)
        × ((i : ℕ)
            → (mem i t.joblist ≡ mem i s.joblist) × (mem i t.pending_jobs ≡ mem i s.pending_jobs)))
  restore_groups-block_groups s groups job e h a m u =
      Returns-bind (block_groups s groups job) _ _ _
        (block_groups-Blocked now s groups job h.sound.linked m u)
        (λ r b.
          Returns-mono (restore_groups hooks r.0 r.1) _ _
            (restore_groups-IsSettled hooks q now w r.0 r.1
              (sched_time-SameClock hooks s r.0 b.1 ∙ e) b.0.sound.linked
              (Blocked-IsAway now (view s) (view r.0) groups job r.1 h.sound.linked a b.0))
            (λ t p.
              let g : Regrouped (view s) (view t) s.blocked_groups s.allowed_job = record {
                blocked_groups = p.1.blocked_groups ∙ ap (λ (d : BlockData). d.groups) b.0.saved;
                allowed_job = p.1.allowed_job ∙ ap (λ (d : BlockData). d.job) b.0.saved;
                groups_kept = λ i. p.1.groups_kept i ∙ b.0.regrouped.groups_kept i;
                linked_jobs = λ i. p.1.linked_jobs i ∙ b.0.regrouped.linked_jobs i;
              } in
              (p.0, g.blocked_groups, g.allowed_job, settled_lists now (view s) (view t) h p.0 g)))
