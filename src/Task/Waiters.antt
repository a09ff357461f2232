-- ===== src/Task/Waiters.antt =====
-- The order of the waiters, and posts to a semaphore whose waiter is blocked.
use usfstl.Base.{
  ℕ, suc, ◌+◌, ◌-◌, ◌%◌, ◌^◌, ◌≤◌, ◌<◌, ◌≡◌, refl, ap, ◌∙◌, inl, inr, arith, true, false,
  Bool-cases, none, some, List, [], ◌∷◌, ◌++◌, ltb, ◌==◌, ==_refl, All, All-map, ok, Returns, ◌>>=◌,
}
use usfstl.Time.{two64}
use usfstl.Sched.{Job, Sched, Hooks, set_job, sched_time}
use usfstl.Sched.Quiet.{IsQuiet, Returns-bind, Returns-mono}
use usfstl.Sched.Sound.{view, IsSound}
use usfstl.Sched.Add.{IsTidy, Added}
use usfstl.Sched.Link.Request.{asked}
use usfstl.Sched.Groups.{unblock_job}
use usfstl.Task.{Tasks, set_task, set_sem, process_sem_wakeup, wake_first, sem_post}
use usfstl.Task.Post.{wake_first-Woken}
use usfstl.Task.Wait.{insert_waiter, with_sched, task_unblock, wake_noted}

-- By falling priority.
abbrev pub IsSorted : (ℕ → Job) → List ℕ → Type 0
IsSorted jobs [] = Unit {0}
IsSorted jobs (t ∷ ts) = All (λ u. (jobs u).priority ≤ (jobs t).priority) ts × IsSorted jobs ts

module _ (jobs : ℕ → Job) (t : ℕ) where
  pub record Place (ts : List ℕ) : Type 0 where
    pub before : List ℕ
    pub after : List ℕ
    pub old : ts ≡ before ++ after
    pub new : insert_waiter jobs t ts ≡ before ++ t ∷ after
    pub not_lower : All (λ u. (jobs t).priority ≤ (jobs u).priority) before
    pub lower : All (λ u. (jobs u).priority < (jobs t).priority) after

  -- Among waiters by falling priority, a task goes behind those of at least its priority, and ahead of the
  -- others.
  pub insert_waiter-Place : (ts : List ℕ) → IsSorted jobs ts → Place ts
  unfolding insert_waiter
  insert_waiter-Place [] h = record {
    before = [];
    after = [];
    old = refl;
    new = refl;
    not_lower = tt;
    lower = tt;
  }
  insert_waiter-Place (u ∷ us) h = elim (Bool-cases (ltb (jobs u).priority (jobs t).priority)) [
    | inl e ↦ record {
      before = [];
      after = u ∷ us;
      old = refl;
      new = rw e refl;
      not_lower = tt;
      lower = (ground arith, All-map _ _ us (λ x k. ground arith) h.0);
    }
    | inr e ↦
        let p = insert_waiter-Place us h.1 in
        record {
          before = u ∷ p.before;
          after = p.after;
          old = ap (◌∷◌ u) p.old;
          new = rw (e, p.new) refl;
          not_lower = (ground arith, p.not_lower);
          lower = p.lower;
        }
  ]

-- Task `t`, unblocked.
abbrev pub unblocked : {E : Type 0} → Tasks E → ℕ → Tasks E
unblocked s t = with_sched s (set_job s.sched t (record (s.sched.jobs t) { blocked = false }))

module _ {E : Type 0} (hooks : Hooks E) where
  -- The task was woken, nobody waits, and the counter is `c`.
  abbrev Alone : Tasks E → ℕ → ℕ → Tasks E → ℕ → Type 0
  Alone s m t v c =
      ((v.sems m).waiters ≡ [])
      × ((v.sems m).ctr ≡ c)
      × ((v.tasks t).woken_by_sem_post ≡ true)
      × Added (view (asked s.sched t (sched_time hooks s.sched))) t (view v.sched)

  wake_noted_lem :
      IsQuiet hooks
      → (s : Tasks E) (m t : ℕ) → sched_time hooks s.sched < two64
      → (s.sems m).waiters ≡ t ∷ []
      → (c : ℕ) → (s.sems m).ctr ≡ suc c
      → (s.sched.jobs t).blocked ≡ false
      → IsSound (sched_time hooks s.sched) (view s.sched)
      → IsTidy (view s.sched) t
      → (s.sched.jobs t).group < 32
      → Returns (wake_noted hooks s t m) (λ v. Alone s m t v c)
  unfolding wake_noted process_sem_wakeup wake_first
  wake_noted_lem q s m t w a c k b h d g =
      let s' = set_sem s m (record (s.sems m) { ctr = (s.sems m).ctr - 1 }) in
      let e : ((s.sems m).ctr == 0) ≡ false = ground arith in
      let l : (s'.sems m).waiters ≡ t ∷ [] = rw (==_refl m) a in
      let n : (s'.sems m).ctr ≡ c = rw (==_refl m) (omega arith) in
      rw (e, l)
        (Returns-bind (wake_first hooks s' m (t ∷ [])) _ _ _
          (wake_first-Woken hooks q s' m t (t ∷ []) w h d g (rw b refl))
          (λ r x. rw x.1 (x.0.waiters ∙ rw (l, ==_refl t) refl, x.0.ctr ∙ n, x.0.woken, x.0.added)))

  unblock_job_idle :
      (s : Sched E) (t : ℕ)
      → (s.jobs t).blocked ≡ true
      → (s.jobs t).pending ≡ false
      → unblock_job hooks s t ≡ ok (set_job s t (record (s.jobs t) { blocked = false }))
  unfolding unblock_job
  unblock_job_idle s t b p = rw (b, p) refl

  unblock_lem :
      IsQuiet hooks
      → (u : Tasks E) (m t : ℕ) → sched_time hooks u.sched < two64
      → (u.sems m).waiters ≡ t ∷ []
      → (c : ℕ) → (u.sems m).ctr ≡ suc c
      → (u.tasks t).check_sem ≡ some m
      → (u.sched.jobs t).blocked ≡ true
      → (u.sched.jobs t).pending ≡ false
      → IsSound (sched_time hooks u.sched) (view (unblocked u t).sched)
      → IsTidy (view (unblocked u t).sched) t
      → (u.sched.jobs t).group < 32
      → Returns
          (task_unblock hooks u t)
          (λ v. Alone (unblocked u t) m t v c × ((v.tasks t).check_sem ≡ none))
  unfolding task_unblock sched_time
  unblock_lem q u m t w a c o n b p h d g =
      rw (unblock_job_idle u.sched t b p, n)
        (Returns-bind (wake_noted hooks (unblocked u t) t m) _ _ _
          (wake_noted_lem q (unblocked u t) m t w a c o (rw (==_refl t) refl) h d
            (rw (==_refl t) g))
          (λ v k. ((k.0, k.1, rw (==_refl t) k.2, k.3), rw (==_refl t) refl)))

  -- A post to a semaphore whose only waiter is blocked is kept for it: once the task is unblocked, it is woken
  -- as if the post came then, nobody waits, and the counter is what it was before the post. The counter has
  -- room for the post, the callbacks are quiet, the task's job is not scheduled, and the scheduler is sound
  -- with the task unblocked.
  pub task_unblock-sem_post :
      IsQuiet hooks
      → (s : Tasks E) (m t : ℕ) → sched_time hooks s.sched < two64
      → (s.sems m).waiters ≡ t ∷ []
      → (s.sems m).ctr + 1 < 2 ^ 32
      → (s.sched.jobs t).blocked ≡ true
      → (s.sched.jobs t).pending ≡ false
      → IsSound (sched_time hooks s.sched) (view (unblocked s t).sched)
      → IsTidy (view (unblocked s t).sched) t
      → (s.sched.jobs t).group < 32
      → Returns (sem_post hooks s m >>= λ u. task_unblock hooks u t) (λ v.
        ((v.sems m).waiters ≡ [])
        × ((v.sems m).ctr ≡ (s.sems m).ctr)
        × ((v.tasks t).woken_by_sem_post ≡ true)
        × ((v.tasks t).check_sem ≡ none)
        × Added (view (asked (unblocked s t).sched t (sched_time hooks s.sched))) t (view v.sched))
  unfolding sem_post process_sem_wakeup wake_first sched_time
  task_unblock-sem_post q s m t w a c b p h d g =
      let u =
        set_sem (set_task s t (record (s.tasks t) { check_sem = some m })) m
          (record (s.sems m) { ctr = ((s.sems m).ctr + 1) % 2 ^ 32 }) in
      let n : (u.sems m).ctr ≡ suc (s.sems m).ctr = rw (==_refl m) (omega arith) in
      rw (a, b)
        (Returns-mono (task_unblock hooks u t) _ _
          (unblock_lem q u m t w (rw (==_refl m) a) (s.sems m).ctr n (rw (==_refl t) refl) b p h d
            g)
          (λ v k. (k.0.0, k.0.1, k.0.2, k.1, k.0.3)))
