-- ===== src/Task/Post.antt =====
-- A post wakes the first waiter that may run, or is kept for whoever asks next.
use usfstl.Base.{
  inl, inr, Bool-cases, ℕ, ◌+◌, ◌%◌, ◌^◌, ◌<◌, ◌≡◌, refl, arith, true, false, Option, none, some,
  List, [], ◌∷◌, ==_refl, if◌then◌else◌, remove, Returns, ltb,
}
use usfstl.Time.{two64}
use usfstl.Sched.{Sched, Hooks, sched_time, add_job}
use usfstl.Sched.Sound.{view, IsSound}
use usfstl.Sched.Quiet.{IsQuiet, Returns-bind, Returns-mono}
use usfstl.Sched.Add.{IsTidy, Added}
use usfstl.Sched.Link.Request.{asked, asked-Added, del_job_time}
use usfstl.Sched.Link.Wait.{time_ge_refl}
use usfstl.Task.{
  Tasks, set_task, restart_job, wake_task, wake_first, process_sem_wakeup, sem_post, sem_trywait,
}

-- The post woke the task `t`: its job is scheduled for now, and it waits no longer.
pub record Woken {E : Type 0} (hooks : Hooks E) (s : Tasks E) (m t : ℕ) (u : Tasks E) : Type 0 where
  pub waiters : (u.sems m).waiters ≡ remove t (s.sems m).waiters
  pub ctr : (u.sems m).ctr ≡ (s.sems m).ctr
  pub woken : (u.tasks t).woken_by_sem_post ≡ true
  pub sound : IsSound (sched_time hooks s.sched) (view u.sched)
  pub added : Added (view (asked s.sched t (sched_time hooks s.sched))) t (view u.sched)

module _ {E : Type 0} (hooks : Hooks E) where
  restart_job-Added :
      IsQuiet hooks
      → (s : Sched E) (t : ℕ) → sched_time hooks s < two64
      → IsSound (sched_time hooks s) (view s)
      → IsTidy (view s) t
      → (s.jobs t).group < 32
      → Returns (restart_job hooks s t) (λ p.
        IsSound (sched_time hooks s) (view p)
        × Added (view (asked s t (sched_time hooks s))) t (view p))
  unfolding restart_job
  restart_job-Added q s t w h d g = rw (del_job_time s t hooks) (
      Returns-mono (add_job hooks (asked s t (sched_time hooks s)) t) _ _
        (asked-Added hooks q (sched_time hooks s) s t (sched_time hooks s) w h
          (record { near = omega arith; word = w }) (time_ge_refl (sched_time hooks s)) d g)
        (λ p r. r.0))

  -- The first waiter that is not blocked.
  abbrev pub first_runnable : Tasks E → List ℕ → Option ℕ
  first_runnable s [] = none
  first_runnable s (t ∷ ts) = if (s.sched.jobs t).blocked then first_runnable s ts else some t

  first_blocked :
      (s : Tasks E) (x : ℕ) (xs : List ℕ) (t : ℕ)
      → (s.sched.jobs x).blocked ≡ false
      → first_runnable s (x ∷ xs) ≡ some t
      → x ≡ t
  first_blocked s x xs t e h = ground (arith, e, h)

  pub wake_task-Woken :
      IsQuiet hooks
      → (s : Tasks E) (m t : ℕ) → sched_time hooks s.sched < two64
      → IsSound (sched_time hooks s.sched) (view s.sched)
      → IsTidy (view s.sched) t
      → (s.sched.jobs t).group < 32
      → Returns (wake_task hooks s m t) (Woken hooks s m t)
  unfolding wake_task
  wake_task-Woken q s m t w h d g =
      Returns-bind (restart_job hooks s.sched t) _ _ _ (restart_job-Added q s.sched t w h d g)
        (λ p r. record {
          waiters = rw (==_refl m) refl;
          ctr = rw (==_refl m) refl;
          woken = rw (==_refl t) refl;
          sound = r.0;
          added = r.1;
        })

  pub wake_first-Woken :
      IsQuiet hooks
      → (s : Tasks E) (m t : ℕ) (xs : List ℕ) → sched_time hooks s.sched < two64
      → IsSound (sched_time hooks s.sched) (view s.sched)
      → IsTidy (view s.sched) t
      → (s.sched.jobs t).group < 32
      → first_runnable s xs ≡ some t
      → Returns (wake_first hooks s m xs) (λ r. Woken hooks s m t r.0 × (r.1 ≡ true))
  unfolding wake_first
  wake_first-Woken q s m t [] w h d g e = let no : ⊥ = cc in absurd no
  wake_first-Woken q s m t (x ∷ xs) w h d g e = elim (Bool-cases (s.sched.jobs x).blocked) [
    | inl b ↦
        let s' = set_task s x (record (s.tasks x) { check_sem = some m }) in
        rw b (
          Returns-mono (wake_first hooks s' m xs) _ _
            (wake_first-Woken q s' m t xs w h d g (ground (arith, b, e)))
            (λ r k. (
              record {
                waiters = k.0.waiters;
                ctr = k.0.ctr;
                woken = k.0.woken;
                sound = k.0.sound;
                added = k.0.added;
              },
              k.1,
            )))
    | inr b ↦
        rw (b, first_blocked s x xs t b e)
          (Returns-bind (wake_task hooks s m t) _ _ _ (wake_task-Woken q s m t w h d g)
            (λ u k. (k, refl)))
  ]

  -- A post to a semaphore with a waiter that is not blocked returns. The first such waiter is woken:
  -- its job is added for now and it is no waiter any more; the counter has not changed, and the
  -- scheduler is sound.
  pub sem_post-Woken :
      IsQuiet hooks
      → (s : Tasks E) (m t : ℕ) → sched_time hooks s.sched < two64
      → IsSound (sched_time hooks s.sched) (view s.sched)
      → IsTidy (view s.sched) t
      → (s.sched.jobs t).group < 32
      → first_runnable s (s.sems m).waiters ≡ some t
      → Returns (sem_post hooks s m) (Woken hooks s m t)
  unfolding sem_post process_sem_wakeup
  sem_post-Woken q s m t w h d g e =
      Returns-bind (wake_first hooks s m (s.sems m).waiters) _ _ _
        (wake_first-Woken q s m t (s.sems m).waiters w h d g e) (λ r k. rw k.1 k.0)

  wake_first-none :
      (s : Tasks E) (m : ℕ) (xs : List ℕ)
      → first_runnable s xs ≡ none
      → Returns
          (wake_first hooks s m xs)
          (λ r. (r.1 ≡ false) × (r.0.sems ≡ s.sems) × (r.0.sched ≡ s.sched))
  unfolding wake_first
  wake_first-none s m [] e = (refl, refl, refl)
  wake_first-none s m (x ∷ xs) e = elim (Bool-cases (s.sched.jobs x).blocked) [
    | inl b ↦ rw b (
        wake_first-none (set_task s x (record (s.tasks x) { check_sem = some m })) m xs
          (ground (arith, b, e)))
    | inr b ↦ let no : ⊥ = ground (arith, b, e) in absurd no
  ]

  -- A post to a semaphore all of whose waiters are blocked, and whose counter has room, returns, and
  -- is kept: a trywait after it succeeds, and the counter, the waiters and the scheduler are as they
  -- were.
  pub sem_trywait-sem_post :
      (s : Tasks E) (m : ℕ)
      → first_runnable s (s.sems m).waiters ≡ none
      → (s.sems m).ctr + 1 < 2 ^ 32
      → Returns (sem_post hooks s m) (λ u.
        ((sem_trywait u m).1 ≡ true)
        × (((sem_trywait u m).0.sems m).ctr ≡ (s.sems m).ctr)
        × (((sem_trywait u m).0.sems m).waiters ≡ (s.sems m).waiters)
        × ((sem_trywait u m).0.sched ≡ s.sched))
  unfolding sem_post process_sem_wakeup sem_trywait
  sem_trywait-sem_post s m e b =
      Returns-bind (wake_first hooks s m (s.sems m).waiters) _ _ _
        (wake_first-none s m (s.sems m).waiters e)
        (λ r k.
          let room : ltb 0 (((s.sems m).ctr + 1) % 2 ^ 32) ≡ true = ground arith in
          rw (k.0, k.1, ==_refl m, room)
            (refl, ground (arith, ==_refl m), rw (==_refl m) refl, k.2))
