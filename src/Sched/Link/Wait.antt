-- ===== src/Sched/Link/Wait.antt =====
-- A linked scheduler's wait for the runtime that it has asked for.
use usfstl.Base.{
  ℕ, zero, suc, ◌+◌, ◌*◌, ◌<◌, ◌≤◌, ◌≡◌, refl, subst, arith, Bool, true, false, Option, some, List,
  [], ◌∷◌, ◌==◌, ==_refl, Result, ok, if◌then◌else◌,
}
use usfstl.Time.{two64, time_le, time_ge, time_eq}
use usfstl.Sched.{Sched, Hooks, next_pending, sched_time}
use usfstl.Sched.Order.{IsNear}
use usfstl.Sched.Sound.{view, IsSound}
use usfstl.Sched.Advance.{set_time, move_time, take_time, not_beyond}
use usfstl.Sched.Advance.Loop.{standalone, sched_next_first}
use usfstl.Sched.Link.{
  Link, Linked, to_parent, set_parent, with_link_job, link_job_callback, link_get_time,
  link_set_time, link_wait, clock_hooks, run_parent,
}
use usfstl.Sched.Link.Ticks.{ticks_of}

pub time_ge_refl : (t : ℕ) → time_ge t t ≡ true
unfolding time_ge
time_ge_refl t = ground arith

time_eq_refl : (t : ℕ) → time_eq t t ≡ true
unfolding time_eq
time_eq_refl t = ground arith

near_beyond :
    (p : Sched Bool) (t : ℕ) (xs : List ℕ)
    → IsNear t p.jobs xs
    → not_beyond (record p { joblist = xs }) t ≡ true
unfolding next_pending time_le
near_beyond p t [] n = refl
near_beyond p t (x ∷ xs) n = ground (arith, n.0.near)

run_parent_done :
    (hooks : Hooks Bool) (fuel : ℕ) (p : Sched Bool)
    → p.env ≡ false
    → run_parent hooks fuel p ≡ ok p
unfolding run_parent
run_parent_done hooks zero p e = rw e refl
run_parent_done hooks (suc fuel) p e = rw e refl

module _ (callback : ℕ → Sched Bool → Result (Sched Bool)) (p : Sched Bool) (job : ℕ)
    (rest : List ℕ) where
  -- The parent when the link job has run.
  abbrev pub arrived : Sched Bool
  arrived = record p { current_time = (p.jobs job).start; joblist = rest; env = false }

  run_parent_arrives :
      (fuel : ℕ)
      → p.current_time < two64
      → IsSound p.current_time (view p)
      → p.joblist ≡ job ∷ rest
      → run_parent (with_link_job (standalone callback) job) (suc fuel) (record p { env = true })
        ≡ ok arrived
  unfolding run_parent link_job_callback
  run_parent_arrives fuel w h e =
      let first =
        sched_next_first (λ j q. if j == job then link_job_callback q else callback j q)
          (record p { env = true }) job rest e fuel w h in
      rw (first.0, ==_refl job)
        (run_parent_done (with_link_job (standalone callback) job) fuel arrived refl)

  -- The parent's clock can be set to the time that it has.
  set_time_arrived :
      IsNear (p.jobs job).start p.jobs rest
      → set_time (standalone callback) arrived (p.jobs job).start ≡ ok arrived
  unfolding set_time move_time take_time
  set_time_arrived n =
      rw
        (
          near_beyond arrived (p.jobs job).start rest n,
          time_ge_refl (p.jobs job).start,
          ==_refl (p.jobs job).start,
        )
        refl

module _ (callback : ℕ → Sched Bool → Result (Sched Bool)) (own : Hooks (Option Link)) (s : Linked)
    (l : Link) (rest : List ℕ) where
  -- The linked scheduler when its parent has come to the link job.
  abbrev pub resumed : Linked
  resumed = set_parent s l (arrived callback l.parent l.job rest)

  resumed_time :
      (time : ℕ)
      → (l.parent.jobs l.job).start ≡ to_parent l time
      → 0 < l.tick_ratio
      → l.tick_ratio * time + l.tick_ratio ≤ two64
      → l.offset < two64
      → sched_time (clock_hooks (standalone callback) own) resumed ≡ time
  unfolding sched_time link_get_time
  resumed_time time e h k n = rw e (ticks_of l.tick_ratio time l.offset h k n)

  link_set_time-resumed :
      (time : ℕ)
      → IsNear (l.parent.jobs l.job).start l.parent.jobs rest
      → (l.parent.jobs l.job).start ≡ to_parent l time
      → link_set_time (standalone callback) resumed time ≡ ok resumed
  unfolding link_set_time
  link_set_time-resumed time n e =
      let a =
        subst
          (λ (u : ℕ).
            set_time (standalone callback) (arrived callback l.parent l.job rest) u
            ≡ ok (arrived callback l.parent l.job rest))
          e (set_time_arrived callback l.parent l.job rest n) in
      rw a refl

  set_time_resumed :
      (time : ℕ)
      → IsNear (l.parent.jobs l.job).start l.parent.jobs rest
      → (l.parent.jobs l.job).start ≡ to_parent l time
      → sched_time (clock_hooks (standalone callback) own) resumed ≡ time
      → not_beyond s time ≡ true
      → set_time (clock_hooks (standalone callback) own) resumed time ≡ ok resumed
  unfolding set_time move_time take_time next_pending
  set_time_resumed time n e t b =
      rw (b, link_set_time-resumed time n e, t, time_eq_refl time, ==_refl time) refl

  -- The parent is standalone, and the link job is the first of its sound job list, at the parent's
  -- time of a tick that no job of the linked scheduler precedes. With any fuel but none, the wait
  -- returns: the parent's clock is at the link job, which is off its list, and the linked
  -- scheduler's clock is at that tick.
  pub link_wait_arrives :
      (fuel time : ℕ)
      → s.env ≡ some l
      → l.parent.current_time < two64
      → IsSound l.parent.current_time (view l.parent)
      → l.parent.joblist ≡ l.job ∷ rest
      → (l.parent.jobs l.job).start ≡ to_parent l time
      → 0 < l.tick_ratio
      → l.tick_ratio * time + l.tick_ratio ≤ two64
      → l.offset < two64
      → not_beyond s time ≡ true
      → (link_wait (standalone callback) own (suc fuel) s ≡ ok resumed)
        × (sched_time (clock_hooks (standalone callback) own) resumed ≡ time)
  unfolding link_wait
  link_wait_arrives fuel time e w h f d r k n b =
      let t = resumed_time time d r k n in
      let m = run_parent_arrives callback l.parent l.job rest fuel w h f in
      let a : IsNear (l.parent.jobs l.job).start l.parent.jobs rest =
        (sched_next_first callback l.parent l.job rest f fuel w h).1.linked.near in
      (rw (e, m, t) (set_time_resumed time a d t b), t)
