-- ===== src/Sched/Link.antt =====
-- src/sched.c: a scheduler linked to a parent scheduler, whose ticks are smaller. The parent's state
-- is part of what the linked scheduler's callbacks keep; its link job's callback ends the wait.
pub mod Ticks
pub mod Unlink
pub mod Request
pub mod Wait
mod Tests
use usfstl.Base.{
  ℕ, zero, suc, ◌+◌, ◌-◌, ◌/◌, Bool, true, false, not, Option, none, some, ltb, ◌==◌, if◌then◌else◌,
  Result, ok, abort, assert, ◌>>=◌, ◌>>◌,
}
use usfstl.Time.{two64, add64, sub64, mul64}
use usfstl.Sched.{
  Job, Sched, Hooks, ReqStatus, wait, set_job, sched_time, external_request, next_pending, del_job,
  add_job,
}
use usfstl.Sched.Advance.{Turn, again, ran, sched_next, set_time}

-- DIV_ROUND_UP on uint64_t.
abbrev pub div_round_up : ℕ → ℕ → ℕ
div_round_up a b = sub64 (add64 a b) 1 / b

-- The struct `link` of a linked scheduler, its parent in place of the pointer to it. The parent's
-- callbacks keep `link.waiting`.
pub record Link : Type 0 where
  pub parent : Sched Bool
  pub offset : ℕ  -- int64_t, by its bits
  pub tick_ratio : ℕ  -- uint32_t
  pub job : ℕ

-- `none`: link.parent is NULL.
abbrev pub Linked : Type 0
Linked = Sched (Option Link)

abbrev pub to_parent : Link → ℕ → ℕ
to_parent l time = add64 (mul64 l.tick_ratio time) l.offset

abbrev pub set_parent : Linked → Link → Sched Bool → Linked
set_parent s l p = record s { env = some (record l { parent = p }) }

unfoldable pub link_job_callback : Sched Bool → Result (Sched Bool)
link_job_callback p = ok (record p { env = false })

-- The parent's hooks, with the callback of the link job.
abbrev pub with_link_job : Hooks Bool → ℕ → Hooks Bool
with_link_job hooks job = record hooks {
  callback = λ j p. if j == job then link_job_callback p else hooks.callback j p;
}

-- while (link.waiting) usfstl_sched_next(parent), for `fuel` rounds of both loops.
unfoldable pub run_parent : Hooks Bool → ℕ → Sched Bool → Result (Sched Bool)
run_parent hooks zero p = if not p.env then ok p else abort "out of fuel"
run_parent hooks (suc fuel) p =
    if not p.env
    then ok p
    else (sched_next hooks (suc fuel) p
        >>= elim [ again p' ↦ abort "out of fuel" | ran p' j ↦ run_parent hooks fuel p' ])

module _ (parent_hooks : Hooks Bool) where
  unfoldable pub link_get_time : Option Link → ℕ → ℕ
  link_get_time none current = current
  link_get_time (some l) current =
      div_round_up (sub64 (sched_time parent_hooks l.parent) l.offset) l.tick_ratio

  unfoldable pub link_set_time : Linked → ℕ → Result Linked
  link_set_time s time = elim s.env [
    | none ↦ abort "link.parent is NULL"
    | some l ↦ do p ← set_time parent_hooks l.parent (to_parent l time); ok (set_parent s l p)
  ]

  unfoldable pub link_request : Linked → ℕ → Result (Linked × ReqStatus)
  link_request s time = elim s.env [
    | none ↦ abort "link.parent is NULL"
    | some l ↦
        let p = del_job l.parent l.job in
        let job = record (p.jobs l.job) { start = to_parent l time } in
        do p' ← add_job parent_hooks (set_job p l.job job) l.job; ok (set_parent s l p', wait)
  ]

  -- The pointers that usfstl_sched_link sets, before the one to the wait.
  abbrev pub clock_hooks : Hooks (Option Link) → Hooks (Option Link)
  clock_hooks own = record own {
    external_request = some link_request;
    external_get_time = some link_get_time;
    external_set_time = some link_set_time;
  }

  unfoldable pub link_wait : Hooks (Option Link) → ℕ → Linked → Result Linked
  link_wait own fuel s = elim s.env [
    | none ↦ abort "link.parent is NULL"
    | some l ↦ do
      p ← run_parent (with_link_job parent_hooks l.job) fuel (record l.parent { env = true })
      let s' : Linked = set_parent s l p in
          set_time (clock_hooks own) s' (sched_time (clock_hooks own) s')
  ]

  abbrev pub link_hooks : Hooks (Option Link) → ℕ → Hooks (Option Link)
  link_hooks own fuel = record (clock_hooks own) { external_wait = some (link_wait own fuel) }

  abbrev pub is_none {ℓ} : {A : Type ℓ} → Option A → Bool
  is_none none = true
  is_none (some a) = false

  -- The result is to be used with the hooks `link_hooks own fuel`.
  unfoldable pub link : Hooks (Option Link) → ℕ → Linked → Sched Bool → ℕ → ℕ → Result Linked
  link own fuel s parent job tick_ratio = do
    assert (ltb 0 tick_ratio) "a ratio must be set"
    assert (is_none s.env) "must not be linked"
    assert (is_none own.external_request) "external_request"
    assert (is_none own.external_wait) "external_wait"
    assert (is_none own.external_get_time) "external_get_time"
    assert (is_none own.external_set_time) "external_set_time"
    let l : Link = record {
      parent = parent;
      offset = sub64 (sched_time parent_hooks parent) (mul64 s.current_time tick_ratio);
      tick_ratio = tick_ratio;
      job = job;
    } in
        let s' : Linked = record s { env = some l } in
        elim (next_pending s' none) [
          | none ↦ ok s'
          | some j ↦ do r ← external_request (link_hooks own fuel) s' (s'.jobs j).start; ok r.0
        ]

  -- The result is to be used with the pointers NULL again. The second component is the parent.
  unfoldable pub unlink : Hooks (Option Link) → ℕ → Linked → Result (Linked × Sched Bool)
  unlink own fuel s = elim s.env [
    | none ↦ abort "must be linked"
    | some l ↦ ok (
      record s { current_time = sched_time (link_hooks own fuel) s; env = none },
      del_job l.parent l.job,
    )
  ]
