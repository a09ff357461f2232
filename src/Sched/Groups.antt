-- ===== src/Sched/Groups.antt =====
-- src/sched.c: blocking groups of jobs, and single jobs.
pub mod Walk
pub mod Remove
pub mod Restore
pub mod Settled
pub mod Section
pub mod Single
use Prim.Native.Nat.{bit_or}
use usfstl.Base.{
  ℕ, ◌+◌, Bool, true, false, ◌&&◌, ◌||◌, not, Option, none, some, List, [], ◌∷◌, ◌++◌, zero, suc,
  length, head?, next_after, if◌then◌else◌, Result, ok, abort, assert, ◌>>=◌, ◌>>◌,
}
use usfstl.Time.{time_lt}
use usfstl.Sched.{
  Sched, Hooks, Job, sched_time, job_scheduled, del_job, add_job, group_bit, is_allowed, is_held,
  set_job,
}

-- usfstl_for_each_list_item_continue_safe of include/usfstl/list.h: the successor is read from the
-- list before the body runs. A walk visits at most `fuel` entries.
unfoldable pub walk {ℓ} :
    {S : Type ℓ} → ℕ → (S → List ℕ) → (S → ℕ → Result S) → Option ℕ → S → Result S
walk fuel entries body none s = ok s
walk zero entries body (some j) s = abort "the walk goes on"
walk (suc fuel) entries body (some j) s =
    let next = next_after (entries s) j in
    elim (body s j) [ ok s' ↦ walk fuel entries body next s' | abort e ↦ abort e ]

-- struct usfstl_sched_block_data
pub record BlockData : Type 0 where
  pub groups : ℕ
  pub job : Option ℕ

module _ {E : Type 0} where
  unfoldable pub block_job_in_group : Sched E → ℕ → Sched E
  block_job_in_group s j =
      let s' = del_job s j in record s' { pending_jobs = s'.pending_jobs ++ j ∷ [] }

  -- The body of the loop in usfstl_sched_remove_blocked_jobs.
  unfoldable pub hold_job : Sched E → ℕ → Result (Sched E)
  hold_job s j =
      if is_allowed s.allowed_job j
      then ok s
      else if group_bit (s.jobs j).group s.blocked_groups
      then ok (block_job_in_group s j)
      else ok s

  unfoldable pub remove_blocked_jobs : Sched E → Result (Sched E)
  remove_blocked_jobs s =
      walk (suc (length s.joblist)) (λ t. t.joblist) hold_job (head? s.joblist) s

  abbrev pub may_allow : Sched E → ℕ → Option ℕ → Bool
  may_allow s groups job = elim job [
    | none ↦ true
    | some j ↦ group_bit (s.jobs j).group (bit_or groups s.blocked_groups)
  ]

  abbrev pub is_unblocked : Sched E → Option ℕ → Bool
  is_unblocked s job = elim job [ none ↦ true | some j ↦ not (s.jobs j).blocked ]

  unfoldable pub block_groups : Sched E → ℕ → Option ℕ → Result (Sched E × BlockData)
  block_groups s groups job = do
    let save : BlockData = record { groups = s.blocked_groups; job = s.allowed_job }
    assert (may_allow s groups job) "!job || (1 << job->group) & (groups | save->groups)"
    assert (is_unblocked s job) "!job || !job->blocked"
    s' ←
        remove_blocked_jobs
          (record s { blocked_groups = bit_or s.blocked_groups groups; allowed_job = job })
    ok (s', save)

  unfoldable pub block_job : Sched E → ℕ → Result (Sched E)
  block_job s j = do
    assert (not (s.jobs j).blocked) "!job->blocked"
    assert (not (s.jobs j).pending) "!job->pending"
    if job_scheduled s j
        then ok (del_job (set_job s j (record (s.jobs j) { blocked = true; pending = true })) j)
        else ok (set_job s j (record (s.jobs j) { blocked = true }))

module _ {E : Type 0} (hooks : Hooks E) where
  -- The start of a restored job: now, if its own lies in the past.
  abbrev pub start_from_now : Sched E → ℕ → ℕ
  start_from_now s start = if time_lt start (sched_time hooks s) then sched_time hooks s else start

  unfoldable pub restore_job : Sched E → ℕ → Result (Sched E)
  restore_job s j =
      let s' = del_job s j in
      add_job hooks
        (set_job s' j (record (s'.jobs j) { start = start_from_now s' (s'.jobs j).start })) j

  -- The body of the loop in usfstl_sched_restore_blocked_jobs.
  unfoldable pub release_job : Sched E → ℕ → Result (Sched E)
  release_job s j =
      if is_allowed s.allowed_job j || not (group_bit (s.jobs j).group s.blocked_groups)
      then restore_job s j
      else ok s

  unfoldable pub restore_blocked_jobs : Sched E → Result (Sched E)
  restore_blocked_jobs s =
      walk (suc (length s.pending_jobs)) (λ t. t.pending_jobs) release_job (head? s.pending_jobs) s

  unfoldable pub restore_groups : Sched E → BlockData → Result (Sched E)
  restore_groups s restore = do
    s' ←
        restore_blocked_jobs
          (record s { blocked_groups = restore.groups; allowed_job = restore.job })
    remove_blocked_jobs s'

  unfoldable pub unblock_job : Sched E → ℕ → Result (Sched E)
  unblock_job s j = do
    assert (s.jobs j).blocked "job->blocked"
    if (s.jobs j).pending
        then restore_job (set_job s j (record (s.jobs j) { blocked = false; pending = false })) j
        else ok (set_job s j (record (s.jobs j) { blocked = false }))
