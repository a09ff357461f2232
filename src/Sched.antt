-- ===== src/Sched.antt =====
-- src/sched.c and include/usfstl/sched.h: the job scheduler, its state, its job list and the
-- requests to an external scheduler. The children hold the clock and main loop (Advance), the
-- blocking of groups and jobs (Groups), and the proofs.
pub mod Advance
pub mod Groups
pub mod Link
pub mod Order
pub mod Sound
pub mod Quiet
pub mod Jobs
pub mod Add
mod Tests
use Prim.Native.Nat.{bit_and}
use usfstl.Base.{
  ℕ, ◌+◌, ◌^◌, Bool, true, false, ◌&&◌, ◌||◌, not, Option, none, some, List, [], ◌∷◌, ◌++◌, ltb,
  ◌==◌, if◌then◌else◌, mem, remove, head?, next_after, Result, ok, abort, assert, ◌>>=◌, ◌>>◌,
}
use usfstl.Time.{time_lt, time_gt, time_ge}

-- struct usfstl_job. The link `entry` is the membership in one of the scheduler's two lists.
pub record Job : Type 0 where
  pub start : ℕ  -- uint64_t
  pub priority : ℕ  -- uint32_t
  pub group : ℕ  -- uint8_t
  pub blocked : Bool
  pub pending : Bool

-- enum usfstl_sched_req_status
pub data ReqStatus : Type 0 where
  can_run wait : ReqStatus

-- struct usfstl_scheduler. A job is known by a number, and `jobs` holds the structs; `env` is what
-- the callbacks keep elsewhere. A list's head is its first entry.
pub record Sched (E : Type 0) : Type 0 where
  pub current_time : ℕ
  pub prev_external_sync : ℕ
  pub next_external_sync : ℕ
  pub joblist : List ℕ
  pub pending_jobs : List ℕ
  pub allowed_job : Option ℕ
  pub blocked_groups : ℕ  -- uint32_t
  pub next_external_sync_set : Bool
  pub prev_external_sync_set : Bool
  pub waiting : Bool
  pub jobs : ℕ → Job
  pub env : E

-- The function pointers of the scheduler and of its jobs, and the command line flag
-- g_usfstl_sched_disable_skip_external_request. `none` is NULL.
pub record Hooks (E : Type 0) : Type 0 where
  pub external_request : Option (Sched E → ℕ → Result (Sched E × ReqStatus))
  pub external_wait : Option (Sched E → Result (Sched E))
  -- It reads the clock and what the callbacks keep.
  pub external_get_time : Option (E → ℕ → ℕ)
  pub external_set_time : Option (Sched E → ℕ → Result (Sched E))
  pub time_advanced : Option (Sched E → ℕ → Result (Sched E))
  pub next_time_changed : Option (Sched E → Result (Sched E))
  pub disable_skip : Bool
  pub callback : ℕ → Sched E → Result (Sched E)

-- A call through a pointer that may be NULL and is then left out.
abbrev pub call_hook {ℓ} : {S : Type ℓ} → Option (S → Result S) → S → Result S
call_hook none s = ok s
call_hook (some f) s = f s

-- job->f = …
abbrev pub update_job : (ℕ → Job) → ℕ → Job → ℕ → Job
update_job js j v i = if j == i then v else js i

abbrev pub set_job : {E : Type 0} → Sched E → ℕ → Job → Sched E
set_job s j v = record s { jobs = update_job s.jobs j v }

-- The break of the loop in usfstl_sched_add_job: `tmp` stays behind the new job.
unfoldable pub goes_before : Job → Job → Bool
goes_before tmp job =
    time_gt tmp.start job.start || (tmp.start == job.start && ltb tmp.priority job.priority)

unfoldable pub insert_job : (ℕ → Job) → ℕ → List ℕ → List ℕ
insert_job js j [] = j ∷ []
insert_job js j (t ∷ ts) = if goes_before (js t) (js j) then j ∷ t ∷ ts else t ∷ insert_job js j ts

-- (1 << job->group) & sched->blocked_groups
unfoldable pub group_bit : ℕ → ℕ → Bool
group_bit group groups = ltb 0 (bit_and (2 ^ group) groups)

-- job == sched->allowed_job
abbrev pub is_allowed : Option ℕ → ℕ → Bool
is_allowed allowed j = elim allowed [ none ↦ false | some a ↦ a == j ]

-- The group of `j` is blocked and `j` is not the allowed job.
unfoldable pub is_held : ℕ → Option ℕ → (ℕ → Job) → ℕ → Bool
is_held groups allowed js j = group_bit (js j).group groups && not (is_allowed allowed j)

module _ {E : Type 0} where
  unfoldable pub job_scheduled : Sched E → ℕ → Bool
  job_scheduled s j = mem j s.joblist || mem j s.pending_jobs

  unfoldable pub del_job : Sched E → ℕ → Sched E
  unfolding job_scheduled
  del_job s j =
      if not (job_scheduled s j)
      then s
      else record s { joblist = remove j s.joblist; pending_jobs = remove j s.pending_jobs }

  unfoldable pub next_pending : Sched E → Option ℕ → Option ℕ
  next_pending s none = head? s.joblist
  next_pending s (some j) = next_after s.joblist j

module _ {E : Type 0} (hooks : Hooks E) where
  unfoldable pub sched_time : Sched E → ℕ
  sched_time s = elim hooks.external_get_time [
    | none ↦ s.current_time
    | some f ↦ f s.env s.current_time
  ]

  unfoldable pub request_hook :
      (Sched E → ℕ → Result (Sched E × ReqStatus)) → Sched E → ℕ → Result (Sched E × ReqStatus)
  request_hook f s time =
      if not hooks.disable_skip
        && not s.waiting
        && s.next_external_sync_set
        && time_lt time s.next_external_sync
      then ok (s, can_run)
      else if s.waiting && s.prev_external_sync_set && time == s.prev_external_sync
      then ok (s, wait)
      else f (record s { prev_external_sync = time; prev_external_sync_set = true }) time

  unfoldable pub external_request : Sched E → ℕ → Result (Sched E × ReqStatus)
  unfolding request_hook
  external_request s time = elim hooks.external_request [
    | none ↦ ok (s, can_run)
    | some f ↦ request_hook f s time
  ]

  -- The code calls the pointer without a test.
  unfoldable pub external_wait : Sched E → Result (Sched E)
  external_wait s = elim hooks.external_wait [
    | none ↦ abort "external_wait is NULL"
    | some f ↦ do
      s' ← f (record s { prev_external_sync_set = false; waiting = true })
      ok (record s' { waiting = false })
  ]

  -- The tail of usfstl_sched_add_job, for a job that no block holds back.
  unfoldable pub enlist : Sched E → ℕ → Result (Sched E)
  enlist s j = do
    r ← external_request (record s { joblist = insert_job s.jobs j s.joblist }) (s.jobs j).start
    call_hook hooks.next_time_changed r.0

  -- usfstl_sched_add_job, behind its assertions.
  unfoldable pub place_job : Sched E → ℕ → Result (Sched E)
  place_job s j =
      let job = s.jobs j in
      if job.blocked
      then ok (set_job s j (record job { start = 0; pending = true }))
      else if is_held s.blocked_groups s.allowed_job s.jobs j
      then ok (record (set_job s j (record job { start = 0 })) {
        pending_jobs = s.pending_jobs ++ j ∷ [];
      })
      else enlist s j

  unfoldable pub add_job : Sched E → ℕ → Result (Sched E)
  add_job s j = do
    assert (time_ge (s.jobs j).start (sched_time s))
        "job->start >= usfstl_sched_current_time(sched)"
    assert (not (job_scheduled s j)) "!usfstl_job_scheduled(job)"
    assert (ltb (s.jobs j).group 32) "job->group < 32"
    place_job s j
