-- ===== src/Sched/Quiet.antt =====
-- Callbacks that return and leave the scheduler's jobs and its time alone.
use usfstl.Base.{
  ℕ, ◌≡◌, refl, inl, inr, true, ◌&&◌, not, some, ◌==◌, Bool-cases, Option-cases, Result, ok, abort,
  Returns, ◌>>=◌, ◌∙◌,
}
use usfstl.Time.{time_lt}
use usfstl.Sched.{
  Sched, Hooks, ReqStatus, sched_time, external_request, call_hook, request_hook, enlist,
  insert_job,
}
use usfstl.Sched.Sound.{view}

module _ {E : Type 0} (hooks : Hooks E) where
  -- `t` has the jobs and the time of `s`.
  abbrev pub Same : Sched E → Sched E → Type 0
  Same s t = (view t ≡ view s) × (sched_time hooks t ≡ sched_time hooks s)

  abbrev pub RequestKeeps : (Sched E → ℕ → Result (Sched E × ReqStatus)) → Type 0
  RequestKeeps f = (s : Sched E) (time : ℕ) → Returns (f s time) (λ r. Same s r.0)

  pub record IsQuiet : Type 0 where
    pub request :
        (f : Sched E → ℕ → Result (Sched E × ReqStatus))
        → hooks.external_request ≡ some f
        → RequestKeeps f
    pub changed :
        (f : Sched E → Result (Sched E))
        → hooks.next_time_changed ≡ some f
        → (s : Sched E) → Returns (f s) (λ t. Same s t)

  request_hook-Same :
      (f : Sched E → ℕ → Result (Sched E × ReqStatus)) (s : Sched E) (time : ℕ)
      → RequestKeeps f
      → Returns (request_hook hooks f s time) (λ r. Same s r.0)
  unfolding request_hook sched_time
  request_hook-Same f s time q =
      elim (Bool-cases (
        not hooks.disable_skip
        && not s.waiting
        && s.next_external_sync_set
        && time_lt time s.next_external_sync)) [
          | inl e ↦ rw e (refl, refl)
          | inr e ↦
              rw e
                (elim (Bool-cases
                  (s.waiting && s.prev_external_sync_set && time == s.prev_external_sync)) [
                    | inl e' ↦ rw e' (refl, refl)
                    | inr e' ↦ rw e' (
                        q (record s { prev_external_sync = time; prev_external_sync_set = true })
                          time)
                  ])
        ]

  pub external_request-Same :
      IsQuiet → (s : Sched E) (time : ℕ) → Returns (external_request hooks s time) (λ r. Same s r.0)
  unfolding external_request sched_time
  external_request-Same q s time = elim (Option-cases hooks.external_request) [
    | inl e ↦ rw e (refl, refl)
    | inr (f, e) ↦ rw e (request_hook-Same f s time (q.request f e))
  ]

  pub next_time_changed-Same :
      IsQuiet → (s : Sched E) → Returns (call_hook hooks.next_time_changed s) (λ t. Same s t)
  unfolding sched_time
  next_time_changed-Same q s = elim (Option-cases hooks.next_time_changed) [
    | inl e ↦ rw e (refl, refl)
    | inr (f, e) ↦ rw e (q.changed f e s)
  ]

-- The consequence of one result, then of a second run.
pub Returns-bind {ℓ κ} :
    {A : Type ℓ} {B : Type κ} (m : Result A) (k : A → Result B) (P : A → Type 0) (Q : B → Type 0)
    → Returns m P
    → ((a : A) → P a → Returns (k a) Q)
    → Returns (m >>= k) Q
Returns-bind (ok a) k P Q h f = f a h
Returns-bind (abort e) k P Q h f = elim h [ ]

pub Returns-mono {ℓ} :
    {A : Type ℓ} (m : Result A) (P Q : A → Type 0)
    → Returns m P
    → ((a : A) → P a → Q a)
    → Returns m Q
Returns-mono (ok a) P Q h f = f a h
Returns-mono (abort e) P Q h f = elim h [ ]

pub Returns-both {ℓ} :
    {A : Type ℓ} (m : Result A) (P Q : A → Type 0)
    → Returns m P
    → Returns m Q
    → Returns m (λ a. P a × Q a)
Returns-both (ok a) P Q h k = (h, k)
Returns-both (abort e) P Q h k = elim h [ ]

module _ {E : Type 0} (hooks : Hooks E) (q : IsQuiet hooks) where
  -- A job that nothing holds back goes to its place in the job list, and nothing else changes.
  pub enlist_lem :
      (s : Sched E) (j : ℕ)
      → Returns
          (enlist hooks s j)
          (λ t. Same hooks (record s { joblist = insert_job s.jobs j s.joblist }) t)
  unfolding enlist
  enlist_lem s j =
      Returns-bind (external_request hooks s' (s.jobs j).start) _ _ _
        (external_request-Same hooks q s' (s.jobs j).start)
        (λ r h.
          Returns-mono (call_hook hooks.next_time_changed r.0) _ _
            (next_time_changed-Same hooks q r.0) (λ t k. (k.0 ∙ h.0, k.1 ∙ h.1)))
    where
      s' : Sched E
      s' = record s { joblist = insert_job s.jobs j s.joblist }
