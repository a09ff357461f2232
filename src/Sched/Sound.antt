-- ===== src/Sched/Sound.antt =====
-- The well-formedness of a scheduler's job lists, and what the operations on single jobs do to it.
use usfstl.Base.{
  ℕ, ◌<◌, ◌≡◌, inl, inr, Bool, true, false, Option, List, [], ◌∷◌, arith, ◌==◌, Bool-cases, mem,
  remove, All, All-remove, Distinct,
}
use usfstl.Sched.{Job, Sched, update_job, is_held}
use usfstl.Sched.Order.{Ahead, IsOrdered, IsNear}

-- What a scheduler knows of its jobs.
pub record View : Type 0 where
  pub joblist : List ℕ
  pub pending_jobs : List ℕ
  pub allowed_job : Option ℕ
  pub blocked_groups : ℕ
  pub jobs : ℕ → Job

abbrev pub view : {E : Type 0} → Sched E → View
view s = record {
  joblist = s.joblist;
  pending_jobs = s.pending_jobs;
  allowed_job = s.allowed_job;
  blocked_groups = s.blocked_groups;
  jobs = s.jobs;
}

-- A job on either list is not blocked itself and waits for nothing.
abbrev pub IsFree : Job → Type 0
IsFree j = (j.blocked ≡ false) × (j.pending ≡ false) × (j.group < 32)

-- No job is linked twice, the job list is ordered as seen from `lo`, and linked jobs are free.
pub record IsLinked (lo : ℕ) (v : View) : Type 0 where
  pub distinct : Distinct v.joblist
  pub distinct_pending : Distinct v.pending_jobs
  pub apart : All (λ j. mem j v.joblist ≡ false) v.pending_jobs
  pub near : IsNear lo v.jobs v.joblist
  pub ordered : IsOrdered lo v.jobs v.joblist
  pub free : All (λ j. IsFree (v.jobs j)) v.joblist
  pub free_pending : All (λ j. IsFree (v.jobs j)) v.pending_jobs

-- The group blocks hold this job back.
abbrev pub held : View → ℕ → Bool
held v = is_held v.blocked_groups v.allowed_job v.jobs

-- Moreover no job on the job list is held back.
pub record IsSound (lo : ℕ) (v : View) : Type 0 where
  pub linked : IsLinked lo v
  pub unheld : (i : ℕ) → mem i v.joblist ≡ true → held v i ≡ false

-- A write to a job that is on no list is not seen by the others.
pub All-update_job {ℓ} :
    (P : ℕ → Job → Type ℓ) (js : ℕ → Job) (j : ℕ) (v : Job) (xs : List ℕ)
    → mem j xs ≡ false
    → All (λ x. P x (js x)) xs
    → All (λ x. P x (update_job js j v x)) xs
All-update_job P js j v [] h a = tt
All-update_job P js j v (x ∷ xs) h a =
    let e : (j == x) ≡ false = ground arith in
    (rw e a.0, All-update_job P js j v xs (ground arith) a.1)

pub IsOrdered-update_job :
    (lo : ℕ) (js : ℕ → Job) (j : ℕ) (v : Job) (xs : List ℕ)
    → mem j xs ≡ false
    → IsOrdered lo js xs
    → IsOrdered lo (update_job js j v) xs
IsOrdered-update_job lo js j v [] h a = tt
IsOrdered-update_job lo js j v (x ∷ xs) h a =
    let e : (j == x) ≡ false = ground arith in
    (
      rw e (All-update_job (λ _ b. Ahead lo (js x) b) js j v xs (ground arith) a.0),
      IsOrdered-update_job lo js j v xs (ground arith) a.1,
    )

pub IsOrdered-remove :
    (lo : ℕ) (js : ℕ → Job) (j : ℕ) (xs : List ℕ)
    → IsOrdered lo js xs
    → IsOrdered lo js (remove j xs)
IsOrdered-remove lo js j [] a = tt
IsOrdered-remove lo js j (x ∷ xs) a = elim (Bool-cases (x == j)) [
  | inl e ↦ rw e a.1
  | inr e ↦ rw e (All-remove _ xs j a.0, IsOrdered-remove lo js j xs a.1)
]
