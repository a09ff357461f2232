-- ===== src/Sched/Groups/Remove.antt =====
-- usfstl_sched_remove_blocked_jobs leaves exactly the jobs that no group block holds back.
use mathlib.Core.List.{append_assoc}
use usfstl.Base.{
  ℕ, suc, ◌≡◌, refl, sym, ap, ◌∙◌, inl, inr, true, false, ◌&&◌, ◌||◌, not, List, [], ◌∷◌, ◌++◌,
  arith, ==→eq, Bool-cases, length, head?, next_after, mem, remove, All_of_mem, Distinct,
  Distinct-middle, next_after_middle, remove_middle, mem-append, mem-remove, mem-remove_self, subst,
  ok, Returns,
}
use usfstl.Sched.{Sched, is_held, del_job}
use usfstl.Sched.Sound.{View, view, IsLinked, IsSound, held}
use usfstl.Sched.Jobs.{remove-IsLinked, append-IsLinked}
use usfstl.Sched.Quiet.{Returns-mono, Returns-both}
use usfstl.Sched.Groups.{walk, hold_job, block_job_in_group, remove_blocked_jobs}
use usfstl.Sched.Groups.Walk.{walk_inv}

module _ {E : Type 0} where
  hold_job-held :
      (s : Sched E) (j : ℕ) → held (view s) j ≡ true → hold_job s j ≡ ok (block_job_in_group s j)
  unfolding hold_job is_held
  hold_job-held s j h = ground arith

  hold_job_unheld : (s : Sched E) (j : ℕ) → held (view s) j ≡ false → hold_job s j ≡ ok s
  unfolding hold_job is_held
  hold_job_unheld s j h = ground arith

-- A linked job is on one list only.
pub not_pending :
    (lo : ℕ) (v : View) (j : ℕ)
    → IsLinked lo v
    → mem j v.joblist ≡ true
    → mem j v.pending_jobs ≡ false
not_pending lo v j h m = elim (Bool-cases (mem j v.pending_jobs)) [
  | inl e ↦ let a = All_of_mem _ v.pending_jobs j h.apart e in cc
  | inr e ↦ e
]

-- How far the removal of held jobs has come: `rest` is still to be visited.
pub record Removing (lo : ℕ) (v : View) (rest : List ℕ) (w : View) : Type 0 where
  pub before : List ℕ
  pub at : w.joblist ≡ before ++ rest
  pub linked : IsLinked lo w
  pub same : w ≡ record v { joblist = w.joblist; pending_jobs = w.pending_jobs }
  pub joblist : (i : ℕ) → mem i w.joblist ≡ (mem i v.joblist && (not (held v i) || mem i rest))
  pub pending_jobs :
      (i : ℕ)
      → mem i w.pending_jobs
        ≡ (mem i v.pending_jobs || (mem i v.joblist && (held v i && not (mem i rest))))

Removing-start : (lo : ℕ) (v : View) → IsLinked lo v → Removing lo v v.joblist v
Removing-start lo v h = record {
  before = [];
  at = refl;
  linked = h;
  same = refl;
  joblist = λ i. ground arith;
  pending_jobs = λ i. ground arith;
}

Removing-end : (lo : ℕ) (v w : View) → Removing lo v [] w → IsSound lo w
Removing-end lo v w r = record {
  linked = r.linked;
  unheld = λ i m. rw r.same (ground (arith, r.joblist i));
}

Removing-keep :
    (lo : ℕ) (v w : View) (j : ℕ) (rest : List ℕ)
    → held v j ≡ false
    → Removing lo v (j ∷ rest) w
    → Removing lo v rest w
Removing-keep lo v w j rest e r = record {
  before = r.before ++ j ∷ [];
  at = r.at ∙ sym (append_assoc r.before (j ∷ []) rest);
  linked = r.linked;
  same = r.same;
  joblist = λ i. ground (arith, r.joblist i, ==→eq j i);
  pending_jobs = λ i. ground (arith, r.pending_jobs i, ==→eq j i);
}

-- The job that is moved, as the code does it.
abbrev moved : View → ℕ → View
moved w j = record w {
  joblist = remove j w.joblist;
  pending_jobs = remove j w.pending_jobs ++ j ∷ [];
}

block_job_in_group-moved :
    {E : Type 0} (s : Sched E) (j : ℕ)
    → mem j s.joblist ≡ true
    → view (block_job_in_group s j) ≡ moved (view s) j
unfolding block_job_in_group del_job
block_job_in_group-moved s j m = rw m refl

-- What the walk knows of the job that it visits.
Removing-here :
    (lo : ℕ) (v w : View) (j : ℕ) (rest : List ℕ) (r : Removing lo v (j ∷ rest) w)
    → (mem j w.joblist ≡ true)
      × (mem j w.pending_jobs ≡ false)
      × (mem j v.joblist ≡ true)
      × (mem j rest ≡ false)
      × (mem j r.before ≡ false)
Removing-here lo v w j rest r =
    let d = Distinct-middle r.before j rest (subst Distinct r.at r.linked.distinct) in
    let m : mem j w.joblist ≡ true =
      ap (mem j) r.at ∙ (mem-append j r.before (j ∷ rest) ∙ ground (arith, d)) in
    (m, not_pending lo w j r.linked m, ground (arith, r.joblist j), d.1, d.0)

Removing-move :
    (lo : ℕ) (v w : View) (j : ℕ) (rest : List ℕ)
    → held v j ≡ true
    → Removing lo v (j ∷ rest) w
    → Removing lo v rest (moved w j)
Removing-move lo v w j rest e r =
    let (m, n, o, p, b) = Removing-here lo v w j rest r in
    record {
      before = r.before;
      at = ap (remove j) r.at ∙ remove_middle r.before j rest b;
      linked =
          append-IsLinked lo j
            (record w { joblist = remove j w.joblist; pending_jobs = remove j w.pending_jobs })
            (mem-remove_self j w.joblist r.linked.distinct)
            (mem-remove_self j w.pending_jobs r.linked.distinct_pending)
            (All_of_mem _ w.joblist j r.linked.free m) (remove-IsLinked lo j w r.linked);
      same =
          ap
            (λ (u : View). record u {
              joblist = remove j w.joblist;
              pending_jobs = remove j w.pending_jobs ++ j ∷ [];
            })
            r.same;
      joblist = λ i.
          ground (arith, r.joblist i, ==→eq j i, mem-remove i j w.joblist r.linked.distinct, p, o);
      pending_jobs = λ i. ground (
        arith,
        r.pending_jobs i,
        r.joblist i,
        ==→eq j i,
        p,
        o,
        mem-append i (remove j w.pending_jobs) (j ∷ []),
        mem-remove i j w.pending_jobs r.linked.distinct_pending,
      );
    }

-- One step of the walk.
Removing-step :
    {E : Type 0} (lo : ℕ) (v : View) (s : Sched E) (j : ℕ) (rest : List ℕ)
    → Removing lo v (j ∷ rest) (view s)
    → (next_after s.joblist j ≡ head? rest)
      × Returns (hold_job s j) (λ t. Removing lo v rest (view t))
Removing-step lo v s j rest r =
    let (m, n, o, p, b) = Removing-here lo v (view s) j rest r in
    let h : held (view s) j ≡ held v j = ap (λ (u : View). held u j) r.same in
    (
      ap (λ xs. next_after xs j) r.at ∙ next_after_middle r.before j rest b,
      elim (Bool-cases (held v j)) [
        | inl e ↦
            rw (hold_job-held s j (h ∙ e))
              (rw (block_job_in_group-moved s j m) (Removing-move lo v (view s) j rest e r))
        | inr e ↦ rw (hold_job_unheld s j (h ∙ e)) (Removing-keep lo v (view s) j rest e r)
      ],
    )

-- The jobs that are now held back have moved to the pending jobs, in a sound scheduler, and nothing
-- else has changed.
pub record Separated (lo : ℕ) (v w : View) : Type 0 where
  pub sound : IsSound lo w
  pub same : w ≡ record v { joblist = w.joblist; pending_jobs = w.pending_jobs }
  pub joblist : (i : ℕ) → mem i w.joblist ≡ (mem i v.joblist && not (held v i))
  pub pending_jobs :
      (i : ℕ) → mem i w.pending_jobs ≡ (mem i v.pending_jobs || (mem i v.joblist && held v i))

Removing-Separated : (lo : ℕ) (v w : View) → Removing lo v [] w → Separated lo v w
Removing-Separated lo v w r = record {
  sound = Removing-end lo v w r;
  same = r.same;
  joblist = λ i. ground (arith, r.joblist i);
  pending_jobs = λ i. ground (arith, r.pending_jobs i);
}

-- The clock and what the callbacks keep are those of `s`.
abbrev pub SameClock : {E : Type 0} → Sched E → Sched E → Type 0
SameClock s t = (t.current_time ≡ s.current_time) × (t.env ≡ s.env)

hold_job-SameClock :
    {E : Type 0} (s t : Sched E) (j : ℕ)
    → SameClock s t
    → Returns (hold_job t j) (λ u. SameClock s u)
unfolding hold_job block_job_in_group del_job
hold_job-SameClock s t j h = ground arith

pub remove_blocked_jobs-Separated :
    {E : Type 0} (lo : ℕ) (s : Sched E)
    → IsLinked lo (view s)
    → Returns (remove_blocked_jobs s) (λ t. Separated lo (view s) (view t) × SameClock s t)
unfolding remove_blocked_jobs
remove_blocked_jobs-Separated lo s h =
    Returns-mono (walk (suc (length s.joblist)) (λ t. t.joblist) hold_job (head? s.joblist) s) _ _
      (walk_inv (λ t. t.joblist) hold_job
        (λ rest t. Removing lo (view s) rest (view t) × SameClock s t)
        (λ t j rest r.
          let (n, k) = Removing-step lo (view s) t j rest r.0 in
          (n, Returns-both (hold_job t j) _ _ k (hold_job-SameClock s t j r.1)))
        s.joblist (suc (length s.joblist)) s (omega arith)
        (Removing-start lo (view s) h, (refl, refl)))
      (λ t r. (Removing-Separated lo (view s) (view t) r.0, r.1))
