-- ===== src/Sched/Groups/Settled.antt =====
-- usfstl_sched_block_groups and usfstl_sched_restore_groups from end to end.
use Prim.Native.Nat.{bit_or}
use mathlib.Core.List.{append-nil}
use usfstl.Base.{
  ℕ, suc, ◌<◌, ◌≡◌, refl, sym, ap, ◌∙◌, true, false, ◌&&◌, ◌||◌, [], arith, length, next_after,
  next_after_middle, mem, All, Bool, not, subst, Option, Returns, Aborts,
}
use usfstl.Time.{two64}
use usfstl.Sched.{Sched, Hooks, sched_time}
use usfstl.Sched.Sound.{View, view, IsLinked, IsSound, held}
use usfstl.Sched.Quiet.{IsQuiet, Returns-mono, Returns-bind}
use usfstl.Sched.Groups.{
  BlockData, release_job, restore_blocked_jobs, restore_groups, remove_blocked_jobs, block_groups,
  may_allow, is_unblocked,
}
use usfstl.Sched.Groups.Walk.{walk_inv}
use usfstl.Sched.Groups.Remove.{SameClock, Separated, remove_blocked_jobs-Separated}
use usfstl.Sched.Groups.Restore.{
  IsAway, Restoring, Restoring-here, Restoring-held, release_job-Restoring,
}

-- Every linked job is on the list where the group blocks want it.
pub record IsSettled (now : ℕ) (v : View) : Type 0 where
  pub sound : IsSound now v
  pub settled : (i : ℕ) → mem i v.pending_jobs ≡ true → held v i ≡ true

-- `w` has the linked jobs of `v`, under the given group blocks.
pub record Regrouped (v w : View) (groups : ℕ) (job : Option ℕ) : Type 0 where
  pub blocked_groups : w.blocked_groups ≡ groups
  pub allowed_job : w.allowed_job ≡ job
  pub groups_kept : (i : ℕ) → (w.jobs i).group ≡ (v.jobs i).group
  pub linked_jobs :
      (i : ℕ)
      → (mem i w.joblist || mem i w.pending_jobs) ≡ (mem i v.joblist || mem i v.pending_jobs)

abbrev with_blocks : View → ℕ → Option ℕ → View
with_blocks v groups job = record v { blocked_groups = groups; allowed_job = job }

Regrouped-blocks :
    (v w : View) (groups : ℕ) (job : Option ℕ)
    → Regrouped (with_blocks v groups job) w groups job
    → Regrouped v w groups job
Regrouped-blocks v w groups job g = record {
  blocked_groups = g.blocked_groups;
  allowed_job = g.allowed_job;
  groups_kept = g.groups_kept;
  linked_jobs = g.linked_jobs;
}

-- The links do not depend on the blocks.
with_blocks-IsLinked :
    (now : ℕ) (v : View) (groups : ℕ) (job : Option ℕ)
    → IsLinked now v
    → IsLinked now (with_blocks v groups job)
with_blocks-IsLinked now v groups job h = record {
  distinct = h.distinct;
  distinct_pending = h.distinct_pending;
  apart = h.apart;
  near = h.near;
  ordered = h.ordered;
  free = h.free;
  free_pending = h.free_pending;
}

Restoring-start :
    (now : ℕ) (v : View)
    → IsLinked now v
    → All (λ i. IsAway now (v.jobs i).start) v.pending_jobs
    → Restoring now v v.pending_jobs v
Restoring-start now v h a = record {
  before = [];
  at = refl;
  linked = h;
  blocked_groups = refl;
  allowed_job = refl;
  groups = λ i. refl;
  away = a;
  kept = λ i m. cc;
  linked_jobs = λ i. refl;
}

Restoring-kept :
    (now : ℕ) (v w : View)
    → (r : Restoring now v [] w) → (i : ℕ) → mem i w.pending_jobs ≡ true
    → held v i ≡ true
Restoring-kept now v w r i m =
    r.kept i (ap (mem i) (sym (append-nil r.before)) ∙ (ap (mem i) (sym r.at) ∙ m))

-- The two passes of usfstl_sched_restore_groups together.
restored :
    (now : ℕ) (v t u : View)
    → Restoring now v [] t
    → Separated now t u
    → IsSettled now u × Regrouped v u v.blocked_groups v.allowed_job
restored now v t u r p =
    let ht = Restoring-held now v t [] r in
    let hu : (i : ℕ) → held u i ≡ held v i = λ i. ap (λ (x : View). held x i) p.same ∙ ht i in
    (
      record {
        sound = p.sound;
        settled = λ i m. ground (arith, p.pending_jobs i, hu i, ht i, Restoring-kept now v t r i);
      },
      record {
        blocked_groups = ap (λ (x : View). x.blocked_groups) p.same ∙ r.blocked_groups;
        allowed_job = ap (λ (x : View). x.allowed_job) p.same ∙ r.allowed_job;
        groups_kept = λ i. ap (λ (x : View). (x.jobs i).group) p.same ∙ r.groups i;
        linked_jobs = λ i. ground (arith, p.joblist i, p.pending_jobs i, r.linked_jobs i);
      },
    )

module _ {E : Type 0} (hooks : Hooks E) (q : IsQuiet hooks) (now : ℕ) (w : now < two64) where
  restore_blocked_jobs-Restoring :
      (s : Sched E)
      → sched_time hooks s ≡ now
      → IsLinked now (view s)
      → All (λ i. IsAway now (s.jobs i).start) s.pending_jobs
      → Returns (restore_blocked_jobs hooks s) (λ t. Restoring now (view s) [] (view t))
  unfolding restore_blocked_jobs
  restore_blocked_jobs-Restoring s e h a =
      Returns-mono (restore_blocked_jobs hooks s) _ _
        (walk_inv (λ t. t.pending_jobs) (release_job hooks)
          (λ rest t. Restoring now (view s) rest (view t) × (sched_time hooks t ≡ now))
          (λ t j rest r. (
            let (m, n, o, b) = Restoring-here now (view s) (view t) j rest r.0 in
                ap (λ xs. next_after xs j) r.0.at ∙ next_after_middle r.0.before j rest b,
            release_job-Restoring hooks q now w (view s) t j rest r.1 r.0,
          ))
          s.pending_jobs (suc (length s.pending_jobs)) s (omega arith)
          (Restoring-start now (view s) h a, e))
        (λ t r. r.0)

  -- With callbacks that leave the jobs and the time alone, restoring the group blocks returns: each linked job is
  -- then on the list where the restored blocks want it, and none has been lost.
  pub restore_groups-IsSettled :
      (s : Sched E) (save : BlockData)
      → sched_time hooks s ≡ now
      → IsLinked now (view s)
      → All (λ i. IsAway now (s.jobs i).start) s.pending_jobs
      → Returns
          (restore_groups hooks s save)
          (λ t. IsSettled now (view t) × Regrouped (view s) (view t) save.groups save.job)
  unfolding restore_groups sched_time
  restore_groups-IsSettled s save e h a =
      let s' : Sched E = record s { blocked_groups = save.groups; allowed_job = save.job } in
      Returns-bind (restore_blocked_jobs hooks s') remove_blocked_jobs _
        (λ t. IsSettled now (view t) × Regrouped (view s) (view t) save.groups save.job)
        (restore_blocked_jobs-Restoring s' e (with_blocks-IsLinked now (view s) _ _ h) a)
        (λ t r.
          Returns-mono (remove_blocked_jobs t) _ _ (remove_blocked_jobs-Separated now t r.linked)
            (λ u p.
              let (a', g) = restored now (view s') (view t) (view u) r p.0 in
              (a', Regrouped-blocks (view s) (view u) _ _ g)))

-- What a call of usfstl_sched_block_groups leaves behind, and what it saves.
pub record Blocked (now : ℕ) (v : View) (groups : ℕ) (job : Option ℕ) (w : View) (save : BlockData)
    : Type 0 where
  pub sound : IsSound now w
  pub regrouped : Regrouped v w (bit_or v.blocked_groups groups) job
  pub kept : (i : ℕ) → mem i w.joblist ≡ (mem i v.joblist && not (held w i))
  pub moved :
      (i : ℕ) → mem i w.pending_jobs ≡ (mem i v.pending_jobs || (mem i v.joblist && held w i))
  pub saved : save ≡ record { groups = v.blocked_groups; job = v.allowed_job }
  pub jobs : w.jobs ≡ v.jobs

Separated-Regrouped :
    (now : ℕ) (v w : View) → Separated now v w → Regrouped v w v.blocked_groups v.allowed_job
Separated-Regrouped now v w p = record {
  blocked_groups = ap (λ (x : View). x.blocked_groups) p.same;
  allowed_job = ap (λ (x : View). x.allowed_job) p.same;
  groups_kept = λ i. ap (λ (x : View). (x.jobs i).group) p.same;
  linked_jobs = λ i. ground (arith, p.joblist i, p.pending_jobs i);
}

-- What is said of `held` before the lists change holds after it.
held_cong :
    (v w : View)
    → w ≡ record v { joblist = w.joblist; pending_jobs = w.pending_jobs }
    → (i : ℕ) (P : Bool → Type 0) → P (held v i)
    → P (held w i)
held_cong v w e i P = subst P (sym (ap (λ (x : View). held x i) e))

module _ {E : Type 0} (now : ℕ) (s : Sched E) (groups : ℕ) (job : Option ℕ) where
  -- Blocking groups returns. A job of the job list stays there if the new blocks do not hold it back,
  -- and is among the pending jobs if they do, exactly; the jobs that were pending stay so, the jobs
  -- themselves, the clock and the soundness of the lists are kept, the given groups are blocked
  -- besides the former ones, and what is saved is the former blocks. The lists are well linked
  -- before, and the assertions on the allowed job hold.
  pub block_groups-Blocked :
      IsLinked now (view s)
      → may_allow s groups job ≡ true
      → is_unblocked s job ≡ true
      → Returns
          (block_groups s groups job)
          (λ r. Blocked now (view s) groups job (view r.0) r.1 × SameClock s r.0)
  unfolding block_groups
  block_groups-Blocked h m u =
      let s' : Sched E = record s {
        blocked_groups = bit_or s.blocked_groups groups;
        allowed_job = job;
      } in
      rw (m, u)
        (Returns-bind (remove_blocked_jobs s') _ _ _
          (remove_blocked_jobs-Separated now s' (with_blocks-IsLinked now (view s) _ _ h))
          (λ t p. (
            record {
              sound = p.0.sound;
              regrouped =
                  Regrouped-blocks (view s) (view t) _ _
                    (Separated-Regrouped now (view s') (view t) p.0);
              kept = λ i.
                  held_cong (view s') (view t) p.0.same i
                    (λ b. mem i (view t).joblist ≡ (mem i s.joblist && not b)) (p.0.joblist i);
              moved = λ i.
                  held_cong (view s') (view t) p.0.same i
                    (λ b.
                      mem i (view t).pending_jobs
                      ≡ (mem i s.pending_jobs || (mem i s.joblist && b)))
                    (p.0.pending_jobs i);
              saved = refl;
              jobs = ap (λ (x : View). x.jobs) p.0.same;
            },
            p.1,
          )))

  -- An allowed job outside the blocked groups, or one that is blocked itself, is refused.
  pub block_groups-Aborts :
      (may_allow s groups job && is_unblocked s job) ≡ false → Aborts (block_groups s groups job)
  unfolding block_groups
  block_groups-Aborts h = ground arith
