-- ===== src/Sched/Jobs.antt =====
-- Adding and deleting jobs keeps a scheduler sound.
use usfstl.Base.{
  ℕ, ◌<◌, ◌≡◌, false, ◌||◌, List, [], ◌∷◌, ◌++◌, arith, ◌==◌, mem, remove, All, All-map, All-append,
  All-remove, Distinct-remove, Distinct-snoc, mem-remove_le,
}
use usfstl.Time.{two64}
use usfstl.Time.Window.{IsWithin}
use usfstl.Sched.{Job, update_job, insert_job}
use usfstl.Sched.Order.{insert_job-IsOrdered, All-insert_job, mem-insert_job, Distinct-insert_job}
use usfstl.Sched.Sound.{
  View, IsFree, IsLinked, All-update_job, IsOrdered-update_job, IsOrdered-remove,
}

-- Unlinking keeps the lists sound.
pub remove-IsLinked :
    (lo j : ℕ) (v : View)
    → IsLinked lo v
    → IsLinked lo
        (record v { joblist = remove j v.joblist; pending_jobs = remove j v.pending_jobs })
remove-IsLinked lo j v h = record {
  distinct = Distinct-remove j v.joblist h.distinct;
  distinct_pending = Distinct-remove j v.pending_jobs h.distinct_pending;
  apart =
      All-remove _ v.pending_jobs j
        (All-map _ _ v.pending_jobs (λ x. mem-remove_le x j v.joblist) h.apart);
  near = All-remove _ v.joblist j h.near;
  ordered = IsOrdered-remove lo v.jobs j v.joblist h.ordered;
  free = All-remove _ v.joblist j h.free;
  free_pending = All-remove _ v.pending_jobs j h.free_pending;
}

-- So does a write to a job that is not linked.
pub update_job-IsLinked :
    (lo j : ℕ) (w : Job) (v : View)
    → mem j v.joblist ≡ false
    → mem j v.pending_jobs ≡ false
    → IsLinked lo v
    → IsLinked lo (record v { jobs = update_job v.jobs j w })
update_job-IsLinked lo j w v a b h = record {
  distinct = h.distinct;
  distinct_pending = h.distinct_pending;
  apart = h.apart;
  near = All-update_job (λ _ x. IsWithin lo x.start) v.jobs j w v.joblist a h.near;
  ordered = IsOrdered-update_job lo v.jobs j w v.joblist a h.ordered;
  free = All-update_job (λ _ x. IsFree x) v.jobs j w v.joblist a h.free;
  free_pending = All-update_job (λ _ x. IsFree x) v.jobs j w v.pending_jobs b h.free_pending;
}

pub append-IsLinked :
    (lo j : ℕ) (v : View)
    → mem j v.joblist ≡ false
    → mem j v.pending_jobs ≡ false
    → IsFree (v.jobs j)
    → IsLinked lo v
    → IsLinked lo (record v { pending_jobs = v.pending_jobs ++ j ∷ [] })
append-IsLinked lo j v a b f h = record {
  distinct = h.distinct;
  distinct_pending = Distinct-snoc j v.pending_jobs b h.distinct_pending;
  apart = All-append _ v.pending_jobs (j ∷ []) h.apart (a, tt);
  near = h.near;
  ordered = h.ordered;
  free = h.free;
  free_pending = All-append _ v.pending_jobs (j ∷ []) h.free_pending (f, tt);
}

All-absent :
    (j : ℕ) (xs ys : List ℕ)
    → mem j ys ≡ false
    → All (λ x. mem x xs ≡ false) ys
    → All (λ x. (j == x || mem x xs) ≡ false) ys
All-absent j xs [] h a = tt
All-absent j xs (y ∷ ys) h a = (ground arith, All-absent j xs ys (ground arith) a.1)

pub insert-IsLinked :
    (lo j : ℕ) (v : View)
    → lo < two64
    → IsWithin lo (v.jobs j).start
    → mem j v.joblist ≡ false
    → mem j v.pending_jobs ≡ false
    → IsFree (v.jobs j)
    → IsLinked lo v
    → IsLinked lo (record v { joblist = insert_job v.jobs j v.joblist })
insert-IsLinked lo j v w n a b f h = record {
  distinct = Distinct-insert_job v.jobs j v.joblist a h.distinct;
  distinct_pending = h.distinct_pending;
  apart =
      All-map _ _ v.pending_jobs (λ x e. rw (mem-insert_job v.jobs x j v.joblist) e)
        (All-absent j v.joblist v.pending_jobs b h.apart);
  near = All-insert_job _ v.jobs j v.joblist n h.near;
  ordered = insert_job-IsOrdered lo v.jobs j w n v.joblist h.near h.ordered;
  free = All-insert_job _ v.jobs j v.joblist f h.free;
  free_pending = h.free_pending;
}
