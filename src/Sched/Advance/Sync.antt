-- ===== src/Sched/Advance/Sync.antt =====
-- usfstl_sched_get_sync_time: the earliest of the times at which the scheduler has to synchronise.
use native.Mathlib.Nat.{le_refl}
use usfstl.Base.{
  ℕ, ◌^◌, ◌≤◌, ◌<◌, ◌≡◌, refl, sym, ap, ◌∙◌, inl, inr, Bool, true, false, ◌&&◌, Bool-cases, none,
  some, List, [], ◌∷◌, arith, All, All-map, All_of_mem, mem, subst, ==_refl, if◌then◌else◌, head?,
}
use usfstl.Time.{two64, add64, sub64, time_lt, time_gt, time_ge}
use usfstl.Time.Window.{IsWithin}
use usfstl.Sched.{Sched, Hooks, sched_time, next_pending}
use usfstl.Sched.Order.{IsOrdered, IsNear}
use usfstl.Sched.Advance.{sync_point, get_sync_time}
use usfstl.Sched.Advance.Clock.{All-later}

-- The earlier of a job's start and of a point that lies at most 2 ^ 62 ticks away.
first_or_point :
    (lo start p : ℕ)
    → lo < two64
    → IsWithin lo start
    → p < two64
    → sub64 p lo ≤ 2 ^ 62
    → let r = if time_lt start p then start else p in
      (sub64 r lo ≤ sub64 p lo) × (sub64 r lo ≤ sub64 start lo)
unfolding time_lt
first_or_point lo start p w k a b = ground arith

-- A time at which the scheduler has to synchronise: 2 ^ 62 ticks from now, the synchronisation point
-- that was set from outside and is not past, or the start of a job of the job list.
pub data IsDue {E : Type 0} (s : Sched E) (now : ℕ) : ℕ → Type 0 where
  horizon : IsDue s now (add64 now (2 ^ 62))
  external_due :
      s.next_external_sync_set ≡ true
      → sub64 s.next_external_sync now < 2 ^ 63
      → IsDue s now s.next_external_sync
  job_due : (j : ℕ) → mem j s.joblist ≡ true → IsDue s now (s.jobs j).start

-- The first of them, as seen from now.
pub record IsEarliest {E : Type 0} (s : Sched E) (now r : ℕ) : Type 0 where
  pub due : IsDue s now r
  pub first : (t : ℕ) → IsDue s now t → sub64 r now ≤ sub64 t now

module _ {E : Type 0} (s : Sched E) (now : ℕ) (w : now < two64)
    (x : s.next_external_sync < two64) where
  horizon_away : sub64 (add64 now (2 ^ 62)) now ≡ 2 ^ 62
  horizon_away = ground arith

  -- The synchronisation point is due, and the first of those that are not the start of a job.
  record IsPoint (p : ℕ) : Type 0 where
    pub word : p < two64
    pub due : IsDue s now p
    pub near : sub64 p now ≤ 2 ^ 62
    pub first :
        s.next_external_sync_set ≡ true
        → sub64 s.next_external_sync now < 2 ^ 63
        → sub64 p now ≤ sub64 s.next_external_sync now

  external_taken :
      time_gt (add64 now (2 ^ 62)) s.next_external_sync ≡ true
      → time_ge s.next_external_sync now ≡ true
      → sub64 s.next_external_sync now ≤ 2 ^ 62
  unfolding time_gt time_ge
  external_taken g h = ground arith

  external_left :
      time_gt (add64 now (2 ^ 62)) s.next_external_sync ≡ false
      → sub64 s.next_external_sync now < 2 ^ 63
      → 2 ^ 62 ≤ sub64 s.next_external_sync now
  unfolding time_gt
  external_left g h = ground arith

  external_past :
      time_ge s.next_external_sync now ≡ false → sub64 s.next_external_sync now < 2 ^ 63 → ⊥
  unfolding time_ge
  external_past g h = ground arith

  horizon-IsPoint :
      (s.next_external_sync_set ≡ true
        → sub64 s.next_external_sync now < 2 ^ 63
        → 2 ^ 62 ≤ sub64 s.next_external_sync now)
      → IsPoint (add64 now (2 ^ 62))
  horizon-IsPoint f = record {
    word = omega arith;
    due = horizon;
    near = omega (arith, horizon_away);
    first = λ a b. omega (arith, horizon_away, f a b);
  }

  IsPoint-branch :
      (b : Bool)
      → (b ≡ true → IsPoint s.next_external_sync)
      → (b ≡ false → IsPoint (add64 now (2 ^ 62)))
      → IsPoint (if b then s.next_external_sync else add64 now (2 ^ 62))
  IsPoint-branch true f g = f refl
  IsPoint-branch false f g = g refl

  sync_point-IsPoint : IsPoint (sync_point s now)
  sync_point-IsPoint =
      let gt = time_gt (add64 now (2 ^ 62)) s.next_external_sync in
      let ge = time_ge s.next_external_sync now in
      IsPoint-branch (s.next_external_sync_set && gt && ge)
        (λ e.
          let k = external_taken (ground arith) (ground arith) in
          record {
            word = x;
            due = external_due (ground arith) (omega (arith, k));
            near = k;
            first = λ a b. le_refl _;
          })
        (λ e. horizon-IsPoint (λ a b. elim (Bool-cases gt) [
          | inr g ↦ external_left g b
          | inl g ↦ absurd (external_past (ground (arith, e, g, a)) b)
        ]))

  point_first :
      (r : ℕ) (p : IsPoint (sync_point s now))
      → IsDue s now r
      → sub64 r now ≤ sub64 (sync_point s now) now
      → ((j : ℕ) → mem j s.joblist ≡ true → sub64 r now ≤ sub64 (s.jobs j).start now)
      → IsEarliest s now r
  point_first r p d l f = record { due = d; first = first_lem }
    where
      first_lem : (t : ℕ) → IsDue s now t → sub64 r now ≤ sub64 t now
      first_lem _ horizon = omega (arith, l, p.near, horizon_away)
      first_lem _ (external_due a b) = omega (arith, l, p.first a b)
      first_lem _ (job_due j m) = f j m

  earlier-IsEarliest :
      (j : ℕ) (rest : List ℕ)
      → s.joblist ≡ j ∷ rest
      → IsNear now s.jobs (j ∷ rest)
      → IsOrdered now s.jobs (j ∷ rest)
      → let p = sync_point s now in
        IsEarliest s now (if time_lt (s.jobs j).start p then (s.jobs j).start else p)
  earlier-IsEarliest j rest e n o =
      let p = sync_point-IsPoint in
      let a = (s.jobs j).start in
      let c = first_or_point now a (sync_point s now) w n.0 p.word p.near in
      let later : All (λ i. sub64 a now ≤ sub64 (s.jobs i).start now) (j ∷ rest) = (
        le_refl _,
        All-map _ _ rest (λ i k. k.1) (All-later now a s.jobs (s.jobs j) rest (le_refl _) n.1 o.0),
      ) in
      let f : (i : ℕ) → mem i s.joblist ≡ true → sub64 a now ≤ sub64 (s.jobs i).start now =
        λ i m. All_of_mem _ (j ∷ rest) i later (ap (mem i) (sym e) ∙ m) in
      let here : mem j s.joblist ≡ true = rw (e, ==_refl j) refl in
      elim (Bool-cases (time_lt a (sync_point s now))) [
        | inl t ↦
            let c' : sub64 a now ≤ sub64 (sync_point s now) now =
              subst
                (λ b. sub64 (if b then a else sync_point s now) now ≤ sub64 (sync_point s now) now)
                t c.0 in
            rw t (point_first a p (job_due j here) c' f)
        | inr t ↦
            let c' : sub64 (sync_point s now) now ≤ sub64 a now =
              subst (λ b. sub64 (if b then a else sync_point s now) now ≤ sub64 a now) t c.1 in
            rw t
              (point_first (sync_point s now) p p.due (le_refl _) (λ i m. omega (arith, c', f i m)))
      ]

module _ {E : Type 0} (hooks : Hooks E) (s : Sched E) where
  get_sync_time_lem :
      (xs : List ℕ)
      → s.joblist ≡ xs
      → get_sync_time hooks s ≡ (
          let p = sync_point s (sched_time hooks s) in
          elim (head? xs) as (λ _. ℕ) [
            | none ↦ p
            | some j ↦ if time_lt (s.jobs j).start p then (s.jobs j).start else p
          ])
  unfolding get_sync_time next_pending sched_time
  get_sync_time_lem xs e =
      let p = sync_point s (sched_time hooks s) in
      ap
        (λ (l : List ℕ). elim (head? l) as (λ _. ℕ) [
          | none ↦ p
          | some j ↦ if time_lt (s.jobs j).start p then (s.jobs j).start else p
        ])
        e

  first_at :
      (xs : List ℕ)
      → s.joblist ≡ xs
      → sched_time hooks s < two64
      → s.next_external_sync < two64
      → IsNear (sched_time hooks s) s.jobs xs
      → IsOrdered (sched_time hooks s) s.jobs xs
      → IsEarliest s (sched_time hooks s) (get_sync_time hooks s)
  first_at [] e w x n o =
      let p = sync_point-IsPoint s (sched_time hooks s) w x in
      rw (get_sync_time_lem [] e) (
        point_first s (sched_time hooks s) w x _ p p.due (le_refl _)
          (λ j m. let no : mem j [] ≡ true = ap (mem j) (sym e) ∙ m in cc))
  first_at (j ∷ rest) e w x n o =
      rw (get_sync_time_lem (j ∷ rest) e)
        (earlier-IsEarliest s (sched_time hooks s) w x j rest e n o)

  -- The synchronisation time of a scheduler, with its own clock or one from outside, is the first of the
  -- times that are due as seen from the current one: 2 ^ 62 ticks ahead, the synchronisation point set
  -- from outside if it is still to come, and the starts of all jobs on the job list. The list is in
  -- order, and its jobs start less than 2 ^ 63 ticks ahead; it may be empty.
  pub get_sync_time-IsEarliest :
      sched_time hooks s < two64
      → s.next_external_sync < two64
      → IsNear (sched_time hooks s) s.jobs s.joblist
      → IsOrdered (sched_time hooks s) s.jobs s.joblist
      → IsEarliest s (sched_time hooks s) (get_sync_time hooks s)
  get_sync_time-IsEarliest w x n o = first_at s.joblist refl w x n o
