-- ===== src/Sched/Order.antt =====
-- The order of the job list: by time, then by falling priority, then first come first served.
use usfstl.Base.{
  ℕ, ◌≤◌, ◌<◌, ◌≡◌, refl, ◌⊎◌, inl, inr, true, false, ◌||◌, List, [], ◌∷◌, ◌++◌, ap, arith, ◌==◌,
  Bool-cases, mem, All, All-map, Distinct,
}
use usfstl.Time.{two64, sub64, time_gt}
use usfstl.Time.Window.{IsWithin, time_gt_within, time_gt_without}
use usfstl.Sched.{Job, goes_before, insert_job}

-- `a` may run before `b`, seen from the instant `lo`.
abbrev pub Ahead : ℕ → Job → Job → Type 0
Ahead lo a b =
    (sub64 a.start lo < sub64 b.start lo)
    ⊎ ((sub64 a.start lo ≡ sub64 b.start lo) × (b.priority ≤ a.priority))

-- `b` has to run after `a`.
abbrev pub Behind : ℕ → Job → Job → Type 0
Behind lo a b =
    (sub64 a.start lo < sub64 b.start lo)
    ⊎ ((sub64 a.start lo ≡ sub64 b.start lo) × (b.priority < a.priority))

module _ (lo : ℕ) (js : ℕ → Job) where
  abbrev pub IsOrdered : List ℕ → Type 0
  IsOrdered [] = Unit {0}
  IsOrdered (x ∷ xs) = All (λ y. Ahead lo (js x) (js y)) xs × IsOrdered xs

  abbrev pub IsNear : List ℕ → Type 0
  IsNear xs = All (λ x. IsWithin lo (js x).start) xs

goes_before-Behind :
    (lo : ℕ) (a b : Job)
    → lo < two64
    → IsWithin lo a.start
    → IsWithin lo b.start
    → goes_before a b ≡ true
    → Behind lo b a
unfolding goes_before
goes_before-Behind lo a b w ha hb h = elim (Bool-cases (time_gt a.start b.start)) [
  | inl e ↦ inl (time_gt_within lo a.start b.start w ha hb e)
  | inr e ↦ ground arith
]

goes_before-Ahead :
    (lo : ℕ) (a b : Job)
    → lo < two64
    → IsWithin lo a.start
    → IsWithin lo b.start
    → goes_before a b ≡ false
    → Ahead lo a b
unfolding goes_before
goes_before-Ahead lo a b w ha hb h = elim (Bool-cases (time_gt a.start b.start)) [
  | inl e ↦ ground arith
  | inr e ↦ ground (arith, time_gt_without lo a.start b.start w ha hb e)
]

Behind-trans : (lo : ℕ) (a b c : Job) → Behind lo a b → Ahead lo b c → Behind lo a c
Behind-trans lo a b c h k = ground arith

-- The place of a new job: `before` stays ahead of it, `after` behind it.
pub record Place (lo : ℕ) (js : ℕ → Job) (j : ℕ) (xs : List ℕ) : Type 0 where
  pub before : List ℕ
  pub after : List ℕ
  pub old : xs ≡ before ++ after
  pub new : insert_job js j xs ≡ before ++ j ∷ after
  pub ahead : All (λ x. Ahead lo (js x) (js j)) before
  pub behind : All (λ x. Behind lo (js j) (js x)) after

module _ (lo : ℕ) (js : ℕ → Job) (j : ℕ) (w : lo < two64) (hj : IsWithin lo (js j).start) where
  -- A new job goes behind all jobs that are due no later with at least its priority, and ahead of
  -- all others, in a list that is ordered.
  pub insert_job-Place : (xs : List ℕ) → IsNear lo js xs → IsOrdered lo js xs → Place lo js j xs
  unfolding insert_job
  insert_job-Place [] n o = record {
    before = [];
    after = [];
    old = refl;
    new = refl;
    ahead = tt;
    behind = tt;
  }
  insert_job-Place (x ∷ xs) n o = elim (Bool-cases (goes_before (js x) (js j))) [
    | inl e ↦
        let b = goes_before-Behind lo (js x) (js j) w n.0 hj e in
        record {
          before = [];
          after = x ∷ xs;
          old = refl;
          new = rw e;
          ahead = tt;
          behind = (b, All-map _ _ xs (λ y. Behind-trans lo (js j) (js x) (js y) b) o.0);
        }
    | inr e ↦
        let p = insert_job-Place xs n.1 o.1 in
        record {
          before = x ∷ p.before;
          after = p.after;
          old = ap (◌∷◌ x) p.old;
          new = rw (e, p.new);
          ahead = (goes_before-Ahead lo (js x) (js j) w n.0 hj e, p.ahead);
          behind = p.behind;
        }
  ]

-- A property of the new job and of the old ones holds of all.
pub All-insert_job {ℓ} :
    (P : ℕ → Type ℓ) (js : ℕ → Job) (j : ℕ) (xs : List ℕ)
    → P j
    → All P xs
    → All P (insert_job js j xs)
unfolding insert_job
All-insert_job P js j [] p a = (p, tt)
All-insert_job P js j (x ∷ xs) p a = elim (Bool-cases (goes_before (js x) (js j))) [
  | inl e ↦ rw e (p, a)
  | inr e ↦ rw e (a.0, All-insert_job P js j xs p a.1)
]

pub mem-insert_job :
    (js : ℕ → Job) (i j : ℕ) (xs : List ℕ) → mem i (insert_job js j xs) ≡ (j == i || mem i xs)
unfolding insert_job
mem-insert_job js i j [] = refl
mem-insert_job js i j (x ∷ xs) = ground (arith, mem-insert_job js i j xs)

pub Distinct-insert_job :
    (js : ℕ → Job) (j : ℕ) (xs : List ℕ)
    → mem j xs ≡ false
    → Distinct xs
    → Distinct (insert_job js j xs)
unfolding insert_job
Distinct-insert_job js j [] h d = (refl, tt)
Distinct-insert_job js j (x ∷ xs) h d =
    ground (arith, Distinct-insert_job js j xs, mem-insert_job js x j xs)

module _ (lo : ℕ) (js : ℕ → Job) (j : ℕ) (w : lo < two64) (hj : IsWithin lo (js j).start) where
  -- Insertion keeps an ordered list ordered.
  pub insert_job-IsOrdered :
      (xs : List ℕ) → IsNear lo js xs → IsOrdered lo js xs → IsOrdered lo js (insert_job js j xs)
  unfolding insert_job
  insert_job-IsOrdered [] n o = (tt, tt)
  insert_job-IsOrdered (x ∷ xs) n o = elim (Bool-cases (goes_before (js x) (js j))) [
    | inl e ↦
        let b = goes_before-Behind lo (js x) (js j) w n.0 hj e in
        rw e (
          (
            ground arith,
            All-map _ _ xs (λ y h. ground (arith, Behind-trans lo (js j) (js x) (js y) b h)) o.0,
          ),
          o,
        )
    | inr e ↦ rw e (
      All-insert_job _ js j xs (goes_before-Ahead lo (js x) (js j) w n.0 hj e) o.0,
      insert_job-IsOrdered xs n.1 o.1,
    )
  ]
