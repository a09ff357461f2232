-- ===== src/Sched/Advance/Clock.antt =====
-- Setting the time, and the time_advanced callback.
use usfstl.Base.{
  ℕ, ◌≤◌, ◌<◌, ◌≡◌, refl, sym, ap, ◌∙◌, inl, inr, ◌⊎◌, Bool, true, false, Option, none, some, List,
  [], ◌∷◌, arith, Option-cases, ==_refl, All, Result, ok, abort, Aborts, ◌>>=◌, head?,
}
use usfstl.Time.{two64, sub64, time_ge, time_le, time_eq}
use usfstl.Time.Window.{IsWithin}
use usfstl.Sched.{Job, Sched, Hooks, sched_time, next_pending}
use usfstl.Sched.Order.{Ahead, IsOrdered, IsNear}
use usfstl.Sched.Sound.{view, IsSound}
use usfstl.Sched.Advance.{take_time, move_time, set_time, not_beyond}
use usfstl.Sched.Advance.Rebase.{rebase-IsSound}
use usfstl.Sched.Advance.Loop.{standalone}

bind_agree {ℓ κ} :
    {A : Type ℓ} {B : Type κ} (m : Result A) (k l : A → Result B)
    → ((a : A) → m ≡ ok a → k a ≡ l a)
    → (m >>= k) ≡ (m >>= l)
bind_agree (ok a) k l h = h a refl
bind_agree (abort e) k l h = refl

module _ {E : Type 0} (hooks : Hooks E) where
  -- external_get_time returns a uint64_t.
  abbrev pub GetsWords : Type 0
  GetsWords = (f : E → ℕ → ℕ) → hooks.external_get_time ≡ some f → (e : E) (c : ℕ) → f e c < two64

  -- The scheduler's idea of the time, after _usfstl_sched_set_time has taken it, is the given time.
  take_time_exact :
      GetsWords
      → (s : Sched E) (time : ℕ) → time < two64
      → (r : Sched E × ℕ) → take_time hooks s time ≡ ok r
      → r.1 ≡ time
  unfolding take_time sched_time time_eq
  take_time_exact g s time w r h = elim (Option-cases hooks.external_get_time) [
    | inl e ↦ ground arith
    | inr (f, e) ↦ let v = g f e s.env s.current_time in ground arith
  ]

  -- _usfstl_sched_set_time behaves alike for any two time_advanced callbacks: it calls neither, since
  -- it compares the new time with a copy that it has already set.
  pub move_time_silent :
      GetsWords
      → (a b : Option (Sched E → ℕ → Result (Sched E))) (s : Sched E) (time : ℕ) → time < two64
      → move_time (record hooks { time_advanced = a }) s time
        ≡ move_time (record hooks { time_advanced = b }) s time
  unfolding move_time take_time sched_time
  move_time_silent g a b s time w =
      bind_agree (elim hooks.external_set_time [ none ↦ ok s | some f ↦ f s time ]) _ _
        (λ s1 _.
          bind_agree (take_time hooks s1 time) _ _
            (λ r h. rw (take_time_exact g s1 time w r h, ==_refl time)))

-- Jobs behind one that is due no earlier than `time` are due no earlier either.
pub All-later :
    (lo time : ℕ) (js : ℕ → Job) (a : Job) (xs : List ℕ)
    → sub64 time lo ≤ sub64 a.start lo
    → IsNear lo js xs
    → All (λ x. Ahead lo a (js x)) xs
    → All (λ x. IsWithin lo (js x).start × (sub64 time lo ≤ sub64 (js x).start lo)) xs
All-later lo time js a [] h n o = tt
All-later lo time js a (x ∷ xs) h n o =
    ((n.0, ground (arith, o.0)), All-later lo time js a xs h n.1 o.1)

time_le_within :
    (lo a b : ℕ)
    → lo < two64
    → IsWithin lo a
    → IsWithin lo b
    → time_le a b ≡ true
    → sub64 a lo ≤ sub64 b lo
unfolding time_le
time_le_within lo a b w ha hb h = ground arith

module _ {E : Type 0} (callback : ℕ → Sched E → Result (Sched E)) (s : Sched E) (time : ℕ) where
  not_beyond_later :
      (xs : List ℕ)
      → s.joblist ≡ xs
      → s.current_time < two64
      → IsWithin s.current_time time
      → IsNear s.current_time s.jobs xs
      → IsOrdered s.current_time s.jobs xs
      → not_beyond s time ≡ true
      → All
          (λ x.
            IsWithin s.current_time (s.jobs x).start
            × (sub64 time s.current_time ≤ sub64 (s.jobs x).start s.current_time))
          xs
  unfolding next_pending
  not_beyond_later [] e w t n o b = tt
  not_beyond_later (x ∷ xs) e w t n o b =
      let le : time_le time (s.jobs x).start ≡ true =
        sym (
          ap
            (λ (l : List ℕ). elim (head? l) as (λ _. Bool) [
              | none ↦ true
              | some j ↦ time_le time (s.jobs j).start
            ])
            e)
        ∙ b in
      let d = time_le_within s.current_time time (s.jobs x).start w t n.0 le in
      ((n.0, d), All-later s.current_time time s.jobs (s.jobs x) xs d n.1 o.0)

  -- A scheduler of its own takes a new time that is not in the past and not beyond its first job: the
  -- clock is then there, and the scheduler is sound as seen from it.
  pub set_time-IsSound :
      s.current_time < two64
      → IsWithin s.current_time time
      → not_beyond s time ≡ true
      → IsSound s.current_time (view s)
      → (set_time (standalone callback) s time ≡ ok (record s { current_time = time }))
        × IsSound time (view (record s { current_time = time }))
  unfolding set_time move_time time_ge
  set_time-IsSound w t b h = (
    rw b (ground (arith, t)),
    rebase-IsSound s.current_time time w t (view s)
        (not_beyond_later s.joblist refl w t h.linked.near h.linked.ordered b) h,
  )

  -- It refuses any other time.
  pub set_time-Aborts :
      (not_beyond s time ≡ false) ⊎ (time_ge time s.current_time ≡ false)
      → Aborts (set_time (standalone callback) s time)
  unfolding set_time move_time
  set_time-Aborts h = ground arith
