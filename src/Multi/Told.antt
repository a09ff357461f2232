-- ===== src/Multi/Told.antt =====
-- src/multi-ctl.c: what the controller tells a participant about how long it may run.
use usfstl.Base.{
  ℕ, ◌≡◌, refl, sym, ap, ◌∙◌, inl, inr, arith, Bool, true, false, ◌||◌, ◌&&◌, Option, none, some,
  List, [], ◌∷◌, ◌++◌, ◌==◌, ==→eq, ==_refl, if◌then◌else◌, Bool-cases,
}
use usfstl.Sched.{Hooks}
use usfstl.Sched.Advance.{get_sync_time}
use usfstl.Multi.{
  Ctl, CtlSched, CtlCall, set_sync, sched_cont, local_participant, ptc_at, set_ptc, call_ptc,
  updated_participant, update_sync_time,
}

-- The synchronisation time that participant `p` has been told last.
abbrev pub told : ℕ → CtlCall → Option ℕ → Option ℕ
told p (set_sync q sync) known = if p == q then some sync else known
told p (sched_cont q msg) known = known

abbrev pub latest_sync : ℕ → List CtlCall → Option ℕ → Option ℕ
latest_sync p [] known = known
latest_sync p (c ∷ calls) known = latest_sync p calls (told p c known)

latest_sync_snoc :
    (p : ℕ) (calls : List CtlCall) (c : CtlCall) (known : Option ℕ)
    → latest_sync p (calls ++ c ∷ []) known ≡ told p c (latest_sync p calls known)
latest_sync_snoc p [] c known = refl
latest_sync_snoc p (d ∷ calls) c known = latest_sync_snoc p calls c (told p d known)

-- What the controller remembers is what each participant has been told last.
abbrev pub IsTold : CtlSched → Type 0
IsTold s =
    (p : ℕ)
    → (ptc_at s p).sync_set ≡ true
    → latest_sync p s.env.ctl_calls none ≡ some (ptc_at s p).sync

eq_comm : (a b : ℕ) → (a == b) ≡ (b == a)
eq_comm a b = ground arith

second_branch :
    {A : Type 0} (b c : Bool) (x y z : A)
    → b ≡ false
    → c ≡ true
    → (if b then x else if c then y else z) ≡ y
second_branch b c x y z h k = rw (h, k) refl

third_branch :
    {A : Type 0} (b c : Bool) (x y z : A)
    → b ≡ false
    → c ≡ false
    → (if b then x else if c then y else z) ≡ z
third_branch b c x y z h k = rw (h, k) refl

or_left : (a b : Bool) → a ≡ true → (a || b) ≡ true
or_left a b h = ground arith

or_false : (a b : Bool) → a ≡ false → b ≡ false → (a || b) ≡ false
or_false a b h k = ground arith

-- The state after a participant has been told a time.
abbrev told_state : CtlSched → ℕ → ℕ → CtlSched
told_state s u sync =
    set_ptc
      (call_ptc (record s { env = record (s.env) { running_participant = u } }) (set_sync u sync)) u
      (record (ptc_at s u) { sync_set = true; sync = sync })

told_state-latest :
    (s : CtlSched) (u sync : ℕ) → latest_sync u (told_state s u sync).env.ctl_calls none ≡ some sync
told_state-latest s u sync =
    latest_sync_snoc u s.env.ctl_calls (set_sync u sync) none ∙ rw (==_refl u) refl

told_state-IsTold : (s : CtlSched) (u sync : ℕ) → IsTold s → IsTold (told_state s u sync)
told_state-IsTold s u sync k p v = elim (Bool-cases (u == p)) [
  | inl e ↦
      let q = ==→eq u p e in
      ap (λ x. latest_sync x (told_state s u sync).env.ctl_calls none) (sym q)
      ∙ told_state-latest s u sync
      ∙ rw e refl
  | inr e ↦
      let v' : (ptc_at s p).sync_set ≡ true = rw e at v in
      latest_sync_snoc p s.env.ctl_calls (set_sync u sync) none ∙ rw (eq_comm p u, e) (k p v')
]

module _ (hooks : Hooks Ctl) (s : CtlSched) (update : Option ℕ)
    (d : s.env.ctrl_disable_sync ≡ false)
    (l : (updated_participant hooks s update == local_participant) ≡ false) where
  abbrev updated : ℕ
  updated = updated_participant hooks s update

  abbrev knows : Bool
  knows = (ptc_at s updated).sync_set && (ptc_at s updated).sync == get_sync_time hooks s

  told_already :
      knows ≡ true
      → update_sync_time hooks s update
        ≡ record s { env = record (s.env) { running_participant = updated } }
  unfolding update_sync_time
  told_already e = second_branch _ _ _ _ _ d (or_left _ _ e)

  told_now :
      knows ≡ false → update_sync_time hooks s update ≡ told_state s updated (get_sync_time hooks s)
  unfolding update_sync_time
  told_now e = third_branch _ _ _ _ _ d (or_false _ _ e l)

  -- Unless it is disabled, the update of the synchronisation time leaves a participant that is not
  -- the controller itself, the one given or the one that runs, told of the time that the scheduler
  -- gives, and the controller remembers for each participant what it has told it last.
  pub update_sync_time-IsTold :
      IsTold s
      → IsTold (update_sync_time hooks s update)
        × (latest_sync
              (updated_participant hooks s update)
              (update_sync_time hooks s update).env.ctl_calls
              none
            ≡ some (get_sync_time hooks s))
  update_sync_time-IsTold k = elim (Bool-cases knows) [
    | inl e ↦
        let set : (ptc_at s updated).sync_set ≡ true = ground arith in
        let same : (ptc_at s updated).sync ≡ get_sync_time hooks s = ground arith in
        rw (told_already e) (k, k updated set ∙ ap some same)
    | inr e ↦ rw (told_now e) (
      told_state-IsTold s updated (get_sync_time hooks s) k,
      told_state-latest s updated (get_sync_time hooks s),
    )
  ]
