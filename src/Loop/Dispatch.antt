-- ===== src/Loop/Dispatch.antt =====
-- One round of the main loop calls the ready entry of the highest priority.
use usfstl.Base.{
  ℕ, suc, ◌≡◌, ◌<◌, ◌^◌, ◌+◌, refl, sym, subst, inl, inr, true, Option, some, List, [], ◌∷◌, arith,
  Bool, Bool-cases, ==→eq, ==_refl, mem, All, All-map, Result, ltb,
}
use usfstl.Base.Int.{ℤ, pos, negsuc, ◌≤ℤ◌, to_u32}
use usfstl.Loop.{Loop, LoopEntry, first_ready, descriptors, largest, dispatch, wait_and_handle}
use usfstl.Loop.Order.{IsSorted}

module _ (es : ℕ → LoopEntry) (rd_set : List ℕ) where
  abbrev pub is_ready : ℕ → Bool
  is_ready t = mem (es t).fd rd_set

  -- `t` is ready, and of the ready entries of the list none has a higher priority.
  pub record IsFirst (t : ℕ) (xs : List ℕ) : Type 0 where
    pub member : mem t xs ≡ true
    pub ready : is_ready t ≡ true
    pub highest : All (λ i. is_ready i ≡ true → (es i).priority ≤ℤ (es t).priority) xs

  pub first_ready-IsFirst :
      (xs : List ℕ) (t : ℕ) → IsSorted es xs → first_ready es rd_set xs ≡ some t → IsFirst t xs
  unfolding first_ready
  first_ready-IsFirst [] t o h = let no : ⊥ = cc in absurd no
  first_ready-IsFirst (x ∷ xs) t o h = elim (Bool-cases (mem (es x).fd rd_set)) [
    | inl e ↦
        let q : x ≡ t = ground (arith, h, e) in
        record {
          member = ground (arith, q);
          ready = rw (← q) e;
          highest = (λ r. ground (arith, q), All-map _ _ xs (λ y m r. rw (← q) m) o.0);
        }
    | inr e ↦
        let f = first_ready-IsFirst xs t o.1 (ground (arith, h, e)) in
        record {
          member = ground (arith, f.member);
          ready = f.ready;
          highest = (λ r. ground (arith, r, e), f.highest);
        }
  ]

  pub some_ready :
      (xs : List ℕ) (d : ℕ)
      → mem d (descriptors es xs) ≡ true
      → mem d rd_set ≡ true
      → (t : ℕ) × (first_ready es rd_set xs ≡ some t)
  unfolding first_ready
  some_ready [] d h k = let no : ⊥ = cc in absurd no
  some_ready (x ∷ xs) d h k = elim (Bool-cases (mem (es x).fd rd_set)) [
    | inl e ↦ (x, rw e refl)
    | inr e ↦
        let r = some_ready xs d (ground (arith, h, e, k, ==→eq (es x).fd d)) k in (r.0, rw e r.1)
  ]

-- With all descriptors in the set, the first entry is ready.
first_ready_own :
    (es : ℕ → LoopEntry) (x : ℕ) (xs : List ℕ)
    → first_ready es (descriptors es (x ∷ xs)) (x ∷ xs) ≡ some x
unfolding first_ready
first_ready_own es x xs = rw (==_refl (es x).fd) refl

counted : (n : ℕ) → suc n < 2 ^ 31 → ltb 0 (to_u32 (pos (suc n))) ≡ true
counted n h = ground arith

module _ {E : Type 0} (select : ℕ → List ℕ → ℤ × List ℕ)
    (pre_handler : Option (Loop E → Result (Loop E))) (handler : ℕ → Loop E → Result (Loop E))
    (s : Loop E) where
  abbrev pub selected : ℤ × List ℕ
  selected = select (largest s.entry s.loop_entries 0 + 1) (descriptors s.entry s.loop_entries)

  -- When select reports a descriptor of the list as ready, one entry is handled: a ready one, of the
  -- highest priority among those.
  pub wait_and_handle-IsFirst :
      (n d : ℕ)
      → IsSorted s.entry s.loop_entries
      → selected.0 ≡ pos (suc n)
      → suc n < 2 ^ 31
      → mem d (descriptors s.entry s.loop_entries) ≡ true
      → mem d selected.1 ≡ true
      → (t : ℕ) × (wait_and_handle select pre_handler handler s
          ≡ dispatch select pre_handler handler s t)
        × IsFirst s.entry selected.1 t s.loop_entries
  unfolding wait_and_handle
  wait_and_handle-IsFirst n d o e w h k =
      let r = some_ready s.entry selected.1 s.loop_entries d h k in
      (
        r.0,
        rw (e, counted n w, r.1) refl,
        first_ready-IsFirst s.entry selected.1 s.loop_entries r.0 o r.1,
      )

  -- When select fails, which it says by -1 and a set that it leaves alone, the check does not stop
  -- the round: the handler of the first entry is called, ready or not.
  pub wait_and_handle_failed :
      (x : ℕ) (xs : List ℕ)
      → s.loop_entries ≡ x ∷ xs
      → selected.0 ≡ negsuc 0
      → selected.1 ≡ descriptors s.entry s.loop_entries
      → wait_and_handle select pre_handler handler s ≡ dispatch select pre_handler handler s x
  unfolding wait_and_handle
  wait_and_handle_failed x xs e f g =
      let first =
        subst (λ (ys : List ℕ). first_ready s.entry (descriptors s.entry ys) ys ≡ some x) (sym e)
          (first_ready_own s.entry x xs) in
      rw (f, g, first) refl
