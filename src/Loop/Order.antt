-- ===== src/Loop/Order.antt =====
-- The order of the main loop's entries: by falling priority, the newest first.
use usfstl.Base.{
  ℕ, ◌≡◌, refl, inl, inr, true, not, List, [], ◌∷◌, ◌++◌, ap, arith, ◌==◌, Bool-cases, All, All-map,
  All-remove, remove,
}
use usfstl.Base.Int.{ℤ, ◌≤ℤ◌, ltb_ℤ}
use usfstl.Loop.{Loop, LoopEntry, insert_entry, loop_register, loop_unregister}

module _ (es : ℕ → LoopEntry) where
  abbrev pub IsSorted : List ℕ → Type 0
  IsSorted [] = Unit {0}
  IsSorted (x ∷ xs) = All (λ y. (es y).priority ≤ℤ (es x).priority) xs × IsSorted xs

  -- The place of a new entry: `before` has higher priorities, `after` has none that is higher.
  pub record Place (j : ℕ) (xs : List ℕ) : Type 0 where
    pub before : List ℕ
    pub after : List ℕ
    pub old : xs ≡ before ++ after
    pub new : insert_entry es j xs ≡ before ++ j ∷ after
    pub higher : All (λ x. ltb_ℤ (es j).priority (es x).priority ≡ true) before
    pub lower : All (λ x. (es x).priority ≤ℤ (es j).priority) after

  not_lt : (a b : ℤ) → not (ltb_ℤ a b) ≡ true → b ≤ℤ a
  not_lt a b h = ground arith

  -- In a sorted list, a new entry goes behind all entries of a higher priority and ahead of all
  -- others.
  pub insert_entry-Place : (j : ℕ) (xs : List ℕ) → IsSorted xs → Place j xs
  unfolding insert_entry
  insert_entry-Place j [] o = record {
    before = [];
    after = [];
    old = refl;
    new = refl;
    higher = tt;
    lower = tt;
  }
  insert_entry-Place j (x ∷ xs) o =
      elim (Bool-cases (not (ltb_ℤ (es j).priority (es x).priority))) [
        | inl e ↦
            let b = not_lt (es j).priority (es x).priority e in
            record {
              before = [];
              after = x ∷ xs;
              old = refl;
              new = rw e refl;
              higher = tt;
              lower = (b, All-map _ _ xs (λ y h. omega arith) o.0);
            }
        | inr e ↦
            let p = insert_entry-Place j xs o.1 in
            record {
              before = x ∷ p.before;
              after = p.after;
              old = ap (◌∷◌ x) p.old;
              new = rw (e, p.new) refl;
              higher = (ground arith, p.higher);
              lower = p.lower;
            }
      ]

  All-insert_entry :
      (P : ℕ → Type 0) (j : ℕ) (xs : List ℕ) → P j → All P xs → All P (insert_entry es j xs)
  unfolding insert_entry
  All-insert_entry P j [] p a = (p, tt)
  All-insert_entry P j (x ∷ xs) p a =
      elim (Bool-cases (not (ltb_ℤ (es j).priority (es x).priority))) [
        | inl e ↦ rw e (p, a)
        | inr e ↦ rw e (a.0, All-insert_entry P j xs p a.1)
      ]

  insert_entry-IsSorted : (j : ℕ) (xs : List ℕ) → IsSorted xs → IsSorted (insert_entry es j xs)
  unfolding insert_entry
  insert_entry-IsSorted j [] o = (tt, tt)
  insert_entry-IsSorted j (x ∷ xs) o =
      elim (Bool-cases (not (ltb_ℤ (es j).priority (es x).priority))) [
        | inl e ↦
            let b = not_lt (es j).priority (es x).priority e in
            rw e ((b, All-map _ _ xs (λ y h. omega arith) o.0), o)
        | inr e ↦ rw e (All-insert_entry _ j xs (ground arith) o.0, insert_entry-IsSorted j xs o.1)
      ]

  remove-IsSorted : (j : ℕ) (xs : List ℕ) → IsSorted xs → IsSorted (remove j xs)
  remove-IsSorted j [] o = tt
  remove-IsSorted j (x ∷ xs) o = elim (Bool-cases (x == j)) [
    | inl e ↦ rw e o.1
    | inr e ↦ rw e (All-remove _ xs j o.0, remove-IsSorted j xs o.1)
  ]

-- The list of entries stays sorted when an entry is registered and when one is unregistered.
pub loop_register-IsSorted :
    {E : Type 0} (s : Loop E) (j : ℕ)
    → IsSorted s.entry s.loop_entries
    → IsSorted s.entry (loop_register s j).loop_entries
      × IsSorted s.entry (loop_unregister s j).loop_entries
unfolding loop_register loop_unregister
loop_register-IsSorted s j o =
    (insert_entry-IsSorted s.entry j s.loop_entries o, remove-IsSorted s.entry j s.loop_entries o)
