-- ===== src/Sched/Groups/Walk.antt =====
-- The rule for a walk over a list that loses entries as the walk visits them.
use usfstl.Base.{
  ℕ, zero, suc, ◌≤◌, ◌≡◌, refl, Option, some, List, [], ◌∷◌, arith, length, head?, next_after,
  Result, ok, abort, Returns,
}
use usfstl.Sched.Groups.{walk}

module _ {ℓ} {S : Type ℓ} (entries : S → List ℕ) (body : S → ℕ → Result S)
    (I : List ℕ → S → Type 0) where
  walk_next :
      (fuel j : ℕ) (s : S) (n : Option ℕ) (r : Result S) (rest : List ℕ)
      → next_after (entries s) j ≡ n
      → body s j ≡ r
      → Returns r (I rest)
      → ((s' : S) → I rest s' → Returns (walk fuel entries body n s') (I []))
      → Returns (walk (suc fuel) entries body (some j) s) (I [])
  unfolding walk
  walk_next fuel j s n (ok s') rest a b h k = rw (b, walk) (rw a (k s' h))
  walk_next fuel j s n (abort e) rest a b h k = elim h [ ]

  -- Where each step finds its successor and keeps the invariant over what is left to visit, the walk
  -- ends within its fuel.
  pub walk_inv :
      ((s : S) (j : ℕ) (rest : List ℕ)
        → I (j ∷ rest) s
        → (next_after (entries s) j ≡ head? rest) × Returns (body s j) (I rest))
      → (rest : List ℕ) (fuel : ℕ) (s : S) → length rest ≤ fuel
      → I rest s
      → Returns (walk fuel entries body (head? rest) s) (I [])
  unfolding walk
  walk_inv step [] zero s m h = h
  walk_inv step [] (suc fuel) s m h = h
  walk_inv step (j ∷ rest) zero s m h = absurd (omega arith)
  walk_inv step (j ∷ rest) (suc fuel) s m h =
      let (n, r) = step s j rest h in
      walk_next fuel j s (head? rest) (body s j) rest n refl r
        (λ s' k. walk_inv step rest fuel s' (omega arith) k)
