-- ===== src/Controller/Clients.antt =====
-- The numbers of clients, the order in which they start, and clients that leave before they start.
use native.Mathlib.Nat.{div-div-eq-div-mul, pow-succ'}
use usfstl.Base.{
  ℕ, zero, suc, ◌+◌, ◌*◌, ◌/◌, ◌%◌, ◌^◌, ◌≤◌, ◌<◌, ◌≡◌, inl, inr, refl, sym, ap, subst, ◌∙◌, arith,
  false, Bool-cases, List, [], ◌∷◌, ◌++◌, All, All-map, ltb, ◌==◌,
}
use usfstl.Controller.{Client, first_free, insert_client}

-- Sorted by name.
abbrev pub IsSorted : (ℕ → Client) → List ℕ → Type 0
IsSorted client [] = Unit {0}
IsSorted client (c ∷ cs) =
    All (λ d. (client c).shm_name ≤ (client d).shm_name) cs × IsSorted client cs

module _ (client : ℕ → Client) (c : ℕ) where
  -- The place of a client that starts: the names before are not larger, those after it are.
  pub record Place (cs : List ℕ) : Type 0 where
    pub before : List ℕ
    pub after : List ℕ
    pub old : cs ≡ before ++ after
    pub new : insert_client client c cs ≡ before ++ c ∷ after
    pub not_larger : All (λ d. (client d).shm_name ≤ (client c).shm_name) before
    pub larger : All (λ d. (client c).shm_name < (client d).shm_name) after

  -- A client that starts goes behind all waiting clients whose name is not larger, and ahead of the others,
  -- if the waiting clients are sorted by name.
  pub insert_client-Place : (cs : List ℕ) → IsSorted client cs → Place cs
  unfolding insert_client
  insert_client-Place [] h = record {
    before = [];
    after = [];
    old = refl;
    new = refl;
    not_larger = tt;
    larger = tt;
  }
  insert_client-Place (d ∷ ds) h = elim (Bool-cases (ltb (client c).shm_name (client d).shm_name)) [
    | inl e ↦ record {
      before = [];
      after = d ∷ ds;
      old = refl;
      new = rw e refl;
      not_larger = tt;
      larger = (ground arith, All-map _ _ ds (λ x k. ground arith) h.0);
    }
    | inr e ↦
        let p = insert_client-Place ds h.1 in
        record {
          before = d ∷ p.before;
          after = p.after;
          old = ap (◌∷◌ d) p.old;
          new = rw (e, p.new) refl;
          not_larger = (ground arith, p.not_larger);
          larger = p.larger;
        }
  ]

-- Whether client number `k + 1` is in use.
abbrev pub is_used : ℕ → ℕ → ℕ
is_used clients k = clients / 2 ^ k % 2

-- The first number not in use, counted from `i`, of `n` numbers; 0 if all are in use.
pub data FirstFree (clients i n : ℕ) : ℕ → Type 0 where
  all_used : ((j : ℕ) → j < n → is_used clients j ≡ 1) → FirstFree clients i n 0
  free_at :
      (k : ℕ)
      → k < n
      → is_used clients k ≡ 0
      → ((j : ℕ) → j < k → is_used clients j ≡ 1)
      → FirstFree clients i n (i + k)

pow_next : (k : ℕ) → 2 * 2 ^ k ≡ 2 ^ suc k
pow_next k = sym (pow-succ' 2 k)

used_half : (clients k : ℕ) → is_used (clients / 2) k ≡ is_used clients (suc k)
used_half clients k =
    ap (λ q. q % 2) (div-div-eq-div-mul clients 2 (2 ^ k)) ∙ ap (λ e. clients / e % 2) (pow_next k)

used_next :
    (clients k : ℕ)
    → (clients % 2 == 0) ≡ false
    → ((j : ℕ) → j < k → is_used (clients / 2) j ≡ 1)
    → (j : ℕ) → j < suc k
    → is_used clients j ≡ 1
used_next clients k e h zero l = ground arith
used_next clients k e h (suc j) l = sym (used_half clients j) ∙ h j (omega arith)

next_free :
    (n i clients : ℕ)
    → (clients % 2 == 0) ≡ false
    → (id : ℕ) → FirstFree (clients / 2) (i + 1) n id
    → FirstFree clients i (suc n) id
next_free n i clients e _ (FirstFree.all_used h) = FirstFree.all_used (used_next clients n e h)
next_free n i clients e _ (FirstFree.free_at k l z h) =
    subst (FirstFree clients i (suc n)) (omega arith) (
      FirstFree.free_at (suc k) (omega arith) (sym (used_half clients k) ∙ z)
        (used_next clients k e h))

-- The number that a new client gets is the first that no other client has, from 1 to 64, or 0 if there is
-- none.
pub first_free-FirstFree : (n i clients : ℕ) → FirstFree clients i n (first_free n i clients)
unfolding first_free
first_free-FirstFree zero i clients = FirstFree.all_used (λ j h. absurd (omega arith))
first_free-FirstFree (suc n) i clients = elim (Bool-cases (clients % 2 == 0)) [
  | inl e ↦ rw e (
      subst (FirstFree clients i (suc n)) (omega arith)
        (FirstFree.free_at 0 (omega arith) (ground arith) (λ j h. absurd (omega arith))))
  | inr e ↦ rw e (
      next_free n i clients e (first_free n (i + 1) (clients / 2))
        (first_free-FirstFree n (i + 1) (clients / 2)))
]
