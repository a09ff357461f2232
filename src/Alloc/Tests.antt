-- ===== src/Alloc/Tests.antt =====
-- A heap that is a list of blocks, and a table that is a list of keys.
use usfstl.Base.{
  ℕ, ◌+◌, ◌≡◌, refl, inl, inr, arith, true, false, ◌&&◌, not, List, [], ◌∷◌, mem, ◌==◌, ◌<◌, ==→eq,
  if◌then◌else◌, Bool-cases, Returns, Aborts,
}
use usfstl.Alloc.{
  Allocator, Table, Alloc, IsAllocator, IsTable, usfstl_realloc, usfstl_free, usfstl_free_all,
}
use usfstl.Alloc.Tracking.{IsTracked, realloc_failed}
use usfstl.Alloc.Release.{free_all_live}

abbrev without : ℕ → List ℕ → List ℕ
without q [] = []
without q (x ∷ xs) = if x == q then without q xs else x ∷ without q xs

mem-without : (q p : ℕ) (xs : List ℕ) → mem p (without q xs) ≡ (not (q == p) && mem p xs)
mem-without q p [] = ground arith
mem-without q p (x ∷ xs) = ground (arith, mem-without q p xs)

-- Of a new block, the address is one more than that of the latest; reallocation fails.
abbrev new_block : List ℕ → ℕ
new_block [] = 1
new_block (x ∷ xs) = x + new_block xs

positive : (xs : List ℕ) → 0 < new_block xs
positive [] = omega arith
positive (x ∷ xs) = omega (arith, positive xs)

below : (p : ℕ) (xs : List ℕ) → mem p xs ≡ true → p < new_block xs
below p [] h = let no : ⊥ = ground arith in absurd no
below p (x ∷ xs) h = elim (Bool-cases (x == p)) [
  | inl e ↦ let q = ==→eq x p e in omega (arith, positive xs)
  | inr e ↦ let r = below p xs (ground arith) in omega (arith, r)
]

new_block_new : (xs : List ℕ) → mem (new_block xs) xs ≡ false
new_block_new xs = elim (Bool-cases (mem (new_block xs) xs)) [
  | inl e ↦ absurd (let r = below (new_block xs) xs e in omega arith)
  | inr e ↦ e
]

abbrev sys : Allocator (List ℕ)
sys = record {
  malloc = λ h n. (new_block h ∷ h, new_block h);
  realloc = λ h q n. (h, 0);
  free = λ h q. without q h;
  write = λ h q bytes. h;
  live = λ h p. mem p h;
  room = λ h. true;
}

abbrev tab : Table (List ℕ)
tab = record {
  hash_add = λ t q. q ∷ t;
  hash_find = λ t p. mem p t;
  hash_delete = λ t q. without q t;
  hash_keys = λ t. t;
}

tab-IsTable : IsTable tab
tab-IsTable = record {
  find_added = λ t q p. refl;
  find_deleted = λ t q p. mem-without q p t;
  find_key = λ t p. refl;
}

sys-IsAllocator : IsAllocator sys
sys-IsAllocator = record {
  malloc_fails = λ h n e p. absurd (let r = positive h in ground arith);
  malloc_new = λ h n z. (new_block_new h, λ p. refl);
  realloc_fails = λ h q n z e p. refl;
  realloc_moves = λ h q n z p. absurd (ground arith);
  free_block = λ h q p. mem-without q p h;
  write_block = λ h q p bytes. refl;
}

-- The blocks 1, 2 and 5, of which 2 and 5 are tracked.
abbrev three : Alloc (List ℕ) (List ℕ)
three = record { heap = 1 ∷ 2 ∷ 5 ∷ []; alloc_elems = 2 ∷ 5 ∷ [] }

three-IsTracked : IsTracked sys tab sys-IsAllocator tab-IsTable three
three-IsTracked p h = ground arith

realloc_failed_example : Returns (usfstl_realloc sys tab three 5 64) (λ r.
    (r.1 ≡ 0)
    × (mem 5 r.0.heap ≡ true)
    × (mem 5 r.0.alloc_elems ≡ false)
    × Aborts (usfstl_free sys tab r.0 5))
realloc_failed_example =
    realloc_failed sys tab sys-IsAllocator tab-IsTable three 5 64 three-IsTracked refl refl refl
      refl

free_all_live_example :
    (mem 5 (usfstl_free_all sys tab three).heap ≡ (true && not true))
    × (mem 5 (usfstl_free_all sys tab three).alloc_elems ≡ false)
free_all_live_example = free_all_live sys tab sys-IsAllocator tab-IsTable three 5
