-- ===== src/Alloc/Tracking.antt =====
-- src/alloc.c: which blocks are tracked after the operations.
use usfstl.Base.{
  ℕ, ◌≡◌, refl, ◌∙◌, inl, inr, arith, true, false, ◌&&◌, not, ◌==◌, ==_refl, Bool-cases, ok,
  Returns, Aborts,
}
use usfstl.Alloc.{
  Allocator, Table, Alloc, IsAllocator, IsTable, alloc_track, alloc_remove, usfstl_malloc,
  usfstl_realloc, usfstl_free,
}

module _ {H T : Type 0} (sys : Allocator H) (tab : Table T) (a : IsAllocator sys)
    (b : IsTable tab) where
  -- What is tracked is a block.
  abbrev pub IsTracked : Alloc H T → Type 0
  IsTracked s = (p : ℕ) → tab.hash_find s.alloc_elems p ≡ true → sys.live s.heap p ≡ true

  remove_lem :
      (s : Alloc H T) (q : ℕ)
      → (q == 0) ≡ false
      → tab.hash_find s.alloc_elems q ≡ true
      → alloc_remove sys tab s q ≡ ok (record s { alloc_elems = tab.hash_delete s.alloc_elems q })
  unfolding alloc_remove
  remove_lem s q n f = rw (n, f) refl

  untracked-Aborts :
      (s : Alloc H T) (q : ℕ)
      → (q == 0) ≡ false
      → tab.hash_find s.alloc_elems q ≡ false
      → Aborts (usfstl_free sys tab s q)
  unfolding usfstl_free alloc_remove
  untracked-Aborts s q n f = rw (n, f) tt

  -- A block that is tracked and freed was the only change: it is not a block any more, and every other
  -- block is as before.
  pub free-IsTracked :
      (s : Alloc H T) (q : ℕ)
      → IsTracked s
      → (q == 0) ≡ false
      → tab.hash_find s.alloc_elems q ≡ true
      → Returns
          (usfstl_free sys tab s q)
          (λ t. IsTracked t × ((p : ℕ) → sys.live t.heap p ≡ (not (q == p) && sys.live s.heap p)))
  unfolding usfstl_free
  free-IsTracked s q k n f = rw (remove_lem s q n f) (
    (λ p g.
        let h = b.find_deleted s.alloc_elems q p in
        let l = a.free_block s.heap q p in
        let other : not (q == p) ≡ true = ground arith in
        let there : tab.hash_find s.alloc_elems p ≡ true = ground arith in
        rw (l, other) (k p there)),
    a.free_block s.heap q,
  )

  -- A new block of usfstl_malloc was no block before, and is tracked if there is room for its entry.
  pub malloc-IsTracked :
      (s : Alloc H T) (n : ℕ)
      → IsTracked s
      → sys.room (sys.malloc s.heap n).0 ≡ true
      → ((sys.malloc s.heap n).1 == 0) ≡ false
      → Returns (usfstl_malloc sys tab s n) (λ r.
        IsTracked r.0 × (sys.live s.heap r.1 ≡ false) × (tab.hash_find r.0.alloc_elems r.1 ≡ true))
  unfolding usfstl_malloc alloc_track
  malloc-IsTracked s n k m z =
      let q = (sys.malloc s.heap n).1 in
      let l = a.malloc_new s.heap n z in
      rw (z, m)
        (
          (λ p g.
              let h = b.find_added s.alloc_elems q p in
              elim (Bool-cases (q == p)) [
                | inl e ↦ l.1 p ∙ rw e refl
                | inr e ↦
                    let there : tab.hash_find s.alloc_elems p ≡ true = ground arith in
                    l.1 p ∙ rw (e, k p there) refl
              ]),
          l.0,
          b.find_added s.alloc_elems q q ∙ rw (==_refl q) refl,
        )

  -- When the system cannot reallocate a tracked block to another size than 0, usfstl_realloc returns
  -- NULL and the block is still there, but it is not tracked any more: usfstl_free_all will not free
  -- it, and the program that frees it ends.
  pub realloc_failed :
      (s : Alloc H T) (q n : ℕ)
      → IsTracked s
      → (q == 0) ≡ false
      → (n == 0) ≡ false
      → tab.hash_find s.alloc_elems q ≡ true
      → ((sys.realloc s.heap q n).1 == 0) ≡ true
      → Returns (usfstl_realloc sys tab s q n) (λ r.
        (r.1 ≡ 0)
        × (sys.live r.0.heap q ≡ true)
        × (tab.hash_find r.0.alloc_elems q ≡ false)
        × Aborts (usfstl_free sys tab r.0 q))
  unfolding usfstl_realloc
  realloc_failed s q n k z m f e =
      let gone : tab.hash_find (tab.hash_delete s.alloc_elems q) q ≡ false =
        b.find_deleted s.alloc_elems q q ∙ rw (==_refl q) refl in
      rw (remove_lem s q z f, e)
        (
          refl,
          a.realloc_fails s.heap q n m e q ∙ k q f,
          gone,
          untracked-Aborts
              (record {
                heap = (sys.realloc s.heap q n).0;
                alloc_elems = tab.hash_delete s.alloc_elems q;
              })
              q z gone,
        )
