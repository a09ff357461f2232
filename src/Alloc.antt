-- ===== src/Alloc.antt =====
-- src/alloc.c: memory that is tracked so that all of it can be given back at the end of a test.
pub mod Tracking
pub mod Release
mod Tests
use usfstl.Base.{
  ℕ, zero, suc, ◌+◌, ◌*◌, ◌%◌, ◌^◌, ◌≡◌, Bool, true, false, ◌&&◌, ◌||◌, not, List, [], ◌∷◌, ◌++◌,
  length, take, ltb, ◌==◌, if◌then◌else◌, mem, Result, ok, abort, assert, ◌>>=◌, ◌>>◌,
}

-- The allocator of the C library: addresses are numbers, and 0 is NULL. `live` says whether an
-- address is that of a block; `room` whether there is memory for an entry of the table.
pub record Allocator (H : Type 0) : Type 0 where
  pub malloc : H → ℕ → H × ℕ
  pub realloc : H → ℕ → ℕ → H × ℕ
  pub free : H → ℕ → H
  pub write : H → ℕ → List ℕ → H
  pub live : H → ℕ → Bool
  pub room : H → Bool

-- The hash table of include/usfstl/uthash.h with addresses as keys.
pub record Table (T : Type 0) : Type 0 where
  pub hash_add : T → ℕ → T
  pub hash_find : T → ℕ → Bool
  pub hash_delete : T → ℕ → T
  pub hash_keys : T → List ℕ

-- What the allocator does: a new block was not there before, a failure changes nothing (but
-- reallocation to the size 0 may free the block), and reallocation moves one block.
pub record IsAllocator {H : Type 0} (sys : Allocator H) : Type 0 where
  pub malloc_fails :
      (h : H) (n : ℕ)
      → ((sys.malloc h n).1 == 0) ≡ true
      → (p : ℕ) → sys.live (sys.malloc h n).0 p ≡ sys.live h p
  pub malloc_new :
      (h : H) (n : ℕ)
      → ((sys.malloc h n).1 == 0) ≡ false
      → (sys.live h (sys.malloc h n).1 ≡ false)
        × ((p : ℕ) → sys.live (sys.malloc h n).0 p ≡ ((sys.malloc h n).1 == p || sys.live h p))
  pub realloc_fails :
      (h : H) (q n : ℕ)
      → (n == 0) ≡ false
      → ((sys.realloc h q n).1 == 0) ≡ true
      → (p : ℕ) → sys.live (sys.realloc h q n).0 p ≡ sys.live h p
  pub realloc_moves :
      (h : H) (q n : ℕ)
      → ((sys.realloc h q n).1 == 0) ≡ false
      → (p : ℕ)
      → sys.live (sys.realloc h q n).0 p
        ≡ ((sys.realloc h q n).1 == p || (not (q == p) && sys.live h p))
  pub free_block : (h : H) (q p : ℕ) → sys.live (sys.free h q) p ≡ (not (q == p) && sys.live h p)
  pub write_block :
      (h : H) (q p : ℕ) (bytes : List ℕ) → sys.live (sys.write h q bytes) p ≡ sys.live h p

-- What the hash table does; its keys are listed once each.
pub record IsTable {T : Type 0} (tab : Table T) : Type 0 where
  pub find_added :
      (t : T) (q p : ℕ) → tab.hash_find (tab.hash_add t q) p ≡ (q == p || tab.hash_find t p)
  pub find_deleted :
      (t : T) (q p : ℕ)
      → tab.hash_find (tab.hash_delete t q) p ≡ (not (q == p) && tab.hash_find t p)
  pub find_key : (t : T) (p : ℕ) → tab.hash_find t p ≡ mem p (tab.hash_keys t)

pub record Alloc (H T : Type 0) : Type 0 where
  pub heap : H
  pub alloc_elems : T  -- alloc_elems_head

abbrev pub zero_bytes : ℕ → List ℕ
zero_bytes zero = []
zero_bytes (suc n) = 0 ∷ zero_bytes n

module _ {H T : Type 0} (sys : Allocator H) (tab : Table T) where
  unfoldable pub alloc_track : Alloc H T → ℕ → Result (Alloc H T)
  alloc_track s ptr = do
    assert (sys.room s.heap) "Failed to allocate memory to alloc structure"
    ok (record s { alloc_elems = tab.hash_add s.alloc_elems ptr })

  unfoldable pub alloc_remove : Alloc H T → ℕ → Result (Alloc H T)
  alloc_remove s ptr = if ptr == 0 then ok s else do
    assert (tab.hash_find s.alloc_elems ptr) "didn't find the pointer to remove"
    ok (record s { alloc_elems = tab.hash_delete s.alloc_elems ptr })

  unfoldable pub usfstl_malloc : Alloc H T → ℕ → Result (Alloc H T × ℕ)
  usfstl_malloc s size =
      let r = sys.malloc s.heap size in
      let t = record s { heap = r.0 } in
      if r.1 == 0 then ok (t, 0) else (alloc_track t r.1 >>= λ u. ok (u, r.1))

  -- The product is a size_t and wraps.
  unfoldable pub usfstl_calloc : Alloc H T → ℕ → ℕ → Result (Alloc H T × ℕ)
  usfstl_calloc s nmemb size =
      let len = (nmemb * size) % 2 ^ 64 in
      do
        r ← usfstl_malloc s len
        ok (
            if r.1 == 0
            then r
            else (record (r.0) { heap = sys.write r.0.heap r.1 (zero_bytes len) }, r.1))

  unfoldable pub usfstl_realloc : Alloc H T → ℕ → ℕ → Result (Alloc H T × ℕ)
  usfstl_realloc s ptr size = do
    t ← alloc_remove s ptr
    let r = sys.realloc t.heap ptr size
    let u = record t { heap = r.0 }
    if r.1 == 0 then ok (u, 0) else (alloc_track u r.1 >>= λ v. ok (v, r.1))

  -- A string is its bytes without the zero at the end.
  unfoldable pub usfstl_strdup : Alloc H T → List ℕ → Result (Alloc H T × ℕ)
  usfstl_strdup s str = do
    r ← usfstl_malloc s (length str + 1)
    ok (
        if r.1 == 0
        then r
        else (record (r.0) { heap = sys.write r.0.heap r.1 (str ++ 0 ∷ []) }, r.1))

  unfoldable pub usfstl_strndup : Alloc H T → List ℕ → ℕ → Result (Alloc H T × ℕ)
  usfstl_strndup s str n = do
    r ← usfstl_malloc s (length (take n str) + 1)
    ok (
        if r.1 == 0
        then r
        else (record (r.0) { heap = sys.write r.0.heap r.1 (take n str ++ 0 ∷ []) }, r.1))

  unfoldable pub usfstl_free : Alloc H T → ℕ → Result (Alloc H T)
  usfstl_free s ptr = do t ← alloc_remove s ptr; ok (record t { heap = sys.free t.heap ptr })

  -- The loop of usfstl_free_all over the keys that there were when it started.
  unfoldable pub free_keys : List ℕ → Alloc H T → Alloc H T
  free_keys [] s = s
  free_keys (ptr ∷ keys) s =
      free_keys keys
        (record { heap = sys.free s.heap ptr; alloc_elems = tab.hash_delete s.alloc_elems ptr })

  unfoldable pub usfstl_free_all : Alloc H T → Alloc H T
  usfstl_free_all s = free_keys (tab.hash_keys s.alloc_elems) s
