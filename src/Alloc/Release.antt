-- ===== src/Alloc/Release.antt =====
-- src/alloc.c: all tracked memory is given back, and no other.
use usfstl.Base.{ℕ, ◌≡◌, refl, ◌∙◌, arith, false, ◌&&◌, not, List, [], ◌∷◌, mem}
use usfstl.Alloc.{Allocator, Table, Alloc, IsAllocator, IsTable, free_keys, usfstl_free_all}

module _ {H T : Type 0} (sys : Allocator H) (tab : Table T) (a : IsAllocator sys)
    (b : IsTable tab) where
  free_keys_live :
      (keys : List ℕ) (s : Alloc H T) (p : ℕ)
      → sys.live (free_keys sys tab keys s).heap p ≡ (sys.live s.heap p && not (mem p keys))
  unfolding free_keys
  free_keys_live [] s p = ground arith
  free_keys_live (q ∷ keys) s p =
      let t : Alloc H T = record {
        heap = sys.free s.heap q;
        alloc_elems = tab.hash_delete s.alloc_elems q;
      } in
      free_keys_live keys t p ∙ (rw (a.free_block s.heap q p) (ground arith))

  free_keys_tracked :
      (keys : List ℕ) (s : Alloc H T) (p : ℕ)
      → tab.hash_find (free_keys sys tab keys s).alloc_elems p
        ≡ (tab.hash_find s.alloc_elems p && not (mem p keys))
  unfolding free_keys
  free_keys_tracked [] s p = ground arith
  free_keys_tracked (q ∷ keys) s p =
      let t : Alloc H T = record {
        heap = sys.free s.heap q;
        alloc_elems = tab.hash_delete s.alloc_elems q;
      } in
      free_keys_tracked keys t p ∙ (rw (b.find_deleted s.alloc_elems q p) (ground arith))

  -- usfstl_free_all frees the blocks that are tracked, leaves all others, and tracks none afterwards.
  pub free_all_live :
      (s : Alloc H T) (p : ℕ)
      → (sys.live (usfstl_free_all sys tab s).heap p
          ≡ (sys.live s.heap p && not (tab.hash_find s.alloc_elems p)))
        × (tab.hash_find (usfstl_free_all sys tab s).alloc_elems p ≡ false)
  unfolding usfstl_free_all
  free_all_live s p =
      let k = b.find_key s.alloc_elems p in
      (
        free_keys_live (tab.hash_keys s.alloc_elems) s p ∙ rw k refl,
        free_keys_tracked (tab.hash_keys s.alloc_elems) s p ∙ rw k (ground arith),
      )
