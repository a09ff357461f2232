-- ===== src/Vhost/Buffer/Chain.antt =====
-- A chain of descriptors that ends is turned into a buffer.
use usfstl.Base.{
  ℕ, zero, suc, ◌+◌, ◌%◌, ◌^◌, ◌≤◌, ◌<◌, ◌≡◌, refl, arith, Bool, true, false, Option, some, List,
  [], ◌∷◌, length, lt→ltb, if◌then◌else◌, All, ok,
}
use usfstl.Vhost.{Region, Desc, Iovec, Vhost, Server, set_virtq, to_va}
use usfstl.Vhost.Buffer.{
  Fixed, count_descs, fill_descs, must_allocate, old_written, virtq_empty, get_virtq_buf,
}

-- The descriptors of the chain that starts at `i`, in their order.
pub data Chain (desc : ℕ → Desc) : ℕ → List Desc → Type 0 where
  last : (i : ℕ) → (desc i).more ≡ false → Chain desc i (desc i ∷ [])
  link :
      (i : ℕ) {ds : List Desc}
      → (desc i).more ≡ true
      → Chain desc (desc i).next ds
      → Chain desc i (desc i ∷ ds)

-- The elements that the descriptors describe, for a translation of their addresses.
module _ (va : ℕ → ℕ) where
  abbrev pub vec_of : Desc → Iovec
  vec_of d = record { iov_base = va d.addr; iov_len = d.len }

  abbrev pub vecs : Bool → List Desc → List Iovec
  vecs b [] = []
  vecs true (d ∷ ds) = if d.writes then vec_of d ∷ vecs true ds else vecs true ds
  vecs false (d ∷ ds) = if d.writes then vecs false ds else vec_of d ∷ vecs false ds

abbrev pub counts : List Desc → ℕ × ℕ
counts [] = (0, 0)
counts (d ∷ ds) =
    if d.writes then (suc (counts ds).0, (counts ds).1) else ((counts ds).0, suc (counts ds).1)

count_descs_lem :
    (fuel : ℕ) (desc : ℕ → Desc) (i : ℕ) (ds : List Desc)
    → Chain desc i ds
    → length ds ≤ fuel
    → count_descs fuel desc i ≡ ok (counts ds)
unfolding count_descs
count_descs_lem zero desc i _ (last _ e) h = absurd (omega arith)
count_descs_lem zero desc i _ (link _ e c) h = absurd (omega arith)
count_descs_lem (suc fuel) desc i _ (last _ e) h = rw e refl
count_descs_lem (suc fuel) desc i _ (link _ {ds} e c) h =
    rw (e, count_descs_lem fuel desc (desc i).next ds c (omega arith)) refl

fill_descs_lem :
    (fuel : ℕ) (regions : List Region) (va : ℕ → ℕ) (desc : ℕ → Desc) (i : ℕ) (ds : List Desc)
    → Chain desc i ds
    → All (λ d. to_va regions d.addr ≡ ok (va d.addr)) ds
    → length ds ≤ fuel
    → fill_descs fuel regions desc i ≡ ok (vecs va true ds, vecs va false ds)
unfolding fill_descs
fill_descs_lem zero regions va desc i _ (last _ e) t h = absurd (omega arith)
fill_descs_lem zero regions va desc i _ (link _ e c) t h = absurd (omega arith)
fill_descs_lem (suc fuel) regions va desc i _ (last _ e) t h = rw (t.0, e) (ground arith)
fill_descs_lem (suc fuel) regions va desc i _ (link _ {ds} e c) t h =
    rw (t.0, e, fill_descs_lem fuel regions va desc (desc i).next ds c t.1 (omega arith))
      (ground arith)

module _ {E : Type 0} (server : Server) (s : Vhost E) (i : ℕ) where
  -- The descriptor that the next entry of the available ring names.
  abbrev pub first_desc : ℕ
  first_desc = (s.virtqs i).virtq.avail ((s.virtqs i).last_avail_idx % (s.virtqs i).virtq.num)

  abbrev pub taken : Vhost E
  taken =
      set_virtq s i
        (record (s.virtqs i) { last_avail_idx = ((s.virtqs i).last_avail_idx + 1) % 2 ^ 16 })

  -- When an entry is available, its descriptors form a chain that ends and whose addresses can be
  -- translated, and memory can be allocated, both loops end with as much fuel as the chain is long. The
  -- buffer has the elements to write and those to read in the order of the chain, and it is the entry
  -- after it that is taken next. Its `written` is what the caller's buffer had if that is large enough.
  pub get_virtq_buf-Chain :
      (fuel : ℕ) (fixed : Option Fixed) (va : ℕ → ℕ) (ds : List Desc)
      → i < server.max_queues
      → virtq_empty (s.virtqs i) ≡ false
      → first_desc < (s.virtqs i).virtq.num
      → Chain (s.virtqs i).virtq.desc first_desc ds
      → All (λ d. to_va s.regions d.addr ≡ ok (va d.addr)) ds
      → length ds ≤ fuel
      → get_virtq_buf server fuel true s i fixed
        ≡ ok (
          taken,
          some (record {
            in_sg = vecs va true ds;
            out_sg = vecs va false ds;
            written = old_written fixed (counts ds);
            virtq_idx = i;
            idx = first_desc;
            allocated = must_allocate fixed (counts ds);
          }),
        )
  unfolding get_virtq_buf
  get_virtq_buf-Chain fuel fixed va ds h e k c t n =
      rw
        (
          lt→ltb i server.max_queues h,
          e,
          lt→ltb first_desc (s.virtqs i).virtq.num k,
          count_descs_lem fuel (s.virtqs i).virtq.desc first_desc ds c n,
          fill_descs_lem fuel s.regions va (s.virtqs i).virtq.desc first_desc ds c t n,
        )
        (ground arith)
