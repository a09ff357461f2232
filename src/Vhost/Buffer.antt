-- ===== src/Vhost/Buffer.antt =====
-- src/vhost.c: taking a buffer from a ring and giving it back.
pub mod Chain
use usfstl.Base.{
  ℕ, zero, suc, ◌+◌, ◌-◌, ◌%◌, ◌/◌, ◌^◌, Bool, true, false, not, ◌&&◌, ◌||◌, Option, none, some,
  List, [], ◌∷◌, ltb, ◌==◌, if◌then◌else◌, Result, ok, abort, assert, ◌>>=◌, ◌>>◌,
}
use usfstl.Vhost.{
  Region, Desc, Ring, Virtq, Iovec, Buf, Notice, call, vring_call, Vhost, Server, set_virtq,
  virtq_at, to_va,
}

-- The first loop over the descriptors, from the one at `i`: how many are written, how many are read.
unfoldable pub count_descs : ℕ → (ℕ → Desc) → ℕ → Result (ℕ × ℕ)
count_descs zero desc i = abort "out of fuel"
count_descs (suc fuel) desc i =
    let d = desc i in
    let more = count_descs fuel desc d.next in
    do
      n ← if d.more then more else ok (0, 0)
      ok (if d.writes then (suc n.0, n.1) else (n.0, suc n.1))

-- The second loop: the elements of in_sg and of out_sg.
unfoldable pub fill_descs : ℕ → List Region → (ℕ → Desc) → ℕ → Result (List Iovec × List Iovec)
fill_descs zero regions desc i = abort "out of fuel"
fill_descs (suc fuel) regions desc i =
    let d = desc i in
    let more = fill_descs fuel regions desc d.next in
    do
      va ← to_va regions d.addr
      sgs ← if d.more then more else ok ([], [])
      let vec : Iovec = record { iov_base = va; iov_len = d.len } in
          ok (if d.writes then (vec ∷ sgs.0, sgs.1) else (sgs.0, vec ∷ sgs.1))

-- What a buffer that the caller hands in says: its element counts, which are the room for elements, and
-- `written`.
pub record Fixed : Type 0 where
  pub n_in_sg : ℕ
  pub n_out_sg : ℕ
  pub written : ℕ

abbrev pub must_allocate : Option Fixed → ℕ × ℕ → Bool
must_allocate none n = true
must_allocate (some fixed) n = ltb fixed.n_in_sg n.0 || ltb fixed.n_out_sg n.1

-- calloc clears `written`; the caller's buffer keeps it.
abbrev pub old_written : Option Fixed → ℕ × ℕ → ℕ
old_written none n = 0
old_written (some fixed) n = if must_allocate (some fixed) n then 0 else fixed.written

abbrev pub virtq_empty : Virtq → Bool
virtq_empty q = q.virtq.avail_idx == q.last_avail_idx

-- The bits of the protocol features that the calls of a ring by message need.
abbrev pub calls_in_band : ℕ → Bool
calls_in_band features = features / 2 ^ 14 % 2 == 1 && features / 2 ^ 5 % 2 == 1

abbrev pub has_no_fd : Option ℕ → Bool
has_no_fd none = true
has_no_fd (some fd) = false

module _ {E : Type 0} (server : Server) where
  -- usfstl_vhost_user_get_virtq_buf. `has_memory` tells whether an allocation succeeds.
  unfoldable pub get_virtq_buf :
      ℕ → Bool → Vhost E → ℕ → Option Fixed → Result (Vhost E × Option Buf)
  get_virtq_buf fuel has_memory s virtq_idx fixed = do
    q ← virtq_at server s virtq_idx
    if virtq_empty q
        then ok (s, none)
        else (let idx = q.last_avail_idx % q.virtq.num in
            let desc_idx = q.virtq.avail idx in
            let s' =
              set_virtq s virtq_idx
                (record q { last_avail_idx = (q.last_avail_idx + 1) % 2 ^ 16 }) in
            do
              assert (ltb desc_idx q.virtq.num) "desc_idx < virtq->num"
              n ← count_descs fuel q.virtq.desc desc_idx
              if must_allocate fixed n && not has_memory then ok (s', none) else (do
                sgs ← fill_descs fuel s.regions q.virtq.desc desc_idx
                ok (
                  s',
                  some (record {
                    in_sg = sgs.0;
                    out_sg = sgs.1;
                    written = old_written fixed n;
                    virtq_idx = virtq_idx;
                    idx = desc_idx;
                    allocated = must_allocate fixed n;
                  }),
                )))

  -- usfstl_vhost_user_send_virtq_buf. `sync_to` is usfstl_sched_ctrl_sync_to, if there is a control; the
  -- descriptor for the calls is looked at before it and used after it.
  unfoldable pub send_virtq_buf :
      Option (Vhost E → Result (Vhost E)) → Vhost E → Buf → ℕ → Result (Vhost E)
  send_virtq_buf sync_to s0 buf virtq_idx = do
    q0 ← virtq_at server s0 virtq_idx
    s ← elim sync_to [ none ↦ ok s0 | some f ↦ f s0 ]
    let q = s.virtqs virtq_idx in
        let ring = q.virtq in
        let s' = set_virtq s virtq_idx (record q {
          virtq = record ring {
            used =
                λ i. if ring.used_idx % ring.num == i then (buf.idx, buf.written) else ring.used i;
            used_idx = (ring.used_idx + 1) % 2 ^ 16;
          };
        }) in
        if has_no_fd q0.call_fd && calls_in_band s.protocol_features
        then ok (record s' { notices = vring_call virtq_idx ∷ s.notices })
        else elim q.call_fd [
          | some fd ↦ ok (record s' { notices = call fd ∷ s.notices })
          | none ↦ abort "written == sizeof(e)"
        ]
