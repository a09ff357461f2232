-- ===== src/Vhost/Queue/Drain.antt =====
-- A queue is handled until it is empty, and each buffer is given back once.
use usfstl.Base.{
  ℕ, zero, suc, ◌+◌, ◌-◌, ◌%◌, ◌^◌, ◌≤◌, ◌<◌, ◌≡◌, refl, ap, ◌∙◌, arith, inl, inr, true, false,
  Bool-cases, Option, none, some, List, length, lt→ltb, ◌==◌, ==_refl, if◌then◌else◌, All, Result,
  ok, Returns, ◌>>=◌,
}
use usfstl.Sched.Quiet.{Returns-bind, Returns-mono}
use usfstl.Vhost.{Region, Desc, Virtq, Buf, Vhost, Server, to_va}
use usfstl.Vhost.Buffer.{Fixed, virtq_empty, get_virtq_buf, send_virtq_buf}
use usfstl.Vhost.Buffer.Chain.{Chain, first_desc, taken, get_virtq_buf-Chain}
use usfstl.Vhost.Queue.{Env, reuse, handle_queue}

-- The queue after its next entry was taken, and after a buffer was given back.
abbrev pub next_taken : Virtq → Virtq
next_taken q = record q { last_avail_idx = (q.last_avail_idx + 1) % 2 ^ 16 }

abbrev pub given_back : Virtq → Buf → Virtq
given_back q buf = record q {
  virtq = record q.virtq {
    used =
        λ p. if q.virtq.used_idx % q.virtq.num == p then (buf.idx, buf.written) else q.virtq.used p;
    used_idx = (q.virtq.used_idx + 1) % 2 ^ 16;
  };
}

abbrev pub pending : Virtq → ℕ
pending q = (q.virtq.avail_idx + 2 ^ 16 - q.last_avail_idx) % 2 ^ 16

pending_step :
    (q : Virtq) (buf : Buf)
    → virtq_empty q ≡ false
    → q.virtq.avail_idx < 2 ^ 16
    → q.last_avail_idx < 2 ^ 16
    → suc (pending (given_back (next_taken q) buf)) ≡ pending q
pending_step q buf e h k = ground (arith, e, h, k)

fuel_step : (a b n fuel : ℕ) → a + n < suc fuel → suc b ≡ a → b + n < fuel
fuel_step a b n fuel h k = omega arith

-- Chains of at most `bound` descriptors, whose addresses are translated by `va`.
module _ (bound : ℕ) (va : ℕ → ℕ) where
  abbrev pub GoodChain : Virtq → List Region → ℕ → Type 0
  GoodChain q regions head =
      (ds : List Desc) × Chain q.virtq.desc head ds
      × All (λ d. to_va regions d.addr ≡ ok (va d.addr)) ds
      × (length ds ≤ bound)

  -- The guest has set up the queue well, with a descriptor for the calls.
  pub record IsReady (q : Virtq) (regions : List Region) : Type 0 where
    pub chains : (head : ℕ) → head < q.virtq.num → GoodChain q regions head
    pub entries : (p : ℕ) → q.virtq.avail p < q.virtq.num
    pub avail_idx : q.virtq.avail_idx < 2 ^ 16
    pub last_avail_idx : q.last_avail_idx < 2 ^ 16
    pub call_fd : ℕ
    pub calls : q.call_fd ≡ some call_fd

  given_back-IsReady :
      (q : Virtq) (regions : List Region) (buf : Buf)
      → IsReady q regions
      → IsReady (given_back (next_taken q) buf) regions
  given_back-IsReady q regions buf h = record {
    chains = h.chains;
    entries = h.entries;
    avail_idx = h.avail_idx;
    last_avail_idx = omega arith;
    call_fd = h.call_fd;
    calls = h.calls;
  }

module _ {E : Type 0} (server : Server) (env : Env E) (i : ℕ) where
  -- The server's handler returns, and leaves the queues and the regions alone.
  abbrev pub HandlesWell : Type 0
  HandlesWell =
      (s : Vhost E) (buf : Buf)
      → Returns (env.handle s buf i) (λ r. (r.0.virtqs ≡ s.virtqs) × (r.0.regions ≡ s.regions))

  -- One buffer was taken and given back.
  abbrev pub Stepped : Virtq → List Region → Vhost E → Type 0
  Stepped q regions t =
      (buf : Buf) × (t.virtqs i ≡ given_back (next_taken q) buf) × (t.regions ≡ regions)

  send_lem :
      (s : Vhost E) (buf : Buf) (fd : ℕ)
      → i < server.max_queues
      → env.sync_to ≡ none
      → (s.virtqs i).call_fd ≡ some fd
      → Returns
          (send_virtq_buf server env.sync_to s buf i)
          (λ t. (t.virtqs i ≡ given_back (s.virtqs i) buf) × (t.regions ≡ s.regions))
  unfolding send_virtq_buf
  send_lem s buf fd h n c =
      rw (n, lt→ltb i server.max_queues h, c)
        (
          rw (==_refl i)
              (ap (λ (k : Option ℕ). record (given_back (s.virtqs i) buf) { call_fd = k }) c),
          refl,
        )

  round_Returns :
      {T : Type 0} (next : Vhost E × Buf → Vhost E → Result T) (P : T → Type 0)
      → HandlesWell
      → i < server.max_queues
      → env.sync_to ≡ none
      → (s : Vhost E) (buf : Buf) (fd : ℕ) → (s.virtqs i).call_fd ≡ some fd
      → ((h : Vhost E × Buf) (t : Vhost E)
          → Stepped (s.virtqs i) s.regions t
          → Returns (next h t) P)
      → Returns
          (env.handle (taken server s i) buf i >>= λ h.
            send_virtq_buf server env.sync_to h.0 h.1 i >>= next h)
          P
  round_Returns next P w m n s buf fd c f =
      Returns-bind (env.handle (taken server s i) buf i) _ _ _ (w (taken server s i) buf) (λ r k.
        let e : r.0.virtqs i ≡ next_taken (s.virtqs i) = rw (k.0, ==_refl i) refl in
        Returns-bind (send_virtq_buf server env.sync_to r.0 r.1 i) _ _ _
          (send_lem r.0 r.1 fd m n (ap (λ (q : Virtq). q.call_fd) e ∙ c))
          (λ t h. f r t (r.1, h.0 ∙ ap (λ (q : Virtq). given_back q r.1) e, h.1 ∙ k.1)))

  get_virtq_buf-none :
      (fuel : ℕ) (fixed : Option Fixed) (s : Vhost E)
      → i < server.max_queues
      → virtq_empty (s.virtqs i) ≡ true
      → get_virtq_buf server fuel env.has_memory s i fixed ≡ ok (s, none)
  unfolding get_virtq_buf
  get_virtq_buf-none fuel fixed s h e = rw (lt→ltb i server.max_queues h, e) refl

  module _ (bound : ℕ) (va : ℕ → ℕ) where
    -- For a server without a controller to synchronise with (no sync_to), memory for every buffer, and a
    -- handler that returns and leaves the queues and the regions alone: a queue of the server that the
    -- guest has set up well, with a descriptor for its calls, is handled until it is empty, for more fuel
    -- than there are entries pending and descriptors in the longest chain together. As many entries are
    -- given back as were pending.
    pub handle_queue_drains :
        HandlesWell
        → i < server.max_queues
        → env.sync_to ≡ none
        → env.has_memory ≡ true
        → (fuel : ℕ) (fixed : Fixed) (s : Vhost E) → IsReady bound va (s.virtqs i) s.regions
        → pending (s.virtqs i) + bound < fuel
        → Returns (handle_queue server env fuel fixed s i) (λ t.
          (virtq_empty (t.virtqs i) ≡ true)
          × ((t.virtqs i).virtq.avail_idx ≡ (s.virtqs i).virtq.avail_idx)
          × ((t.virtqs i).virtq.used_idx % 2 ^ 16
              ≡ ((s.virtqs i).virtq.used_idx + pending (s.virtqs i)) % 2 ^ 16))
    unfolding handle_queue
    handle_queue_drains w l n m zero fixed s h enough = absurd (omega arith)
    handle_queue_drains w l n m (suc fuel) fixed s h enough =
        elim (Bool-cases (virtq_empty (s.virtqs i))) [
          | inl e ↦ rw (get_virtq_buf-none (suc fuel) (some fixed) s l e) (e, refl, ground arith)
          | inr e ↦
              let g = h.chains (first_desc server s i) (h.entries _) in
              rw
                (
                  m,
                  get_virtq_buf-Chain server s i (suc fuel) (some fixed) va g.0 l e (h.entries _)
                      g.1 g.2 (omega arith),
                )
                (round_Returns _ _ w l n s _ h.call_fd h.calls (λ r t k.
                  let b = k.0 in
                  Returns-mono (handle_queue server env fuel (reuse server env fixed r.1) t i) _ _
                    (handle_queue_drains w l n m fuel (reuse server env fixed r.1) t
                      (rw (k.1, k.2) (given_back-IsReady bound va (s.virtqs i) s.regions b h))
                      (rw k.1 (
                        fuel_step _ _ _ _ enough
                          (pending_step (s.virtqs i) k.0 e h.avail_idx h.last_avail_idx))))
                    (λ u c. (
                      c.0,
                      c.1 ∙ rw k.1 refl,
                      c.2 ∙ rw k.1 (ground (arith, e, h.avail_idx, h.last_avail_idx)),
                    ))))
        ]
