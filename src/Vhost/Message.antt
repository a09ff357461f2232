-- ===== src/Vhost/Message.antt =====
-- src/vhost.c: the messages of a vhost-user connection, and the end of the connection.
pub mod Bounds
use usfstl.Base.{
  ℕ, zero, suc, ◌+◌, ◌-◌, ◌*◌, ◌/◌, ◌%◌, ◌^◌, Bool, true, false, ◌&&◌, ◌||◌, not, Option, none,
  some, List, [], ◌∷◌, length, ltb, leb, ◌==◌, if◌then◌else◌, Result, ok, abort, assert, ◌>>=◌,
  ◌>>◌,
}
use usfstl.Sched.{Sched, del_job}
use usfstl.Vhost.{
  Region, Ring, Desc, Virtq, Notice, config_change, Vhost, Server, set_virtq, virtq_at, to_va,
}
use usfstl.Vhost.Queue.{Env, virtq_kick}

-- The requests with their payloads and the file descriptors that come with them, the regions with the
-- addresses at which mmap places them; `unsupported` is any
-- other request, `malformed` one whose length does not fit.
pub data Request : Type 0 where
  get_features : Request
  set_features : ℕ → Request
  set_owner : Request
  set_mem_table : List Region → Request
  set_vring_num : ℕ → ℕ → Request
  set_vring_addr : ℕ → ℕ → ℕ → ℕ → ℕ → Request
  set_vring_base : Request
  set_vring_kick : ℕ → Option ℕ → Request
  set_vring_call : ℕ → Option ℕ → Request
  get_protocol_features : Request
  set_vring_enable : ℕ → ℕ → Request
  set_protocol_features : ℕ → Request
  set_slave_req_fd : Option ℕ → Request
  get_config : ℕ → ℕ → Request
  vring_kick : ℕ → ℕ → Request
  unsupported malformed : Request

-- The reply: a number, or the first bytes of the configuration space.
pub data Reply : Type 0 where
  u64 : ℕ → Reply
  config : ℕ → Reply

-- msg.payload.u64 & VHOST_USER_U64_VRING_IDX_MSK, and the bit VHOST_USER_U64_NO_FD.
abbrev pub vring_idx : ℕ → ℕ
vring_idx n = n % 2 ^ 7

abbrev pub no_fd : ℕ → Bool
no_fd n = n / 2 ^ 7 % 2 == 1

-- n | 1ULL << bit.
abbrev pub set_bit : ℕ → ℕ → ℕ
set_bit n bit = if n / 2 ^ bit % 2 == 1 then n else n + 2 ^ bit

-- The rings that the guest's memory holds at the addresses of descriptors, used and available ring.
abbrev pub Memory : Type 0
Memory = ℕ → ℕ → ℕ → Ring

-- usfstl_vhost_user_update_virtq_kick: `registered` follows the list of the main loop.
unfoldable pub update_virtq_kick : Virtq → Option ℕ → Result Virtq
update_virtq_kick q fd = do
  q' ← elim q.kick_fd [
    | none ↦ ok q
    | some old ↦ do assert q.registered "undefined"; ok (record q { registered = false })
  ]
  ok (elim fd [ none ↦ q' | some new ↦ record q' { kick_fd = some new; registered = true } ])

-- A message that carries no descriptor leaves the variable of the code alone.
abbrev pub msg_fd : Option ℕ → Option ℕ → Option ℕ
msg_fd old none = old
msg_fd old (some fd) = some fd

abbrev pub set_call : Virtq → Option ℕ → Virtq
set_call q fd = record q { call_fd = fd }

abbrev pub with_config : ℕ → Option ℕ → ℕ
with_config bits none = bits
with_config bits (some n) = if n == 0 then bits else set_bit bits 9

-- The descriptor of a new kick: without NO_FD, a message that carries none leaves it undefined.
abbrev pub kick_target : ℕ → Option ℕ → Result (Option ℕ)
kick_target n none = if no_fd n then ok none else abort "undefined"
kick_target n (some fd) = if no_fd n then ok none else ok (some fd)

-- The reply that is sent: the request's own, or 0 if one is asked for.
abbrev pub reply_of : Option Reply → Bool → Option Reply
reply_of (some r) need_reply = some r
reply_of none true = some (u64 0)
reply_of none false = none

module _ {E : Type 0} (server : Server) (env : Env E) (memory : Memory) where
  abbrev pub set_ring : Virtq → ℕ → ℕ → ℕ → Virtq
  set_ring q desc used avail = record q {
    last_avail_idx = 0;
    virtq = record (memory desc used avail) { num = q.virtq.num };
  }

  abbrev pub protocol_bits : ℕ
  protocol_bits =
      set_bit (set_bit (set_bit (with_config server.protocol_features server.config_len) 5) 10) 3

  -- The switch of usfstl_vhost_user_handle_msg.
  unfoldable pub handle_request : ℕ → Vhost E → Request → Result (Vhost E × Option Reply)
  unfolding update_virtq_kick
  handle_request fuel s get_features = ok (s, some (u64 (set_bit server.features 30)))
  handle_request fuel s (set_features n) = ok (record s { features = n }, none)
  handle_request fuel s set_owner = ok (s, none)
  handle_request fuel s (set_mem_table regions) = do
    assert (leb (length regions) 2) "n_regions <= MAX_REGIONS"
    ok (record s { regions = regions }, none)
  handle_request fuel s (set_vring_num i num) = do
    assert (ltb i server.max_queues) "idx < max_queues"
    q ← virtq_at server s i
    ok (set_virtq s i (record q { virtq = record q.virtq { num = num } }), none)
  handle_request fuel s (set_vring_addr i flags desc used avail) = do
    assert (leb i server.max_queues) "idx <= max_queues"
    assert (flags == 0) "flags == 0"
    q ← virtq_at server s i
    assert (not q.enabled) "!enabled"
    desc_va ← to_va s.regions desc
    used_va ← to_va s.regions used
    avail_va ← to_va s.regions avail
    ok (set_virtq s i (set_ring q desc_va used_va avail_va), none)
  handle_request fuel s set_vring_base = ok (s, none)
  handle_request fuel s (set_vring_kick n fd) = do
    assert (leb (vring_idx n) server.max_queues) "virtq <= max_queues"
    q ← virtq_at server s (vring_idx n)
    target ← kick_target n fd
    q' ← update_virtq_kick q target
    ok (set_virtq s (vring_idx n) q', none)
  handle_request fuel s (set_vring_call n fd) = do
    assert (leb (vring_idx n) server.max_queues) "virtq <= max_queues"
    q ← virtq_at server s (vring_idx n)
    ok (
      set_virtq s (vring_idx n)
          (if no_fd n then set_call q none else set_call q (msg_fd q.call_fd fd)),
      none,
    )
  handle_request fuel s get_protocol_features = ok (s, some (u64 protocol_bits))
  handle_request fuel s (set_vring_enable i num) = do
    assert (ltb i server.max_queues) "idx < max_queues"
    q ← virtq_at server s i
    ok (set_virtq s i (record q { enabled = not (num == 0) }), none)
  handle_request fuel s (set_protocol_features n) = ok (record s { protocol_features = n }, none)
  handle_request fuel s (set_slave_req_fd fd) = elim (msg_fd s.req_fd fd) [
    | none ↦ abort "dev->req_fd != -1"
    | some new ↦ ok (record s { req_fd = some new }, none)
  ]
  handle_request fuel s (get_config offset size) = elim server.config_len [
    | none ↦ abort "config && config_len"
    | some n ↦ do
      assert (ltb 0 n) "config && config_len"
      assert (offset == 0) "offset == 0"
      assert (leb size n) "size <= config_len"
      ok (s, some (config size))
  ]
  handle_request fuel s (vring_kick i num) = do
    assert (ltb i server.max_queues) "idx < max_queues"
    assert (num == 0) "num == 0"
    s' ← virtq_kick server env fuel s i
    ok (s', none)
  handle_request fuel s unsupported = abort "Unsupported message"
  handle_request fuel s malformed = abort "len"

  unfoldable pub handle_msg : ℕ → Vhost E → Request → Bool → Result (Vhost E × Option Reply)
  handle_msg fuel s msg need_reply =
      handle_request fuel s msg >>= λ r. ok (r.0, reply_of r.1 need_reply)

module _ {E : Type 0} where
  -- The loop of usfstl_vhost_user_dev_free over the queues.
  unfoldable pub free_virtqs : ℕ → ℕ → Vhost E → Result (Vhost E)
  free_virtqs zero i s = ok s
  free_virtqs (suc n) i s = do
    q ← update_virtq_kick (s.virtqs i) none
    free_virtqs n (i + 1) (set_virtq s i q)

  -- usfstl_vhost_user_config_changed.
  unfoldable pub config_changed : Vhost E → Vhost E
  config_changed s =
      if s.protocol_features / 2 ^ 9 % 2 == 1
      then record s { notices = config_change ∷ s.notices }
      else s

module _ {E : Type 0} (server : Server) (env : Env E) where
  -- usfstl_vhost_user_dev_free, up to the callback and the release of memory and descriptors.
  unfoldable pub dev_free : Vhost E → Result (Vhost E)
  dev_free s0 = do
    s ← free_virtqs server.max_queues 0 (record s0 { sched = del_job s0.sched s0.irq_job })
    elim env.sync_from [
      | none ↦ ok (record s { regions = []; req_fd = none })
      | some f ↦ f (record s { regions = []; req_fd = none })
    ]
