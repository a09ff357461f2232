-- ===== src/Vhost/Tests.antt =====
-- A device with one queue of four entries, two of them available.
use usfstl.Base.{
  ℕ, zero, suc, ◌+◌, ◌-◌, ◌%◌, ◌^◌, ◌≡◌, refl, arith, true, false, none, some, List, [], ◌∷◌, take,
  drop, ok, abort, Returns,
}
use usfstl.Sched.{Sched, Hooks}
use usfstl.Vhost.{Region, Desc, Virtq, Vhost, Server, to_va}
use usfstl.Vhost.Iov.{iov_len, iov_fill, iov_read}
use usfstl.Vhost.Iov.Copies.{bytes_of, iov_read-iov_fill}
use usfstl.Vhost.Buffer.{get_virtq_buf, virtq_empty}
use usfstl.Vhost.Buffer.Chain.{Chain, taken, get_virtq_buf-Chain}
use usfstl.Vhost.Queue.{Env, handle_queue, prealloc, dev_notify}
use usfstl.Vhost.Queue.Drain.{IsReady, GoodChain, handle_queue_drains}
use usfstl.Vhost.Message.{
  Memory, handle_request, set_vring_num, set_vring_addr, set_vring_kick, set_vring_call,
  set_vring_enable, vring_kick,
}
use usfstl.Vhost.Message.Bounds.{handle_request-max_queues}

iov_read-iov_fill_example :
    (iov_read 3 (iov_fill ((0 ∷ 0 ∷ []) ∷ (0 ∷ 9 ∷ []) ∷ []) (1 ∷ 2 ∷ 3 ∷ [])).0
      ≡ take 3 (1 ∷ 2 ∷ 3 ∷ []))
    × ((iov_fill ((0 ∷ 0 ∷ []) ∷ (0 ∷ 9 ∷ []) ∷ []) (1 ∷ 2 ∷ 3 ∷ [])).1 ≡ 3)
    × (drop 3 (bytes_of (iov_fill ((0 ∷ 0 ∷ []) ∷ (0 ∷ 9 ∷ []) ∷ []) (1 ∷ 2 ∷ 3 ∷ [])).0)
        ≡ drop 3 (bytes_of ((0 ∷ 0 ∷ []) ∷ (0 ∷ 9 ∷ []) ∷ [])))
unfolding iov_fill iov_len
iov_read-iov_fill_example =
    iov_read-iov_fill ((0 ∷ 0 ∷ []) ∷ (0 ∷ 9 ∷ []) ∷ []) (1 ∷ 2 ∷ 3 ∷ []) 3 (omega arith)
      (omega arith)

-- A chain from descriptor 0 to 1: the first is read, the second is written.
abbrev demo_desc : ℕ → Desc
demo_desc zero = record { addr = 256; len = 8; writes = false; more = true; next = 1 }
demo_desc (suc i) = record { addr = 512; len = 4; writes = true; more = false; next = 0 }

abbrev demo_virtq : Virtq
demo_virtq = record {
  enabled = true;
  triggered = false;
  virtq = record {
    num = 4;
    desc = demo_desc;
    avail_idx = 1;
    avail = λ p. 0;
    used_idx = 65535;
    used = λ p. (0, 0);
  };
  call_fd = some 8;
  last_avail_idx = 65535;
  kick_fd = some 7;
  registered = true;
}

abbrev demo_regions : List Region
demo_regions =
    record { user_addr = 256; size = 4096; mmap_offset = 0; vaddr = 20480; fd = none } ∷ []

abbrev demo_va : ℕ → ℕ
demo_va addr = 20480 + (addr - 256)

abbrev demo_sched : Sched ℕ
demo_sched = record {
  current_time = 0;
  prev_external_sync = 0;
  next_external_sync = 0;
  joblist = [];
  pending_jobs = [];
  allowed_job = none;
  blocked_groups = 0;
  next_external_sync_set = false;
  prev_external_sync_set = false;
  waiting = false;
  jobs = λ j. record { start = 0; priority = 0; group = 0; blocked = false; pending = false };
  env = 0;
}

abbrev demo : Vhost ℕ
demo = record {
  features = 0;
  protocol_features = 0;
  regions = demo_regions;
  virtqs = λ i. demo_virtq;
  req_fd = none;
  irq_job = 0;
  sched = demo_sched;
  notices = [];
}

abbrev demo_server : Server
demo_server = record {
  max_queues = 1;
  input_queues = λ i. true;
  interrupt_latency = 10;
  deferred_handling = false;
  has_scheduler = false;
  features = 0;
  protocol_features = 0;
  config_len = none;
}

abbrev demo_hooks : Hooks ℕ
demo_hooks = record {
  external_request = none;
  external_wait = none;
  external_get_time = none;
  external_set_time = none;
  time_advanced = none;
  next_time_changed = none;
  disable_skip = false;
  callback = λ j s. ok s;
}

-- The handler says that it wrote four bytes.
abbrev demo_env : Env ℕ
demo_env = record {
  handle = λ s buf i. ok (s, record buf { written = 4 });
  hooks = demo_hooks;
  sync_to = none;
  sync_from = none;
  has_memory = true;
}

get_virtq_buf-Chain_example :
    get_virtq_buf demo_server 2 true demo 0 (some prealloc)
    ≡ ok (
      taken demo_server demo 0,
      some (record {
        in_sg = record { iov_base = 20736; iov_len = 4 } ∷ [];
        out_sg = record { iov_base = 20480; iov_len = 8 } ∷ [];
        written = 0;
        virtq_idx = 0;
        idx = 0;
        allocated = false;
      }),
    )
unfolding to_va
get_virtq_buf-Chain_example =
    get_virtq_buf-Chain demo_server demo 0 2 (some prealloc) demo_va
      (demo_desc 0 ∷ demo_desc 1 ∷ []) (omega arith) refl (omega arith)
      (Chain.link 0 refl (Chain.last 1 refl)) (refl, (refl, tt)) (omega arith)

demo-GoodChain : (head : ℕ) → GoodChain 2 demo_va demo_virtq demo_regions head
unfolding to_va
demo-GoodChain zero = (
  demo_desc 0 ∷ demo_desc 1 ∷ [],
  Chain.link 0 refl (Chain.last 1 refl),
  (refl, (refl, tt)),
  omega arith,
)
demo-GoodChain (suc n) = (demo_desc 1 ∷ [], Chain.last (suc n) refl, (refl, tt), omega arith)

demo-IsReady : IsReady 2 demo_va demo_virtq demo_regions
demo-IsReady = record {
  chains = λ head h. demo-GoodChain head;
  entries = λ p. omega arith;
  avail_idx = omega arith;
  last_avail_idx = omega arith;
  call_fd = 8;
  calls = refl;
}

-- Two entries are pending, over the wrap-around of both indices.
handle_queue_drains_example : Returns (handle_queue demo_server demo_env 5 prealloc demo 0) (λ t.
    (virtq_empty (t.virtqs 0) ≡ true)
    × ((t.virtqs 0).virtq.avail_idx ≡ 1)
    × ((t.virtqs 0).virtq.used_idx % 2 ^ 16 ≡ (65535 + 2) % 2 ^ 16))
handle_queue_drains_example =
    handle_queue_drains demo_server demo_env 0 2 demo_va (λ s buf. (refl, refl)) (omega arith) refl
      refl 5 prealloc demo demo-IsReady (omega arith)

abbrev demo_memory : Memory
demo_memory desc used avail = demo_virtq.virtq

handle_request-max_queues_example :
    (handle_request demo_server demo_env demo_memory 0 demo (set_vring_addr 1 0 256 512 768)
      ≡ abort "undefined")
    × (handle_request demo_server demo_env demo_memory 0 demo (set_vring_kick 1 (some 9))
        ≡ abort "undefined")
    × (handle_request demo_server demo_env demo_memory 0 demo (set_vring_call 1 (some 9))
        ≡ abort "undefined")
    × (dev_notify demo_server demo_env 0 demo 1 4 ≡ abort "undefined")
    × (handle_request demo_server demo_env demo_memory 0 demo (set_vring_num 1 4)
        ≡ abort "idx < max_queues")
    × (handle_request demo_server demo_env demo_memory 0 demo (set_vring_enable 1 4)
        ≡ abort "idx < max_queues")
    × (handle_request demo_server demo_env demo_memory 0 demo (vring_kick 1 4)
        ≡ abort "idx < max_queues")
handle_request-max_queues_example =
    handle_request-max_queues demo_server demo_env demo_memory 0 demo 1 4 256 512 768 4 (some 9)
      refl
