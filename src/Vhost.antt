-- ===== src/Vhost.antt =====
-- src/vhost.c: the server side of a vhost-user device. The children hold the scatter-gather lists
-- (Iov), the buffers of the rings (Buffer), the queues and their interrupts (Queue), and the messages
-- of the connection (Message).
pub mod Iov
pub mod Buffer
pub mod Queue
pub mod Message
mod Tests
use usfstl.Base.{
  ℕ, ◌+◌, ◌-◌, Bool, true, false, ◌&&◌, Option, none, some, List, [], ◌∷◌, ltb, leb, ◌==◌,
  if◌then◌else◌, Result, ok, abort, assert, ◌>>=◌, ◌>>◌,
}
use usfstl.Time.{add64}
use usfstl.Sched.{Sched}

-- struct vhost_user_region with its mapping: `vaddr` and `fd` are region_vaddr and region_fds.
pub record Region : Type 0 where
  pub user_addr : ℕ  -- uint64_t
  pub size : ℕ  -- uint64_t
  pub mmap_offset : ℕ
  pub vaddr : ℕ
  pub fd : Option ℕ

-- struct vring_desc, with the two bits of its flags that the code reads.
pub record Desc : Type 0 where
  pub addr : ℕ
  pub len : ℕ
  pub writes : Bool  -- VRING_DESC_F_WRITE
  pub more : Bool  -- VRING_DESC_F_NEXT
  pub next : ℕ

-- struct vring: the rings as the guest's memory holds them.
pub record Ring : Type 0 where
  pub num : ℕ
  pub desc : ℕ → Desc
  pub avail_idx : ℕ  -- uint16_t
  pub avail : ℕ → ℕ
  pub used_idx : ℕ  -- uint16_t
  pub used : ℕ → ℕ × ℕ

-- An entry of `virtqs`. `kick_fd` is entry.fd, `none` for -1, and `registered` tells whether the
-- entry is in the main loop.
pub record Virtq : Type 0 where
  pub enabled : Bool
  pub triggered : Bool
  pub virtq : Ring
  pub call_fd : Option ℕ
  pub last_avail_idx : ℕ  -- uint16_t
  pub kick_fd : Option ℕ
  pub registered : Bool

-- struct iovec.
pub record Iovec : Type 0 where
  pub iov_base : ℕ
  pub iov_len : ℕ

-- struct usfstl_vhost_user_buf.
pub record Buf : Type 0 where
  pub in_sg : List Iovec
  pub out_sg : List Iovec
  pub written : ℕ
  pub virtq_idx : ℕ
  pub idx : ℕ
  pub allocated : Bool

-- What goes out on the device's file descriptors.
pub data Notice : Type 0 where
  call : ℕ → Notice
  vring_call : ℕ → Notice
  config_change : Notice

-- struct usfstl_vhost_user_server, with the memory of its configuration space left out.
pub record Server : Type 0 where
  pub max_queues : ℕ
  pub input_queues : ℕ → Bool
  pub interrupt_latency : ℕ
  pub deferred_handling : Bool
  pub has_scheduler : Bool
  pub features : ℕ
  pub protocol_features : ℕ
  pub config_len : Option ℕ

-- struct usfstl_vhost_user_dev_int. Job `irq_job` of the scheduler is the device's; `notices` are the
-- last first.
pub record Vhost (E : Type 0) : Type 0 where
  pub features : ℕ
  pub protocol_features : ℕ
  pub regions : List Region
  pub virtqs : ℕ → Virtq
  pub req_fd : Option ℕ
  pub irq_job : ℕ
  pub sched : Sched E
  pub notices : List Notice

module _ {E : Type 0} where
  abbrev pub set_virtq : Vhost E → ℕ → Virtq → Vhost E
  set_virtq s i v = record s { virtqs = λ j. if i == j then v else s.virtqs j }

  -- dev->virtqs has max_queues entries: an access behind them is not defined.
  abbrev pub virtq_at : Server → Vhost E → ℕ → Result Virtq
  virtq_at server s i = if ltb i server.max_queues then ok (s.virtqs i) else abort "undefined"

-- usfstl_vhost_user_to_va, over the regions.
unfoldable pub to_va : List Region → ℕ → Result ℕ
to_va [] addr = abort "cannot translate address"
to_va (r ∷ rs) addr =
    let rest = to_va rs addr in
    if leb r.user_addr addr && ltb addr (add64 r.user_addr r.size)
    then ok (r.vaddr + (addr - r.user_addr))
    else rest
