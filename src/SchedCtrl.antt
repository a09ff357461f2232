-- ===== src/SchedCtrl.antt =====
-- src/schedctrl.c: a scheduler whose runtime an external controller grants, by messages on a socket
-- or through shared memory.
pub mod Client
pub mod Control
pub mod Shared
pub mod Messages
pub mod Answers
mod Tests
use usfstl.Base.{
  ℕ, zero, suc, ◌+◌, ◌-◌, ◌*◌, ◌/◌, ◌%◌, ◌^◌, Bool, true, false, not, ◌&&◌, ◌||◌, Option, none,
  some, List, [], ◌∷◌, ltb, leb, ◌==◌, if◌then◌else◌, Result, ok, abort, assert, ◌>>=◌, ◌>>◌,
}
use usfstl.Time.{add64, sub64, mul64}
use usfstl.Sched.{Sched, Hooks, ReqStatus, can_run, wait, sched_time, next_pending}
use usfstl.Sched.Advance.{set_time, set_sync_time}
use usfstl.Sched.Link.{div_round_up}
use usfstl.Shm.{
  Op, op_ack, op_start, op_request, op_wait, op_get, op_update, op_run, op_free_until, op_get_tod,
  op_broadcast, Msg, ShmClient, Shm, client_at, set_client,
}

-- The descriptors that come with a message: their number, and the memory behind the first.
pub record Fds : Type 0 where
  pub num_fds : ℕ
  pub memfd : Shm

-- What the main loop has to handle next: a message of the socket, or something else.
pub data Event : Type 0 where
  message : Msg → Option Fds → Event
  other : ℕ → Event

-- struct usfstl_sched_ctrl. `handles_start` tells whether handle_msg_fds is the function for the ACK of
-- START, or NULL; `seq` and `old_expected` are static variables of usfstl_sched_ctrl_send_msg; `sent` has
-- the messages that were written, the last first. A write succeeds.
pub record Ctrl (F : Type 0) : Type 0 where
  pub ack_time : ℕ  -- uint64_t
  pub offset : ℕ  -- int64_t, by its bits
  pub nsec_per_tick : ℕ  -- uint32_t
  pub waiting : Bool
  pub acked : Bool
  pub frozen : Bool
  pub started : Bool
  pub expected_ack_seq : ℕ  -- uint32_t
  pub id : ℕ  -- uint16_t
  pub mem : Option Shm
  pub handles_start : Bool
  pub seq : ℕ
  pub old_expected : ℕ
  pub sent : List Msg
  pub inbox : List Event
  pub env : F

abbrev pub CtrlSched : Type 0 → Type 0
CtrlSched F = Sched (Ctrl F)

-- What the user of the library provides: the scheduler's other callbacks, the handler for broadcast
-- messages, and what else the main loop handles.
pub record User (F : Type 0) : Type 0 where
  pub own : Hooks (Ctrl F)
  pub handle_bc_message : Option (CtrlSched F → ℕ → Result (CtrlSched F))
  pub handle_other : ℕ → CtrlSched F → Result (CtrlSched F)

abbrev pub is_op_wait : Op → Bool
is_op_wait op_wait = true
is_op_wait _ = false

abbrev pub is_op_get : Op → Bool
is_op_get op_get = true
is_op_get _ = false

abbrev pub has_mem : Option Shm → Bool
has_mem none = false
has_mem (some m) = true

-- do { seq++; } while (seq == 0);
abbrev pub next_seq : ℕ → ℕ
next_seq seq = if (seq + 1) % 2 ^ 32 == 0 then 1 else (seq + 1) % 2 ^ 32

module _ {F : Type 0} where
  abbrev pub with_ctrl : CtrlSched F → Ctrl F → CtrlSched F
  with_ctrl s c = record s { env = c }

  abbrev pub to_wire : Ctrl F → ℕ → ℕ
  to_wire c time = add64 (mul64 time c.nsec_per_tick) c.offset

  -- _usfstl_sched_ctrl_send_msg
  abbrev pub write_msg : CtrlSched F → Op → ℕ → ℕ → CtrlSched F
  write_msg s op time seq =
      with_ctrl s (record s.env { sent = record { op = op; seq = seq; time = time } ∷ s.env.sent })

  -- The memory, where the code dereferences the pointer.
  abbrev pub the_mem : CtrlSched F → Result Shm
  the_mem s = elim s.env.mem [ none ↦ abort "shm.mem is NULL" | some m ↦ ok m ]

  abbrev pub set_mem : CtrlSched F → Shm → CtrlSched F
  set_mem s m = with_ctrl s (record s.env { mem = some m })

  -- _schedctrl_get_time: the value, and the state with the offset that a frozen scheduler stores.
  abbrev pub shm_now : Ctrl F → Shm → ℕ → ℕ
  shm_now c m current =
      if c.frozen then current else div_round_up (sub64 m.current_time c.offset) c.nsec_per_tick

  unfoldable pub schedctrl_get_time : CtrlSched F → Result (CtrlSched F × ℕ)
  schedctrl_get_time s = the_mem s >>= λ m.
      if s.env.frozen
      then ok (
        with_ctrl s (record s.env {
          offset = sub64 m.current_time (mul64 s.current_time s.env.nsec_per_tick);
        }),
        s.current_time,
      )
      else ok (s, shm_now s.env m s.current_time)
