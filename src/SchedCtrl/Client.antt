-- ===== src/SchedCtrl/Client.antt =====
-- src/schedctrl.c: the operations.
use usfstl.Base.{
  ℕ, zero, suc, ◌/◌, ◌%◌, ◌^◌, true, false, not, ◌&&◌, Option, none, some, List, [], ◌∷◌, leb, ◌==◌,
  if◌then◌else◌, Result, ok, abort, assert, ◌>>=◌, ◌>>◌,
}
use usfstl.Time.{sub64, mul64, time_lt, time_le, time_ge}
use usfstl.Sched.{Hooks, ReqStatus, can_run, wait, sched_time}
use usfstl.Sched.Advance.{set_time, set_sync_time}
use usfstl.Sched.Link.{div_round_up}
use usfstl.Shm.{
  Op, op_ack, op_start, op_request, op_wait, op_get, op_update, op_run, op_free_until, op_get_tod,
  op_broadcast, Msg, Shm, client_at, set_client,
}
use usfstl.SchedCtrl.{
  Fds, Event, message, other, Ctrl, CtrlSched, User, is_op_wait, is_op_get, has_mem, next_seq,
  with_ctrl, to_wire, write_msg, the_mem, set_mem, shm_now,
}

module _ {F : Type 0} where
  -- _schedctrl_set_time
  unfoldable pub schedctrl_set_time : CtrlSched F → ℕ → Result (CtrlSched F)
  schedctrl_set_time s time = do
    m ← the_mem s
    let new_time = to_wire s.env time in
        do
          assert (not s.env.frozen) "!ctrl->frozen"
          assert (m.running_id == s.env.id) "running_id == id"
          assert (time_ge new_time m.current_time) "new_time >= old_time"
          assert (time_le new_time m.free_until) "new_time <= free_until"
          ok (set_mem s (record m { current_time = new_time }))

  -- The part of _schedctrl_request_shm where the running client shares memory.
  unfoldable pub request_in_shm : CtrlSched F → Shm → ℕ → Result (CtrlSched F × ReqStatus)
  request_in_shm s m req_time =
      let earlier = time_lt req_time m.free_until in
      let m' = if earlier then record m { free_until = req_time } else m in
      do
        assert (time_ge req_time m.current_time) "req_time >= current_time"
        if earlier && not s.env.waiting then ok (s, can_run) else (do
          self ← client_at m' s.env.id
          ok (
            set_mem s (set_client m' s.env.id (record self { req_time = req_time; flags = true })),
            wait,
          ))

  -- The time a scheduler reads is that of the memory once it has one. The offset that a read stores while the
  -- scheduler is frozen is not part of it.
  abbrev pub shm_get_time : Ctrl F → ℕ → ℕ
  shm_get_time c current = elim c.mem [ none ↦ current | some m ↦ shm_now c m current ]

  abbrev pub time_hooks : Hooks (Ctrl F) → Option Shm → Hooks (Ctrl F)
  time_hooks own none = record own { external_get_time = none; external_set_time = none }
  time_hooks own (some m) = record own {
    external_get_time = some shm_get_time;
    external_set_time = some schedctrl_set_time;
  }

  -- _schedshm_handle_fds, then the rest of _sched_ctrl_ack_start_handle.
  unfoldable pub attach : CtrlSched F → Shm → Result (CtrlSched F)
  attach s m = do
    assert (not (has_mem s.env.mem)) "ctrl->shm.mem == NULL"
    if m.version == 2
        then (do
          self ← client_at m s.env.id
          ok (
              with_ctrl s (record s.env {
                mem = some (set_client m s.env.id (record self { capa = true }));
                offset = sub64 m.current_time (mul64 s.current_time s.env.nsec_per_tick);
              })))
        else ok s

  unfoldable pub ack_start_handle : CtrlSched F → Msg → Fds → Result (CtrlSched F)
  unfolding attach
  ack_start_handle s msg fds = do
    assert (fds.num_fds == 2) "nr_fds == UM_TIMETRAVEL_SHARED_MAX_FDS"
    attach (with_ctrl s (record s.env { id = msg.time % 2 ^ 16; handles_start = false })) fds.memfd

  unfoldable pub handle_fds : CtrlSched F → Msg → Option Fds → Result (CtrlSched F)
  unfolding ack_start_handle
  handle_fds s msg none = ok s
  handle_fds s msg (some fds) = do
    assert (leb fds.num_fds 2) "fds <= max_fds"
    if s.env.handles_start && not (fds.num_fds == 0) then ack_start_handle s msg fds else ok s

abbrev pub put_back : List Event → List Event → List Event
put_back [] events = events
put_back (e ∷ before) events = put_back before (e ∷ events)

module _ {F : Type 0} (user : User F) where
  abbrev pub reply : Msg → CtrlSched F → CtrlSched F
  reply msg s = write_msg s op_ack 0 msg.seq

  unfoldable pub handle_ack : CtrlSched F → Msg → Option Fds → Result (CtrlSched F)
  handle_ack s msg fds =
      if msg.seq == s.env.expected_ack_seq
      then handle_fds (with_ctrl s (record s.env { acked = true; ack_time = msg.time })) msg fds
      else ok s

  unfoldable pub handle_run : CtrlSched F → Msg → Result (CtrlSched F)
  handle_run s0 msg =
      let s = with_ctrl s0 (record s0.env { waiting = false }) in
      elim s.env.mem [
        | some m ↦ do assert (m.running_id == s.env.id) "running_id == id"; ok s
        | none ↦ do
          s' ←
              set_time (time_hooks user.own s.env.mem) s
                (div_round_up (sub64 msg.time s.env.offset) s.env.nsec_per_tick)
          ok (reply msg s')
      ]

  -- usfstl_sched_ctrl_sock_read
  unfoldable pub sock_read : CtrlSched F → Msg → Option Fds → Result (CtrlSched F)
  unfolding handle_ack handle_run
  sock_read s msg fds = elim msg.op [
    | op_ack ↦ handle_ack s msg fds
    | op_run ↦ handle_run s msg
    | op_free_until ↦ do
      s' ←
          set_sync_time (time_hooks user.own s.env.mem) s
            (sub64 msg.time s.env.offset / s.env.nsec_per_tick)
      ok (reply msg s')
    | op_broadcast ↦ do
      s' ← elim user.handle_bc_message [ none ↦ ok s | some f ↦ f s msg.time ]
      ok (reply msg s')
    | op_start ↦ abort "0"
    | op_request ↦ abort "0"
    | op_wait ↦ abort "0"
    | op_get ↦ abort "0"
    | op_update ↦ abort "0"
    | op_get_tod ↦ abort "0"
  ]

  -- usfstl_loop_wait_and_handle blocks if nothing is left to handle.
  unfoldable pub handle_event : CtrlSched F → List Event → Result (CtrlSched F)
  handle_event s [] = abort "blocked"
  handle_event s (message msg fds ∷ events) =
      sock_read (with_ctrl s (record s.env { inbox = events })) msg fds
  handle_event s (other k ∷ events) =
      user.handle_other k (with_ctrl s (record s.env { inbox = events }))

  -- The next message of the socket, with what else there is left alone.
  unfoldable pub read_first : CtrlSched F → List Event → List Event → Result (CtrlSched F)
  read_first s before [] = abort "blocked"
  read_first s before (message msg fds ∷ events) =
      sock_read (with_ctrl s (record s.env { inbox = put_back before events })) msg fds
  read_first s before (other k ∷ events) = read_first s (other k ∷ before) events

  -- while (!ctrl->acked) and while (ctrl->waiting), for a number of rounds.
  unfoldable pub wait_acked : ℕ → CtrlSched F → Result (CtrlSched F)
  wait_acked zero s = if s.env.acked then ok s else abort "out of fuel"
  wait_acked (suc fuel) s =
      if s.env.acked then ok s else (handle_event s s.env.inbox >>= λ s'. wait_acked fuel s')

  unfoldable pub wait_run : ℕ → CtrlSched F → Result (CtrlSched F)
  wait_run zero s = if s.env.waiting then abort "out of fuel" else ok s
  wait_run (suc fuel) s =
      if s.env.waiting then (handle_event s s.env.inbox >>= λ s'. wait_run fuel s') else ok s

  unfoldable pub read_ack : Op → CtrlSched F → Result (CtrlSched F)
  unfolding read_first
  read_ack op s =
      if is_op_wait op
      then (do s' ← read_first s [] s.env.inbox; assert s'.env.acked "ctrl->acked"; ok s')
      else ok s

  -- The clock after the answer to GET.
  unfoldable pub take_ack_time : Op → CtrlSched F → Result (CtrlSched F)
  take_ack_time op s =
      let hooks = time_hooks user.own s.env.mem in
      if not (is_op_get op)
      then ok s
      else if s.env.frozen
      then ok (
          with_ctrl s (record s.env {
            offset = sub64 s.env.ack_time (mul64 (sched_time hooks s) s.env.nsec_per_tick);
          }))
      else set_time hooks s (div_round_up (sub64 s.env.ack_time s.env.offset) s.env.nsec_per_tick)

  -- usfstl_sched_ctrl_send_msg
  unfoldable pub send_msg : ℕ → CtrlSched F → Op → ℕ → Result (CtrlSched F)
  unfolding read_ack take_ack_time
  send_msg fuel s0 op time =
      let seq = next_seq s0.env.seq in
      let s1 = write_msg (with_ctrl s0 (record s0.env { seq = seq })) op time seq in
      let s2 =
        with_ctrl s1
          (record s1.env { old_expected = s1.env.expected_ack_seq; expected_ack_seq = seq }) in
      if has_mem s0.env.mem && is_op_wait op then ok s1 else (do
        assert (not s0.env.acked) "acked == 0"
        s3 ← read_ack op s2
        s4 ← wait_acked fuel s3
        take_ack_time op (
            with_ctrl s4 (record s4.env { acked = false; expected_ack_seq = s4.env.old_expected })))
