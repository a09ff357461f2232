-- ===== src/SchedCtrl/Control.antt =====
-- src/schedctrl.c: requests, waits, synchronisation, the start and the end.
use usfstl.Base.{
  ℕ, ◌-◌, Bool, true, false, not, ◌||◌, Option, none, some, ◌==◌, if◌then◌else◌, Result, ok, assert,
  ◌>>=◌, ◌>>◌,
}
use usfstl.Time.{two64, sub64, mul64}
use usfstl.Sched.{Hooks, ReqStatus, can_run, wait, sched_time, next_pending}
use usfstl.Shm.{
  op_request, op_start, op_wait, op_get, op_update, op_broadcast, Shm, client_at, set_client,
}
use usfstl.SchedCtrl.{Ctrl, CtrlSched, User, has_mem, with_ctrl, to_wire, the_mem, set_mem}
use usfstl.SchedCtrl.Client.{request_in_shm, time_hooks, wait_run, send_msg}

module _ {F : Type 0} (user : User F) where
  unfoldable pub send_bc : ℕ → CtrlSched F → ℕ → Result (CtrlSched F)
  send_bc fuel s bc_message = do
    assert s.env.started "Cannot send braodcast message until started"
    send_msg user fuel s op_broadcast bc_message

  -- usfstl_sched_ctrl_request
  unfoldable pub ctrl_request : ℕ → CtrlSched F → ℕ → Result (CtrlSched F × ReqStatus)
  ctrl_request fuel s time =
      if not s.env.started
      then ok (s, can_run)
      else (do s' ← send_msg user fuel s op_request (to_wire s.env time); ok (s', wait))

  -- _schedctrl_request_shm
  unfoldable pub request_shm : ℕ → CtrlSched F → ℕ → Result (CtrlSched F × ReqStatus)
  unfolding request_in_shm
  request_shm fuel s time = if not s.env.started then ok (s, can_run) else (do
    m ← the_mem s
    running ← client_at m m.running_id
    if not running.capa
        then (do s' ← send_msg user fuel s op_request (to_wire s.env time); ok (s', wait))
        else request_in_shm s m (to_wire s.env time))

  -- The end of usfstl_sched_ctrl_wait.
  unfoldable pub clear_request : CtrlSched F → Result (CtrlSched F)
  clear_request s = elim s.env.mem [
    | none ↦ ok s
    | some m ↦ if not s.env.started then ok s else (do
      assert (m.running_id == s.env.id) "running_id == id"
      self ← client_at m s.env.id
      ok (set_mem s (set_client m s.env.id (record self { flags = false }))))
  ]

  -- usfstl_sched_ctrl_wait; the time -1 of the message is 2 ^ 64 - 1.
  unfoldable pub ctrl_wait : ℕ → CtrlSched F → Result (CtrlSched F)
  unfolding clear_request
  ctrl_wait fuel s = do
    s1 ← send_msg user fuel (with_ctrl s (record s.env { waiting = true })) op_wait (two64 - 1)
    s2 ← wait_run user fuel s1
    clear_request s2

  -- usfstl_sched_ctrl_yield calls the request by message in either case.
  unfoldable pub ctrl_yield : ℕ → CtrlSched F → Result (CtrlSched F)
  ctrl_yield fuel s = do
    r ← ctrl_request fuel s (sched_time (time_hooks user.own s.env.mem) s)
    ctrl_wait fuel r.0

  -- The pointers of the scheduler while it is under the controller.
  abbrev pub ctrl_hooks : ℕ → Option Shm → Hooks (Ctrl F)
  ctrl_hooks fuel none = record (time_hooks user.own none) {
    external_request = some (ctrl_request fuel);
    external_wait = some (ctrl_wait fuel);
  }
  ctrl_hooks fuel (some m) = record (time_hooks user.own (some m)) {
    external_request = some (request_shm fuel);
    external_wait = some (ctrl_wait fuel);
  }

  -- usfstl_sched_ctrl_start, for what was written and what arrives; what `env` keeps is the user's.
  abbrev pub fresh : ℕ → Ctrl F → ℕ → Ctrl F
  fresh nsec_per_tick old current = record old {
    ack_time = 0;
    offset = sub64 0 (mul64 current nsec_per_tick);
    nsec_per_tick = nsec_per_tick;
    waiting = true;
    acked = false;
    frozen = false;
    started = false;
    expected_ack_seq = 0;
    id = 0;
    mem = none;
    handles_start = true;
  }

  abbrev pub is_null {ℓ} : {A : Type ℓ} → Option A → Bool
  is_null none = true
  is_null (some a) = false

  unfoldable pub request_first : ℕ → CtrlSched F → ℕ → Result (CtrlSched F)
  request_first fuel s nsec_per_tick = elim (next_pending s none) [
    | none ↦ ok s
    | some j ↦ send_msg user fuel s op_request (mul64 (s.jobs j).start nsec_per_tick)
  ]

  unfoldable pub ctrl_start : ℕ → CtrlSched F → ℕ → ℕ → Result (CtrlSched F)
  unfolding request_first
  ctrl_start fuel s nsec_per_tick client_id = do
    assert (is_null (next_pending s none)) "next_pending == NULL"
    assert (is_null user.own.external_request) "external_request == NULL"
    assert (is_null user.own.external_wait) "external_wait == NULL"
    s1 ←
        send_msg user fuel (with_ctrl s (fresh nsec_per_tick s.env (sched_time user.own s)))
          op_start client_id
    request_first fuel (with_ctrl s1 (record s1.env { started = true; waiting = false }))
        nsec_per_tick

  unfoldable pub sync_to : ℕ → CtrlSched F → Result (CtrlSched F)
  sync_to fuel s = do
    assert s.env.started "cannot sync to scheduler until started"
    if has_mem s.env.mem
        then ok s
        else send_msg user fuel s op_update
            (to_wire s.env (sched_time (time_hooks user.own s.env.mem) s))

  unfoldable pub sync_from : ℕ → CtrlSched F → Result (CtrlSched F)
  sync_from fuel s =
      if not s.env.started || has_mem s.env.mem
      then ok s
      else send_msg user fuel s op_get (two64 - 1)

module _ {F : Type 0} where
  -- usfstl_sched_ctrl_stop, up to the socket. The result is to be used with the user's own hooks.
  unfoldable pub ctrl_stop : CtrlSched F → CtrlSched F
  ctrl_stop s = with_ctrl s (record s.env { mem = none })

  unfoldable pub set_frozen : CtrlSched F → Bool → CtrlSched F
  set_frozen s frozen = with_ctrl s (record s.env { frozen = frozen })
