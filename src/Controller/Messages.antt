-- ===== src/Controller/Messages.antt =====
-- control/main.c: the messages of the clients, and the wait for one of them.
use usfstl.Base.{
  ℕ, zero, suc, ◌+◌, ◌-◌, Bool, true, false, not, ◌&&◌, Option, none, some, List, [], ◌∷◌, length,
  head?, ◌==◌, if◌then◌else◌, Result, ok, abort, assert, ◌>>=◌, ◌>>◌,
}
use usfstl.Time.{two64, add64, sub64, time_lt}
use usfstl.Sched.{set_job, sched_time, del_job, add_job}
use usfstl.Sched.Advance.{set_time}
use usfstl.Sched.Groups.{walk}
use usfstl.Shm.{
  Op, op_ack, op_start, op_request, op_wait, op_get, op_update, op_run, op_free_until, op_get_tod,
  op_broadcast, Msg,
}
use usfstl.Controller.{
  connected, start_requested, shm_check, started, Client, Incoming, msg, closed, new_connection,
  Controller, schedshm_has_shm, with_control, set_client_of, set_shm, set_shared,
  set_running_client, is_started, is_running, insert_client, new_client,
}
use usfstl.Controller.Server.{
  Inner, control_clock, remove_client, write_message, send_message, update_sync,
}

abbrev pub same_op : Op → Op → Bool
same_op op_ack op_ack = true
same_op op_start op_start = true
same_op op_request op_request = true
same_op op_wait op_wait = true
same_op op_get op_get = true
same_op op_update op_update = true
same_op op_run op_run = true
same_op op_free_until op_free_until = true
same_op op_get_tod op_get_tod = true
same_op op_broadcast op_broadcast = true
same_op _ _ = false

-- The name that comes with START, unless it is -1, and the end of the check for shared memory.
abbrev pub take_name : Client → Msg → Client
take_name v m =
    if same_op m.op op_start && not (m.time == two64 - 1) then record v { shm_name = m.time } else v

unfoldable pub end_check : Controller → ℕ → Result Controller
end_check s c =
    let v = s.env.client c in
    let is_check : Bool = elim v.state [
      | connected ↦ false
      | start_requested ↦ false
      | shm_check ↦ true
      | started ↦ false
    ] in
    if not is_check
    then ok s
    else (schedshm_has_shm s.env v.id >>= λ shares.
        ok (
          set_client_of s c
            (record v { state = started; offset = if shares then 0 else v.offset })))

-- What remains to be done for a message: nothing more, with the result given, or an answer with a value.
pub data Answer : Type 0 where
  result : Controller → Option Op → Answer
  ack : Controller → ℕ → Answer

-- START: the client has to wait until the scheduler lets it in.
unfoldable pub handle_start : Controller → ℕ → Msg → Result Answer
handle_start s0 c m =
    let v0 = s0.env.client c in
    let may_start : Bool = elim v0.state [
      | connected ↦ true
      | start_requested ↦ false
      | shm_check ↦ true
      | started ↦ false
    ] in
    do
      assert may_start "Client must not send START twice!"
      let s = set_client_of s0 c (record v0 { start_seq = m.seq; state = start_requested }) in
          ok (
            result
              (with_control s
                (record s.env { new_clients = insert_client s.env.client c s.env.new_clients }))
              (some op_start))

unfoldable pub handle_wait : Controller → ℕ → Result Answer
handle_wait s0 c = do
  assert (elim s0.env.running_client [ none ↦ true | some d ↦ c == d ])
      "Client must not wait while not running!"
  let v = s0.env.client c in
      let s1 = set_client_of s0 c (record v { n_wait = v.n_wait + 1 }) in
      let s2 : Controller = elim s1.env.running_client [
        | none ↦ s1
        | some d ↦ set_running_client s1 none
      ] in
      do
        shares ← schedshm_has_shm s2.env v.id
        ok (if shares then result s2 (some op_wait) else ack s2 0)

module _ (inner : Inner) where
  unfoldable pub handle_request : Controller → ℕ → Msg → Result Answer
  handle_request s0 c m =
      let v = s0.env.client c in
      let time = add64 v.offset m.time in
      do
        assert (is_started v.state) "Client must not request runtime while not started!"
        s1 ← set_shared s0 v.id (λ w. record w { flags = true; req_time = time })
        running_shares ← schedshm_has_shm s1.env s1.env.shm.running_id
        s2 ←
            if not running_shares
            then (let s = del_job s1 c in
                add_job (control_clock inner) (set_job s c (record (s.jobs c) { start = time })) c)
            else if time_lt time s1.env.shm.free_until
            then ok (set_shm s1 (record s1.env.shm { free_until = time }))
            else ok s1
        ok (
            ack
              (set_client_of s2 c
                (record (s2.env.client c) { n_req = (s2.env.client c).n_req + 1 }))
              0)

  unfoldable pub handle_update : Controller → ℕ → Msg → Result Answer
  handle_update s0 c m = do
    assert (is_running s0 c) "Client must not update time while not running!"
    s ← set_time (control_clock inner) s0 (add64 (s0.env.client c).offset m.time)
    ok (
        ack
          (set_client_of s c (record (s.env.client c) { n_update = (s.env.client c).n_update + 1 }))
          0)

  unfoldable pub broadcast_to : ℕ → ℕ → Controller → ℕ → Result Controller
  broadcast_to c time s d =
      if c == d then ok s else (send_message inner s d op_broadcast time >>= λ r. ok r.0)

  -- A walk over the clients ends after as many of them as there were.
  unfoldable pub handle_broadcast : Controller → ℕ → Msg → Result Answer
  handle_broadcast s c m =
      walk (suc (length s.env.client_list)) (λ t. t.env.client_list) (broadcast_to c m.time)
        (head? s.env.client_list) s
      >>= λ s'. ok (ack s' 0)

  -- The switch of _handle_message.
  unfoldable pub handle_op : Controller → ℕ → Msg → Result Answer
  unfolding handle_start handle_wait handle_request handle_update handle_broadcast
  handle_op s c m =
      let v = s.env.client c in
      let now = sched_time (control_clock inner) s in
      elim m.op [
        | op_ack ↦ ok (result s (some op_ack))
        | op_start ↦ handle_start s c m
        | op_request ↦ handle_request s c m
        | op_wait ↦ handle_wait s c
        | op_get ↦ do
          assert (is_started v.state) "Client must not retrieve time while not started!"
          ok (ack s (sub64 now v.offset))
        | op_get_tod ↦ do
          assert (is_started v.state) "Client must not retrieve TOD while not started!"
          ok (ack s (add64 s.env.time_at_start now))
        | op_update ↦ handle_update s c m
        | op_broadcast ↦ handle_broadcast s c m
        | op_run ↦ do s' ← remove_client inner s c; ok (result s' none)
        | op_free_until ↦ do s' ← remove_client inner s c; ok (result s' none)
      ]

  -- _handle_message, for what is read from the connection; `none` is the result -1.
  unfoldable pub handle_message : Controller → ℕ → Option Msg → Result (Controller × Option Op)
  unfolding end_check handle_op
  handle_message s c none = remove_client inner s c >>= λ s'. ok (s', none)
  handle_message s0 c (some m) = do
    s ← end_check (set_client_of s0 c (take_name (s0.env.client c) m)) c
    a ← handle_op s c m
    elim a [
      | result s' r ↦ ok (s', r)
      | ack s' val ↦ do r ← write_message inner s' c op_ack m.seq val; ok (r.0, some m.op)
    ]

  abbrev pub is_ack : Option Op → Bool
  is_ack (some op_ack) = true
  is_ack _ = false

  -- handle_message and handle_message_wait, whichever the connection has for its handler.
  unfoldable pub handle_read : Controller → ℕ → Option Msg → Result Controller
  handle_read s c m = do
    r ← handle_message s c m
    if (s.env.client c).is_awaited
        then ok (set_client_of r.0 c (record (r.0.env.client c) { last_message = r.1 }))
        else (do assert (not (is_ack r.1)) "!= UM_TIMETRAVEL_ACK"; ok r.0)

  unfoldable pub handle_conn : Controller → ℕ → Incoming → Result Controller
  handle_conn s c new_connection = ok (new_client s c)
  handle_conn s c closed = handle_read s c none
  handle_conn s c (msg m) = handle_read s c (some m)

  -- Only connections in the main loop are read.
  abbrev pub is_read : Controller → ℕ → Incoming → Bool
  is_read s c new_connection = true
  is_read s c _ = (s.env.client c).in_loop

  -- usfstl_loop_wait_and_handle: it blocks when nothing is left to handle.
  unfoldable pub handle_next : Controller → List (ℕ × Incoming) → Result Controller
  handle_next s [] = abort "blocked"
  handle_next s (e ∷ events) =
      let rest = handle_next s events in
      if is_read s e.0 e.1
      then handle_conn (with_control s (record s.env { inbox = events })) e.0 e.1
      else rest

  -- One round of the loop of wait_for, and whether it goes on.
  unfoldable pub wait_round : ℕ → Op → Controller → Result (Controller × Bool)
  unfolding handle_next
  wait_round c op s0 =
      let v = s0.env.client c in
      let was_plain = v.in_loop && not v.is_awaited in
      let s1 = set_client_of s0 c (record v {
        last_message = none;
        waiting_for = some op;
        in_loop = true;
        is_awaited = true;
      }) in
      do
        s2 ← handle_next s1 s1.env.inbox
        let w = s2.env.client c in
            if w.in_loop && was_plain
            then ok (
              set_client_of s2 c (record w { is_awaited = false }),
              not (elim w.last_message [ none ↦ false | some o ↦ same_op o op ]),
            )
            else ok (s2, false)

  abbrev pub end_wait : ℕ → Controller → Controller
  end_wait c s =
      let v = s.env.client c in
      with_control s
        (record (set_client_of s c (record v { last_message = none; waiting_for = none })).env {
          nesting = s.env.nesting - 1;
        })

  unfoldable pub wait_rounds : ℕ → ℕ → Op → Controller → Result Controller
  wait_rounds zero c op s = abort "out of fuel"
  wait_rounds (suc fuel) c op s =
      wait_round c op s >>= λ r. if r.1 then wait_rounds fuel c op r.0 else ok (end_wait c r.0)

-- The functions that call each other, with `fuel` levels of calls and as many rounds of each loop.
unfoldable pub inner_at : ℕ → Inner
inner_at zero = record {
  wait_for = λ c op s. abort "out of fuel";
  next_time_changed = λ s. abort "out of fuel";
}
inner_at (suc fuel) =
    let inner = inner_at fuel in
    record {
      wait_for = λ c op s.
          wait_rounds inner (suc fuel) c op
            (with_control s (record s.env { nesting = s.env.nesting + 1 }));
      next_time_changed = λ s. update_sync inner s none;
    }
