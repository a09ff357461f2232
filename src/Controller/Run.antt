-- ===== src/Controller/Run.antt =====
-- control/main.c: the start of clients, their turns, and the main loop.
use usfstl.Base.{
  ℕ, zero, suc, ◌^◌, Bool, true, false, not, ◌&&◌, Option, none, some, [], ◌∷◌, ◌++◌, length, head?,
  next_after, ltb, ◌==◌, if◌then◌else◌, Result, ok, abort, assert, ◌>>=◌, ◌>>◌,
}
use usfstl.Time.{sub64}
use usfstl.Sched.{Hooks, sched_time, next_pending}
use usfstl.Sched.Advance.{again, ran, sched_next, sched_start}
use usfstl.Shm.{op_ack, op_wait, op_run}
use usfstl.Controller.{
  shm_check, Control, Controller, schedshm_has_shm, with_control, set_client_of, set_shared,
  set_running_client, first_free, add_id, unlist,
}
use usfstl.Controller.Server.{
  Inner, control_clock, write_message, send_message, update_sync, req_time,
}
use usfstl.Controller.Messages.{handle_next, inner_at}

module _ (inner : Inner) where
  -- The state and the number that a client gets, its entry in the shared memory, and its turn.
  unfoldable pub enter_client : Controller → ℕ → Result Controller
  enter_client s0 c =
      let id = first_free 64 1 s0.env.clients in
      let s1 = set_client_of s0 c (record (s0.env.client c) {
        offset = sched_time (control_clock inner) s0;
        state = shm_check;
        id = id;
      }) in
      do
        assert (not (id == 0)) "Got to max clients we can handle"
        s2 ← set_shared s1 id (λ v. record v { name = (s0.env.client c).shm_name })
        s3 ← unlist (with_control s2 (record s2.env { clients = add_id s2.env.clients id })) c
        ok (
            set_running_client
              (with_control s3 (record s3.env { client_list = s3.env.client_list ++ c ∷ [] }))
              (some c))

  unfoldable pub process_starting_client : Controller → ℕ → Result Controller
  unfolding enter_client
  process_starting_client s0 c = do
    s ← enter_client s0 c
    let v = s.env.client c in
        do
          assert (ltb v.id (2 ^ 16)) "id & ~UM_TIMETRAVEL_START_ACK_ID == 0"
          r ← write_message inner s c op_ack v.start_seq (if s.env.disable_shm then 0 else v.id)
          inner.wait_for c op_wait r.0

  -- process_starting_clients, for a number of clients.
  unfoldable pub process_starting_clients : ℕ → Controller → Result Controller
  process_starting_clients zero s = elim s.env.new_clients [
    | [] ↦ ok s
    | c ∷ cs ↦ abort "out of fuel"
  ]
  process_starting_clients (suc fuel) s = elim s.env.new_clients [
    | [] ↦ ok s
    | c ∷ cs ↦ process_starting_client s c >>= λ s'. process_starting_clients fuel s'
  ]

  -- The job's callback: the turn of a client, or the end of a removed one.
  unfoldable pub run_client : Controller → ℕ → Result Controller
  run_client s0 c = do
    s1 ← update_sync inner s0 (some c)
    shares ← schedshm_has_shm s1.env (s1.env.client c).id
    s2 ←
        if shares
        then ok s1
        else set_shared s1 (s1.env.client c).id (λ v. record v { flags = false })
    r ←
        send_message inner s2 c op_run
          (sub64 (sched_time (control_clock inner) s2) (s2.env.client c).offset)
    if r.1 then inner.wait_for c op_wait r.0 else ok r.0

  abbrev pub job_callback_of : ℕ → Controller → Result Controller
  job_callback_of j s = if (s.env.client j).freeing then ok s else run_client s j

  abbrev pub control_hooks : Hooks Control
  control_hooks = record (control_clock inner) { callback = job_callback_of }

  -- The walk over the clients that takes the requests from the shared memory, from client `c` on.
  unfoldable pub req_times : ℕ → Option ℕ → Controller → Result Controller
  req_times fuel none s = ok s
  req_times zero (some c) s = abort "out of fuel"
  req_times (suc fuel) (some c) s =
      req_time inner s c >>= λ s'. req_times fuel (next_after s'.env.client_list c) s'

  unfoldable pub take_requests : Controller → Result Controller
  unfolding req_times
  take_requests s = req_times (suc (length s.env.client_list)) (head? s.env.client_list) s

  -- The body of the last loop of main. A job for which the scheduler needs more than `fuel` rounds is
  -- out of fuel.
  unfoldable pub main_turn : ℕ → Controller → Result Controller
  main_turn fuel s = do
    t ← sched_next control_hooks fuel s
    s1 ← elim t [ again s' ↦ abort "out of fuel" | ran s' j ↦ ok s' ]
    s2 ← process_starting_clients fuel s1
    take_requests s2

  abbrev pub is_pending : Controller → Bool
  is_pending s = elim (next_pending s none) [ none ↦ false | some j ↦ true ]

  unfoldable pub main_loop : ℕ → ℕ → Controller → Result Controller
  main_loop zero fuel s = abort "out of fuel"
  main_loop (suc rounds) fuel s =
      if not (s.env.clients == 0) && is_pending s
      then (main_turn fuel s >>= λ s'. main_loop rounds fuel s')
      else ok s

  -- The wait for the expected number of clients.
  unfoldable pub await_clients : ℕ → ℕ → Controller → Result Controller
  await_clients zero expected s = abort "out of fuel"
  await_clients (suc fuel) expected s =
      if ltb (length s.env.new_clients) expected
      then (handle_next inner s s.env.inbox >>= λ s'. await_clients fuel expected s')
      else ok s

-- _schedshm_create_mem_file, for the memory.
abbrev pub schedshm_init : Controller → Controller
schedshm_init s = with_control s (record s.env {
  shm = record {
    version = 2;
    free_until = s.current_time;
    current_time = s.current_time;
    running_id = 0;
    max_clients = 64;
    clients = λ i. record { capa = false; flags = false; req_time = 0; name = 0 };
  };
})

-- main, without the wallclock network: up to the end of all clients.
unfoldable pub control_main : ℕ → ℕ → Controller → Result Controller
control_main fuel expected s0 =
    let inner = inner_at fuel in
    do
      s1 ← sched_start (control_clock inner) (schedshm_init s0)
      s2 ← await_clients inner fuel expected s1
      s3 ← process_starting_clients inner fuel s2
      s4 ← take_requests inner s3
      main_loop inner fuel fuel (with_control s4 (record s4.env { started_scheduling = true }))
