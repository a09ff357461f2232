-- ===== src/Controller/Server.antt =====
-- control/main.c: removing clients, writing messages, and keeping free_until.
use usfstl.Base.{
  ℕ, ◌+◌, ◌-◌, ◌%◌, ◌^◌, Bool, true, false, not, ◌&&◌, ◌||◌, Option, none, some, ◌∷◌, ◌==◌,
  if◌then◌else◌, Result, ok, ◌>>=◌,
}
use usfstl.Time.{sub64}
use usfstl.Sched.{Hooks, set_job, sched_time, job_scheduled, next_pending, del_job, add_job}
use usfstl.Sched.Advance.{get_sync_time}
use usfstl.Shm.{Op, op_ack, op_run, op_free_until, client_at}
use usfstl.Controller.{
  Control, Controller, schedshm_has_shm, with_control, set_client_of, set_shm, set_shared,
  schedshm_get_time, schedshm_set_time, set_running_client, drop_id, has_id_state, is_running,
  unlist,
}

-- The functions that call each other around the wait for a message: the wait, and the hook for a changed
-- sync time, each with less fuel than their caller.
pub record Inner : Type 0 where
  pub wait_for : ℕ → Op → Controller → Result Controller
  pub next_time_changed : Controller → Result Controller

abbrev pub is_run : Op → Bool
is_run op_run = true
is_run _ = false

module _ (inner : Inner) where
  -- The scheduler's pointers, without the jobs' callbacks.
  abbrev pub control_clock : Hooks Control
  control_clock = record {
    external_request = none;
    external_wait = none;
    external_get_time = some schedshm_get_time;
    external_set_time = some schedshm_set_time;
    time_advanced = none;
    next_time_changed = some inner.next_time_changed;
    disable_skip = false;
    callback = λ j s. ok s;
  }

  -- The start of the job that frees a removed client.
  abbrev pub free_time : Controller → ℕ
  free_time s = elim (next_pending s none) [
    | some j ↦ (s.jobs j).start
    | none ↦ sched_time control_clock s
  ]

  unfoldable pub remove_client : Controller → ℕ → Result Controller
  unfolding unlist
  remove_client s0 c =
      let v = s0.env.client c in
      let s1 = set_client_of (del_job s0 c) c (record v { in_loop = false }) in
      let s2 = with_control s1 (record s1.env {
        clients = if has_id_state v.state then drop_id s1.env.clients v.id else s1.env.clients;
      }) in
      do
        s3 ← unlist s2 c
        s4 ←
            set_shared s3 v.id (λ _. record { capa = false; flags = false; req_time = 0; name = 0 })
        let s5 = set_job s4 c (record (s4.jobs c) { start = free_time s4 }) in
            let s6 = set_client_of s5 c (record (s5.env.client c) { freeing = true }) in
            add_job control_clock (if is_running s6 c then set_running_client s6 none else s6) c

  -- Whether the message was written.
  unfoldable pub write_message : Controller → ℕ → Op → ℕ → ℕ → Result (Controller × Bool)
  write_message s c op seq time =
      if (s.env.client c).freeing
      then ok (s, false)
      else if s.env.broken c
      then (remove_client s c >>= λ s'. ok (s', false))
      else ok (
        with_control s
            (record s.env { sent = (c, record { op = op; seq = seq; time = time }) ∷ s.env.sent }),
        true,
      )

  -- A RUN to a client that shares memory is not acknowledged.
  abbrev pub await_ack : Controller → ℕ → Op → Result Controller
  await_ack s c op = schedshm_has_shm s.env (s.env.client c).id >>= λ shares.
      if is_run op && shares then ok s else inner.wait_for c op_ack s

  unfoldable pub send_message : Controller → ℕ → Op → ℕ → Result (Controller × Bool)
  send_message s0 c op time =
      let v = s0.env.client c in
      let s1 = set_client_of s0 c (record v { nest = v.nest + 1 }) in
      let seq = (s0.env.seq + 1) % 2 ^ 64 in
      do
        r ← write_message (with_control s1 (record s1.env { seq = seq })) c op (seq % 2 ^ 32) time
        if not r.1 then ok (r.0, false) else (do
          s2 ← await_ack r.0 c op
          ok (
            set_client_of s2 c (record (s2.env.client c) { nest = (s2.env.client c).nest - 1 }),
            true,
          ))

  -- FREE_UNTIL to a client that does not share memory, once for each sync time.
  unfoldable pub announce : Controller → ℕ → ℕ → Result Controller
  announce s c sync =
      let v = s.env.client c in
      do
        shares ← schedshm_has_shm s.env v.id
        if shares || (v.sync_set && v.sync == sync) || s.env.update_sync_running then ok s else (do
          r ←
              send_message (with_control s (record s.env { update_sync_running = true })) c
                op_free_until (sub64 sync v.offset)
          let s' =
                set_client_of r.0 c (record (r.0.env.client c) { sync_set = true; sync = sync }) in
              ok (with_control s' (record s'.env { update_sync_running = false })))

  unfoldable pub update_sync : Controller → Option ℕ → Result Controller
  unfolding announce
  update_sync s0 client =
      let sync = get_sync_time control_clock s0 in
      let s1 : Controller = elim client [ none ↦ s0 | some c ↦ set_running_client s0 (some c) ] in
      let s2 = set_shm s1 (record s1.env.shm { free_until = sync }) in
      if not s1.env.started_scheduling
      then ok s1
      else elim s1.env.running_client [ none ↦ ok s2 | some c ↦ announce s2 c sync ]

  -- _schedshm_client_req_time
  unfoldable pub req_time : Controller → ℕ → Result Controller
  req_time s c = client_at s.env.shm (s.env.client c).id >>= λ shared.
      if not shared.flags || (job_scheduled s c && (s.jobs c).start == shared.req_time)
      then ok s
      else (let s1 = del_job s c in
          do
            s2 ←
                add_job control_clock
                  (set_job s1 c (record (s1.jobs c) { start = shared.req_time })) c
            ok (
                set_client_of s2 c
                  (record (s2.env.client c) { n_req = (s2.env.client c).n_req + 1 })))
