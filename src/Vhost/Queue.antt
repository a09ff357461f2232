-- ===== src/Vhost/Queue.antt =====
-- src/vhost.c: the queues of a device, the interrupt job that handles them, and notifications.
pub mod Drain
use usfstl.Base.{
  ℕ, zero, suc, ◌+◌, ◌-◌, Bool, true, false, not, Option, none, some, List, [], ◌∷◌, length, ltb,
  leb, ◌==◌, if◌then◌else◌, Result, ok, abort, assert, ◌>>=◌, ◌>>◌,
}
use usfstl.Time.{add64}
use usfstl.Sched.{Job, Sched, Hooks, set_job, sched_time, job_scheduled, add_job}
use usfstl.Vhost.{Virtq, Iovec, Buf, Vhost, Server, set_virtq, virtq_at}
use usfstl.Vhost.Buffer.{Fixed, virtq_empty, get_virtq_buf, send_virtq_buf}

-- The function pointers of the server, the scheduler's hooks, and the two functions of the control that
-- the queues call. `handle` is given the buffer and returns it with what it wrote.
pub record Env (E : Type 0) : Type 0 where
  pub handle : Vhost E → Buf → ℕ → Result (Vhost E × Buf)
  pub hooks : Hooks E
  pub sync_to : Option (Vhost E → Result (Vhost E))
  pub sync_from : Option (Vhost E → Result (Vhost E))
  pub has_memory : Bool

-- SG_STACK_PREALLOC elements each way.
abbrev pub prealloc : Fixed
prealloc = record { n_in_sg = 5; n_out_sg = 5; written = 0 }

module _ {E : Type 0} (server : Server) (env : Env E) where
  -- The caller's buffer after a round: if it was used, it has the buffer's counts.
  abbrev pub reuse : Fixed → Buf → Fixed
  reuse fixed buf = if buf.allocated then fixed else record {
    n_in_sg = length buf.in_sg;
    n_out_sg = length buf.out_sg;
    written = buf.written;
  }

  -- usfstl_vhost_user_handle_queue, for a number of rounds; the descriptors of a chain have the same
  -- fuel.
  unfoldable pub handle_queue : ℕ → Fixed → Vhost E → ℕ → Result (Vhost E)
  handle_queue zero fixed s i = abort "out of fuel"
  handle_queue (suc fuel) fixed s i =
      get_virtq_buf server (suc fuel) env.has_memory s i (some fixed) >>= λ r. elim r.1 [
        | none ↦ ok r.0
        | some buf ↦ env.handle r.0 buf i >>= λ h.
            send_virtq_buf server env.sync_to h.0 h.1 i >>= λ s'.
            handle_queue fuel (reuse fixed h.1) s' i
      ]

  -- usfstl_vhost_user_job_callback, for the queues from `i` on.
  unfoldable pub handle_triggered : ℕ → ℕ → ℕ → Vhost E → Result (Vhost E)
  handle_triggered fuel zero i s = ok s
  handle_triggered fuel (suc n) i s = do
    s' ←
        if (s.virtqs i).triggered
        then handle_queue fuel prealloc (set_virtq s i (record (s.virtqs i) { triggered = false }))
            i
        else ok s
    handle_triggered fuel n (i + 1) s'

  unfoldable pub job_callback : ℕ → Vhost E → Result (Vhost E)
  job_callback fuel s = handle_triggered fuel server.max_queues 0 s

  -- The buffer goes to `handle`, which has to send the response itself. Whether the queue is empty then.
  unfoldable pub handle_queue_oob : ℕ → Vhost E → ℕ → Result (Vhost E × Bool)
  handle_queue_oob fuel s i = do
    r ← get_virtq_buf server fuel env.has_memory s i none
    s' ← elim r.1 [ none ↦ ok r.0 | some buf ↦ env.handle r.0 buf i >>= λ h. ok h.0 ]
    ok (s', virtq_empty (s'.virtqs i))

  unfoldable pub add_irq_job : Vhost E → Result (Vhost E)
  add_irq_job s = add_job env.hooks s.sched s.irq_job >>= λ sched. ok (record s { sched = sched })

  -- usfstl_vhost_user_job_callback_oob, for the queues from `i` on.
  unfoldable pub handle_one : ℕ → ℕ → ℕ → Bool → Vhost E → Result (Vhost E)
  handle_one fuel zero i handled s = ok s
  handle_one fuel (suc n) i handled s =
      let next = handle_one fuel n (i + 1) handled s in
      let handled_next = λ (s' : Vhost E).
        handle_one fuel n (i + 1) true
          (set_virtq s' i (record (s'.virtqs i) { triggered = false })) in
      if not (s.virtqs i).triggered
      then next
      else if handled
      then add_irq_job s
      else (handle_queue_oob fuel s i >>= λ r.
          if not r.1 then add_irq_job r.0 else handled_next r.0)

  unfoldable pub job_callback_oob : ℕ → Vhost E → Result (Vhost E)
  job_callback_oob fuel s = handle_one fuel server.max_queues 0 false s

  abbrev pub irq_callback : ℕ → Vhost E → Result (Vhost E)
  irq_callback fuel s =
      if server.deferred_handling then job_callback_oob fuel s else job_callback fuel s

  unfoldable pub virtq_kick : ℕ → Vhost E → ℕ → Result (Vhost E)
  virtq_kick fuel s0 i =
      if not (server.input_queues i)
      then ok s0
      else (virtq_at server s0 i >>= λ q.
          let s = set_virtq s0 i (record q { triggered = true }) in
          if job_scheduled s.sched s.irq_job
          then ok s
          else if not server.has_scheduler
          then job_callback fuel s
          else (do
            s' ← elim env.sync_from [ none ↦ ok s | some f ↦ f s ]
            let start = add64 (sched_time env.hooks s'.sched) server.interrupt_latency in
                add_irq_job (record s' {
                  sched =
                      set_job s'.sched s'.irq_job
                        (record (s'.sched.jobs s'.irq_job) { start = start });
                })))

  -- usfstl_vhost_user_dev_notify, for `datalen` bytes.
  unfoldable pub dev_notify : ℕ → Vhost E → ℕ → ℕ → Result (Vhost E)
  dev_notify fuel s i datalen = do
    assert (leb i server.max_queues) "virtq_idx <= dev->ext.server->max_queues"
    q ← virtq_at server s i
    if not q.enabled
        then ok s
        else (get_virtq_buf server fuel env.has_memory s i (some prealloc) >>= λ r. elim r.1 [
          | none ↦ ok r.0
          | some buf ↦ do
            assert (ltb 0 (length buf.in_sg)) "buf->n_in_sg"
            assert (length buf.out_sg == 0) "!buf->n_out_sg"
            send_virtq_buf server env.sync_to r.0 (record buf { written = datalen }) i
        ])
