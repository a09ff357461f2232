-- ===== src/Vhost/Message/Bounds.antt =====
-- Queue numbers at the end of the array of queues, and the descriptors of kicks.
use usfstl.Base.{
  ℕ, zero, suc, ==→eq, Aborts-first, Aborts-next, ◌+◌, ◌≡◌, ◌<◌, ◌≤◌, refl, sym, ap, subst, arith,
  inl, inr, true, false, Bool-cases, Option, none, some, ltb, leb, ◌==◌, lt→ltb, ==_refl, ok, abort,
  Aborts, Returns,
}
use usfstl.Sched.{del_job}
use usfstl.Sched.Quiet.{Returns-mono}
use usfstl.Vhost.{Virtq, Vhost, Server, set_virtq}
use usfstl.Vhost.Queue.{Env, dev_notify}
use usfstl.Vhost.Message.{
  Memory, set_vring_num, set_vring_addr, set_vring_kick, set_vring_call, set_vring_enable,
  vring_kick, handle_request, update_virtq_kick, free_virtqs, dev_free, vring_idx, no_fd,
}

module _ {E : Type 0} where
  -- The entry of queue `i` was taken out of the main loop, and its descriptor was kept.
  pub record IsStale (t : Vhost E) (i : ℕ) : Type 0 where
    pub fd : ℕ
    pub kept : (t.virtqs i).kick_fd ≡ some fd
    pub unregistered : (t.virtqs i).registered ≡ false

  update_stale :
      (t : Vhost E) (i : ℕ) (fd : Option ℕ)
      → IsStale t i
      → Aborts (update_virtq_kick (t.virtqs i) fd)
  unfolding update_virtq_kick
  update_stale t i fd h = rw (h.kept, h.unregistered) tt

update_fresh :
    (q : Virtq) (fd : ℕ)
    → q.kick_fd ≡ some fd
    → q.registered ≡ true
    → update_virtq_kick q none ≡ ok (record q { kick_fd = some fd; registered = false })
unfolding update_virtq_kick
update_fresh q fd c d =
    rw (c, d) (ap (λ (k : Option ℕ). ok (record q { kick_fd = k; registered = false })) c)

module _ {E : Type 0} (server : Server) (env : Env E) (memory : Memory) (fuel : ℕ)
    (s : Vhost E) where
  -- The number of queues is not a queue's number. Three messages and the notification accept it, and
  -- access the array of queues behind its end; three other messages refuse it.
  pub handle_request-max_queues :
      (n num desc used avail datalen : ℕ) (fd : Option ℕ)
      → vring_idx n ≡ server.max_queues
      → (handle_request server env memory fuel s
            (set_vring_addr server.max_queues 0 desc used avail)
          ≡ abort "undefined")
        × (handle_request server env memory fuel s (set_vring_kick n fd) ≡ abort "undefined")
        × (handle_request server env memory fuel s (set_vring_call n fd) ≡ abort "undefined")
        × (dev_notify server env fuel s server.max_queues datalen ≡ abort "undefined")
        × (handle_request server env memory fuel s (set_vring_num server.max_queues num)
            ≡ abort "idx < max_queues")
        × (handle_request server env memory fuel s (set_vring_enable server.max_queues num)
            ≡ abort "idx < max_queues")
        × (handle_request server env memory fuel s (vring_kick server.max_queues num)
            ≡ abort "idx < max_queues")
  unfolding handle_request dev_notify
  handle_request-max_queues n num desc used avail datalen fd e =
      let a : leb server.max_queues server.max_queues ≡ true = ground arith in
      let b : ltb server.max_queues server.max_queues ≡ false = ground arith in
      (
        rw (a, b) refl,
        rw (e, a, b) refl,
        rw (e, a, b) refl,
        rw (a, b) refl,
        rw b refl,
        rw b refl,
        rw b refl,
      )

  first_kick :
      (n fd : ℕ)
      → vring_idx n < server.max_queues
      → no_fd n ≡ true
      → (s.virtqs (vring_idx n)).kick_fd ≡ some fd
      → (s.virtqs (vring_idx n)).registered ≡ true
      → Returns
          (handle_request server env memory fuel s (set_vring_kick n none))
          (λ r. IsStale r.0 (vring_idx n))
  unfolding handle_request
  first_kick n fd h a c d =
      let b : leb (vring_idx n) server.max_queues ≡ true = ground arith in
      rw
        (
          b,
          lt→ltb (vring_idx n) server.max_queues h,
          a,
          update_fresh (s.virtqs (vring_idx n)) fd c d,
        )
        (record {
          fd = fd;
          kept = rw (==_refl (vring_idx n)) refl;
          unregistered = rw (==_refl (vring_idx n)) refl;
        })

  second_kick :
      (m : ℕ) (new : Option ℕ)
      → IsStale s (vring_idx m)
      → no_fd m ≡ true
      → vring_idx m < server.max_queues
      → Aborts (handle_request server env memory fuel s (set_vring_kick m new))
  unfolding handle_request
  second_kick m none k b h =
      let l : leb (vring_idx m) server.max_queues ≡ true = ground arith in
      rw (l, lt→ltb (vring_idx m) server.max_queues h, b)
        (Aborts-first (update_virtq_kick (s.virtqs (vring_idx m)) none) _
          (update_stale s (vring_idx m) none k))
  second_kick m (some f) k b h =
      let l : leb (vring_idx m) server.max_queues ≡ true = ground arith in
      rw (l, lt→ltb (vring_idx m) server.max_queues h, b)
        (Aborts-first (update_virtq_kick (s.virtqs (vring_idx m)) none) _
          (update_stale s (vring_idx m) none k))

module _ {E : Type 0} where
  free_stale :
      (n i j : ℕ) (t : Vhost E) → IsStale t j → i ≤ j → j < i + n → Aborts (free_virtqs n i t)
  unfolding free_virtqs
  free_stale zero i j t h a b = absurd (omega arith)
  free_stale (suc n) i j t h a b = elim (Bool-cases (i == j)) [
    | inl e ↦
        let h' : IsStale t i = rw (==→eq i j e) h in
        Aborts-first (update_virtq_kick (t.virtqs i) none) _ (update_stale t i none h')
    | inr e ↦ Aborts-next (update_virtq_kick (t.virtqs i) none) _ (λ q.
        free_stale n (i + 1) j (set_virtq t i q)
          (record { fd = h.fd; kept = rw e h.kept; unregistered = rw e h.unregistered })
          (ground arith) (omega arith))
  ]

module _ {E : Type 0} (server : Server) (env : Env E) where
  -- When a message with NO_FD ends the kicks of a queue by a descriptor, the closed descriptor is kept.
  -- So another such message removes an entry from the main loop that is not in it, and the end of the
  -- connection does.
  pub dev_free-Aborts :
      (memory : Memory) (fuel n m : ℕ) (s : Vhost E) (fd : ℕ) (new : Option ℕ)
      → vring_idx n < server.max_queues
      → vring_idx m ≡ vring_idx n
      → no_fd n ≡ true
      → no_fd m ≡ true
      → (s.virtqs (vring_idx n)).kick_fd ≡ some fd
      → (s.virtqs (vring_idx n)).registered ≡ true
      → Returns (handle_request server env memory fuel s (set_vring_kick n none)) (λ r.
        Aborts (handle_request server env memory fuel r.0 (set_vring_kick m new))
        × Aborts (dev_free server env r.0))
  unfolding dev_free
  dev_free-Aborts memory fuel n m s fd new h e a b c d =
      Returns-mono (handle_request server env memory fuel s (set_vring_kick n none)) _ _
        (first_kick server env memory fuel s n fd h a c d)
        (λ r k. (
          second_kick server env memory fuel r.0 m new (subst (IsStale r.0) (sym e) k) b
              (omega arith),
          Aborts-first
              (free_virtqs server.max_queues 0
                (record r.0 { sched = del_job r.0.sched r.0.irq_job }))
              _
              (free_stale server.max_queues 0 (vring_idx n)
                (record r.0 { sched = del_job r.0.sched r.0.irq_job })
                (record { fd = k.fd; kept = k.kept; unregistered = k.unregistered }) (omega arith)
                (omega arith)),
        ))
