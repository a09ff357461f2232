-- ===== src/SchedCtrl/Shared.antt =====
-- The clock and the requests of clients that share memory with the controller.
use usfstl.Base.{
  ℕ, ◌+◌, ◌*◌, ◌≤◌, ◌<◌, ◌≡◌, refl, inl, inr, ◌⊎◌, arith, true, false, Bool-cases, some, lt→ltb,
  ◌==◌, ==_refl, ok, Returns,
}
use usfstl.Time.{two64, sub64, mul64, time_lt, time_le, time_ge}
use usfstl.Sched.{can_run, wait}
use usfstl.Sched.Link.{div_round_up}
use usfstl.Sched.Link.Ticks.{ticks_of}
use usfstl.Shm.{Shm, set_client}
use usfstl.SchedCtrl.{Ctrl, CtrlSched, User, to_wire, schedctrl_get_time}
use usfstl.SchedCtrl.Client.{schedctrl_set_time, request_in_shm}
use usfstl.SchedCtrl.Control.{request_shm}

-- A tick on the wire stands for that tick.
pub ticks_of-to_wire :
    {F : Type 0} (c : Ctrl F) (t : ℕ)
    → 0 < c.nsec_per_tick
    → t * c.nsec_per_tick + c.nsec_per_tick ≤ two64
    → c.offset < two64
    → div_round_up (sub64 (to_wire c t) c.offset) c.nsec_per_tick ≡ t
ticks_of-to_wire c t h k l =
    let e : mul64 t c.nsec_per_tick ≡ mul64 c.nsec_per_tick t = ground arith in
    rw e (ticks_of c.nsec_per_tick t c.offset h (ground arith) l)

module _ (m : Shm) where
  -- The memory after a request for the time `time` of client `id`.
  pub record IsRequested (m' : Shm) (id time : ℕ) : Type 0 where
    pub not_later : time_lt time m'.free_until ≡ false
    pub kept_or_asked : (m'.free_until ≡ m.free_until) ⊎ (m'.free_until ≡ time)
    pub req_time : (m'.clients id).req_time ≡ time
    pub flags : (m'.clients id).flags ≡ true
    pub others : (j : ℕ) → (id == j) ≡ false → m'.clients j ≡ m.clients j
    pub current_time : m'.current_time ≡ m.current_time
    pub running_id : m'.running_id ≡ m.running_id

  asked :
      (free_until id time : ℕ)
      → time_lt time free_until ≡ false
      → (free_until ≡ m.free_until) ⊎ (free_until ≡ time)
      → IsRequested
          (set_client
            (record m { free_until = free_until })
            id
            (record (m.clients id) { req_time = time; flags = true }))
          id
          time
  asked free_until id time h k = record {
    not_later = h;
    kept_or_asked = k;
    req_time = rw (==_refl id) refl;
    flags = rw (==_refl id) refl;
    others = λ j e. rw e refl;
    current_time = refl;
    running_id = refl;
  }

time_lt_self : (t : ℕ) → time_lt t t ≡ false
unfolding time_lt
time_lt_self t = ground arith

module _ {F : Type 0} (s : CtrlSched F) (m : Shm) (t : ℕ) where
  -- The running client, not frozen, may set the time to any tick between the shared time and free_until,
  -- as long as a tick more fits 64 bits. It then reads that tick, and free_until and the clients' entries
  -- are the same.
  pub schedctrl_get_time-set_time :
      s.env.mem ≡ some m
      → s.env.frozen ≡ false
      → m.running_id ≡ s.env.id
      → time_ge (to_wire s.env t) m.current_time ≡ true
      → time_le (to_wire s.env t) m.free_until ≡ true
      → 0 < s.env.nsec_per_tick
      → t * s.env.nsec_per_tick + s.env.nsec_per_tick ≤ two64
      → s.env.offset < two64
      → Returns (schedctrl_set_time s t) (λ u.
        (u.env.mem ≡ some (record m { current_time = to_wire s.env t }))
        × (schedctrl_get_time u ≡ ok (u, t)))
  unfolding schedctrl_set_time schedctrl_get_time
  schedctrl_get_time-set_time a b c d e h k l =
      let c' : (m.running_id == s.env.id) ≡ true = rw c (==_refl s.env.id) in
      rw (a, b, c', d, e) (refl, rw (ticks_of-to_wire s.env t h k l) refl)

  -- A started client whose running peer shares memory may request a time that is not past. It is told that
  -- it can run only if it runs already and the time is before free_until, and then nothing changes.
  -- Otherwise it has to wait, its request is in its entry, and free_until is as it was or the time
  -- requested, and not after the latter.
  pub request_shm-IsRequested :
      (user : User F) (fuel : ℕ)
      → s.env.mem ≡ some m
      → s.env.started ≡ true
      → m.running_id < m.max_clients
      → s.env.id < m.max_clients
      → (m.clients m.running_id).capa ≡ true
      → time_ge (to_wire s.env t) m.current_time ≡ true
      → Returns (request_shm user fuel s t) (λ r.
        ((r ≡ (s, can_run))
          × (s.env.waiting ≡ false)
          × (time_lt (to_wire s.env t) m.free_until ≡ true))
        ⊎ ((r.1 ≡ wait)
            × (m' : Shm) × (r.0.env.mem ≡ some m')
            × IsRequested m m' s.env.id (to_wire s.env t)))
  unfolding request_shm request_in_shm
  request_shm-IsRequested user fuel a b c d e h =
      elim (Bool-cases (time_lt (to_wire s.env t) m.free_until)) [
        | inl x ↦ elim (Bool-cases s.env.waiting) [
          | inl y ↦
              rw
                (
                  a,
                  b,
                  lt→ltb m.running_id m.max_clients c,
                  e,
                  x,
                  y,
                  h,
                  lt→ltb s.env.id m.max_clients d,
                )
                (inr (
                  refl,
                  _,
                  refl,
                  asked m (to_wire s.env t) s.env.id (to_wire s.env t)
                      (time_lt_self (to_wire s.env t)) (inr refl),
                ))
          | inr y ↦
              rw (a, b, lt→ltb m.running_id m.max_clients c, e, x, y, h) (inl (refl, refl, refl))
        ]
        | inr x ↦
            rw (a, b, lt→ltb m.running_id m.max_clients c, e, x, h, lt→ltb s.env.id m.max_clients d)
              (inr (refl, _, refl, asked m m.free_until s.env.id (to_wire s.env t) x (inl refl)))
      ]
