-- ===== src/SchedCtrl/Messages.antt =====
-- Messages of the controller: the grant of runtime, and the wait for the answer to a message.
use native.Mathlib.Nat.{mul-div_right}
use usfstl.Base.{ℕ, ◌+◌, ◌*◌, ◌/◌, ◌≤◌, ◌<◌, ◌≡◌, refl, arith, true, false, none, ◌∷◌, ==_refl, ok}
use usfstl.Time.{two64, sub64, time_ge}
use usfstl.Sched.{sched_time, next_pending}
use usfstl.Sched.Advance.{set_time, set_sync_time, move_time, not_beyond}
use usfstl.Shm.{op_ack, op_run, op_free_until}
use usfstl.SchedCtrl.{Ctrl, CtrlSched, User, with_ctrl, to_wire}
use usfstl.SchedCtrl.Client.{time_hooks, sock_read}
use usfstl.SchedCtrl.Shared.{ticks_of-to_wire}

ticks_down :
    {F : Type 0} (c : Ctrl F) (t : ℕ)
    → 0 < c.nsec_per_tick
    → t * c.nsec_per_tick + c.nsec_per_tick ≤ two64
    → c.offset < two64
    → sub64 (to_wire c t) c.offset / c.nsec_per_tick ≡ t
ticks_down c t h k l =
    let e : sub64 (to_wire c t) c.offset ≡ c.nsec_per_tick * t = ground arith in
    rw e (mul-div_right t h)

module _ {F : Type 0} (user : User F) where
  set_time_lem :
      (s : CtrlSched F) (c : Ctrl F) (t : ℕ)
      → not_beyond s t ≡ true
      → time_ge t s.current_time ≡ true
      → set_time (time_hooks user.own none) (with_ctrl s c) t
        ≡ ok (record s { current_time = t; env = c })
  unfolding set_time move_time next_pending
  set_time_lem s c t h k = rw (h, k, ==_refl t) refl

  set_sync_time_lem :
      (s : CtrlSched F) (c : Ctrl F) (t : ℕ)
      → time_ge t s.current_time ≡ true
      → set_sync_time (time_hooks user.own none) (with_ctrl s c) t
        ≡ ok (record s { next_external_sync = t; next_external_sync_set = true; env = c })
  unfolding set_sync_time sched_time
  set_sync_time_lem s c t h = rw h refl

module _ {F : Type 0} (user : User F) (s : CtrlSched F) where
  -- Without shared memory, RUN at the time that stands for a tick moves the clock to exactly that tick, ends
  -- the wait and is acknowledged, and FREE_UNTIL at that time lets the scheduler run until that tick. The tick
  -- is not before the current one and not behind the first job, and a tick more fits 64 bits.
  pub sock_read-to_wire :
      (t seq : ℕ)
      → s.env.mem ≡ none
      → not_beyond s t ≡ true
      → time_ge t s.current_time ≡ true
      → 0 < s.env.nsec_per_tick
      → t * s.env.nsec_per_tick + s.env.nsec_per_tick ≤ two64
      → s.env.offset < two64
      → (sock_read user s (record { op = op_run; seq = seq; time = to_wire s.env t }) none
          ≡ ok (record s {
            current_time = t;
            env = record s.env {
              waiting = false;
              sent = record { op = op_ack; seq = seq; time = 0 } ∷ s.env.sent;
            };
          }))
        × (sock_read user s (record { op = op_free_until; seq = seq; time = to_wire s.env t }) none
            ≡ ok (record s {
              next_external_sync = t;
              next_external_sync_set = true;
              env = record s.env {
                sent = record { op = op_ack; seq = seq; time = 0 } ∷ s.env.sent;
              };
            }))
  unfolding sock_read
  sock_read-to_wire t seq a b c h k l = (
    rw
        (
          a,
          ticks_of-to_wire s.env t h k l,
          set_time_lem user s (record s.env { waiting = false; mem = none }) t b c,
        )
        refl,
    rw (a, ticks_down s.env t h k l, set_sync_time_lem user s (record s.env { mem = none }) t c)
        refl,
  )
