-- ===== src/SchedCtrl/Tests.antt =====
-- A scheduler of one tick per 1000 nanoseconds under a controller.
use usfstl.Base.{
  ℕ, ◌≡◌, ◌⊎◌, ◌∷◌, refl, arith, true, false, none, some, List, [], Option, ok, abort, Returns,
}
use usfstl.Time.{time_lt, time_le, time_ge}
use usfstl.Sched.{Hooks, can_run, wait, next_pending}
use usfstl.Shm.{Shm, ShmClient, op_ack, op_run, op_free_until, op_request, op_broadcast}
use usfstl.SchedCtrl.{Event, other, Ctrl, CtrlSched, User, schedctrl_get_time}
use usfstl.SchedCtrl.Client.{
  handle_fds, sock_read, handle_event, wait_acked, send_msg, schedctrl_set_time,
}
use usfstl.SchedCtrl.Control.{request_shm}
use usfstl.SchedCtrl.Shared.{IsRequested, schedctrl_get_time-set_time, request_shm-IsRequested}
use usfstl.SchedCtrl.Messages.{sock_read-to_wire}
use usfstl.SchedCtrl.Answers.{ack_of, send_msg_answered}

abbrev demo_clients : ℕ → ShmClient
demo_clients i = record { capa = true; flags = false; req_time = 0; name = 7 }

-- Client 1 runs at 5500, until 9500.
abbrev demo_shm : Shm
demo_shm = record {
  version = 2;
  free_until = 9500;
  current_time = 5500;
  running_id = 1;
  max_clients = 64;
  clients = demo_clients;
}

abbrev demo_ctrl : Option Shm → List Event → Ctrl ℕ
demo_ctrl mem events = record {
  ack_time = 0;
  offset = 500;
  nsec_per_tick = 1000;
  waiting = false;
  acked = false;
  frozen = false;
  started = true;
  expected_ack_seq = 0;
  id = 1;
  mem = mem;
  handles_start = false;
  seq = 0;
  old_expected = 0;
  sent = [];
  inbox = events;
  env = 0;
}

abbrev demo : Option Shm → List Event → CtrlSched ℕ
demo mem events = record {
  current_time = 5;
  prev_external_sync = 0;
  next_external_sync = 0;
  joblist = [];
  pending_jobs = [];
  allowed_job = none;
  blocked_groups = 0;
  next_external_sync_set = false;
  prev_external_sync_set = false;
  waiting = false;
  jobs = λ j. record { start = 0; priority = 0; group = 0; blocked = false; pending = false };
  env = demo_ctrl mem events;
}

abbrev demo_hooks : Hooks (Ctrl ℕ)
demo_hooks = record {
  external_request = none;
  external_wait = none;
  external_get_time = none;
  external_set_time = none;
  time_advanced = none;
  next_time_changed = none;
  disable_skip = false;
  callback = λ j s. ok s;
}

abbrev demo_user : User ℕ
demo_user = record {
  own = demo_hooks;
  handle_bc_message = none;
  handle_other = λ k s. abort "other";
}

schedctrl_get_time-set_time_example : Returns (schedctrl_set_time (demo (some demo_shm) []) 9) (λ u.
    (u.env.mem ≡ some (record demo_shm { current_time = 9500 }))
    × (schedctrl_get_time u ≡ ok (u, 9)))
unfolding time_ge time_le
schedctrl_get_time-set_time_example =
    schedctrl_get_time-set_time (demo (some demo_shm) []) demo_shm 9 refl refl refl refl refl
      (omega arith) (omega arith) (omega arith)

request_shm-IsRequested_example :
    Returns (request_shm demo_user 3 (demo (some demo_shm) []) 12) (λ r.
      ((r ≡ (demo (some demo_shm) [], can_run)) × (false ≡ false) × (time_lt 12500 9500 ≡ true))
      ⊎ ((r.1 ≡ wait) × (m' : Shm) × (r.0.env.mem ≡ some m') × IsRequested demo_shm m' 1 12500))
unfolding time_ge
request_shm-IsRequested_example =
    request_shm-IsRequested (demo (some demo_shm) []) demo_shm 12 demo_user 3 refl refl
      (omega arith) (omega arith) refl refl

sock_read-to_wire_example :
    (sock_read demo_user (demo none []) (record { op = op_run; seq = 4; time = 8500 }) none
      ≡ ok (record (demo none []) {
        current_time = 8;
        env = record (demo_ctrl none []) {
          waiting = false;
          sent = record { op = op_ack; seq = 4; time = 0 } ∷ [];
        };
      }))
    × (sock_read demo_user (demo none []) (record { op = op_free_until; seq = 4; time = 8500 }) none
        ≡ ok (record (demo none []) {
          next_external_sync = 8;
          next_external_sync_set = true;
          env = record (demo_ctrl none []) {
            sent = record { op = op_ack; seq = 4; time = 0 } ∷ [];
          };
        }))
unfolding time_ge next_pending
sock_read-to_wire_example =
    sock_read-to_wire demo_user (demo none []) 8 4 refl refl refl (omega arith) (omega arith)
      (omega arith)

-- The acknowledgement of number 9 is not the one that is awaited.
send_msg_answered_example :
    send_msg demo_user 2 (demo none (ack_of 9 0 ∷ ack_of 1 77 ∷ other 3 ∷ [])) op_request 8500
    ≡ ok (record (demo none []) {
      env = record (demo_ctrl none []) {
        seq = 1;
        sent = record { op = op_request; seq = 1; time = 8500 } ∷ [];
        ack_time = 77;
        inbox = other 3 ∷ [];
      };
    })
send_msg_answered_example =
    send_msg_answered demo_user (demo none (ack_of 9 0 ∷ ack_of 1 77 ∷ other 3 ∷ [])) op_request
      8500 77 2 (other 3 ∷ []) (9 ∷ []) refl refl refl refl (refl, tt) (omega arith)

-- What the main loop handles sends a broadcast.
abbrev demo_nested : User ℕ → User ℕ
demo_nested user = record user { handle_other = λ k s. send_msg user 4 s op_broadcast k }

abbrev demo_events : List Event
demo_events = other 0 ∷ other 0 ∷ ack_of 3 0 ∷ ack_of 2 0 ∷ ack_of 1 0 ∷ []

nested_sends :
    send_msg (demo_nested (demo_nested demo_user)) 4 (demo none demo_events) op_broadcast 0
    ≡ abort "blocked"
unfolding send_msg wait_acked handle_event sock_read handle_fds
nested_sends = refl
