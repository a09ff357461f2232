-- ===== src/Controller/Tests.antt =====
-- Clients that start, and one that leaves before.
use usfstl.Base.{ℕ, ◌≡◌, refl, true, false, none, [], ◌∷◌, ◌==◌, if◌then◌else◌}
use usfstl.Controller.{start_requested, Client, Control, Controller, insert_client}

-- Client j has the name 10 * j, and so on.
abbrev demo_client : ℕ → Client
demo_client j = record {
  state = start_requested;
  sync_set = false;
  sync = 0;
  n_req = 0;
  n_wait = 0;
  n_update = 0;
  last_message = none;
  waiting_for = none;
  offset = 0;
  start_seq = 1;
  nest = 0;
  shm_name = if j == 0 then 20 else if j == 1 then 30 else 20;
  id = 0;
  freeing = false;
  in_loop = true;
  is_awaited = false;
}

abbrev demo_control : ℕ → Control
demo_control clients = record {
  clients = clients;
  client = demo_client;
  running_client = none;
  time_at_start = 0;
  nesting = 0;
  shm = record {
    version = 2;
    free_until = 0;
    current_time = 0;
    running_id = 0;
    max_clients = 64;
    clients = λ i. record { capa = false; flags = false; req_time = 0; name = 0 };
  };
  started_scheduling = false;
  client_list = [];
  new_clients = 0 ∷ 1 ∷ [];
  disable_shm = false;
  seq = 0;
  update_sync_running = false;
  inbox = [];
  sent = [];
  broken = λ c. false;
}

abbrev demo : ℕ → Controller
demo clients = record {
  current_time = 0;
  prev_external_sync = 0;
  next_external_sync = 0;
  joblist = [];
  pending_jobs = [];
  allowed_job = none;
  blocked_groups = 0;
  next_external_sync_set = false;
  prev_external_sync_set = false;
  waiting = false;
  jobs = λ j. record { start = 0; priority = 0; group = 1; blocked = false; pending = false };
  env = demo_control clients;
}

inserted : insert_client demo_client 2 (0 ∷ 1 ∷ []) ≡ 0 ∷ 2 ∷ 1 ∷ []
unfolding insert_client
inserted = refl
