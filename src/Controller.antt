-- ===== src/Controller.antt =====
-- control/main.c: the controller, which gives its clients runtime one after the other.
pub mod Server
pub mod Messages
pub mod Run
pub mod Clients
pub mod Limits
mod Tests
use usfstl.Base.{
  ℕ, zero, suc, ◌+◌, ◌-◌, ◌*◌, ◌/◌, ◌%◌, ◌^◌, Bool, true, false, not, ◌&&◌, ◌||◌, Option, none,
  some, List, [], ◌∷◌, ◌++◌, length, mem, remove, ltb, leb, ◌==◌, if◌then◌else◌, Result, ok, abort,
  assert, ◌>>=◌, ◌>>◌,
}
use usfstl.Sched.{Sched, Hooks, set_job, sched_time}
use usfstl.Shm.{Op, Msg, ShmClient, Shm, client_at, set_client}

-- enum usfstl_schedule_client_state.
pub data ClientState : Type 0 where
  connected start_requested shm_check started : ClientState

-- struct usfstl_schedule_client. The number of a client is that of its job. `freeing` tells whether the
-- job's callback is free_client instead of run_client; `in_loop` whether the connection is in the main
-- loop, and `is_awaited` whether its handler is handle_message_wait. `none` stands for the values -2 of
-- last_message and -1 of waiting_for.
pub record Client : Type 0 where
  pub state : ClientState
  pub sync_set : Bool
  pub sync : ℕ  -- uint64_t
  pub n_req : ℕ
  pub n_wait : ℕ
  pub n_update : ℕ
  pub last_message : Option Op
  pub waiting_for : Option Op
  pub offset : ℕ  -- uint64_t
  pub start_seq : ℕ
  pub nest : ℕ
  pub shm_name : ℕ  -- uint64_t
  pub id : ℕ  -- uint8_t
  pub freeing : Bool
  pub in_loop : Bool
  pub is_awaited : Bool

-- What a connection has to read, and new connections.
pub data Incoming : Type 0 where
  msg : Msg → Incoming
  closed : Incoming
  new_connection : Incoming

-- The controller's variables, with the static ones of its functions. `inbox` has what the main loop
-- finds to handle and for which client, in this order; `sent` the messages written and to which client,
-- the last first; a write to a client for which `broken` holds fails.
pub record Control : Type 0 where
  pub clients : ℕ  -- uint64_t
  pub client : ℕ → Client
  pub running_client : Option ℕ
  pub time_at_start : ℕ  -- uint64_t
  pub nesting : ℕ
  pub shm : Shm
  pub started_scheduling : Bool
  pub client_list : List ℕ
  pub new_clients : List ℕ
  pub disable_shm : Bool
  pub seq : ℕ  -- uint64_t
  pub update_sync_running : Bool
  pub inbox : List (ℕ × Incoming)
  pub sent : List (ℕ × Msg)
  pub broken : ℕ → Bool

abbrev pub Controller : Type 0
Controller = Sched Control

-- g_schedshm_mem->current_time is the controller's clock.
abbrev pub schedshm_has_shm : Control → ℕ → Result Bool
schedshm_has_shm e id = client_at e.shm id >>= λ c. ok c.capa

abbrev pub with_control : Controller → Control → Controller
with_control s e = record s { env = e }

abbrev pub set_client_of : Controller → ℕ → Client → Controller
set_client_of s c v =
    with_control s (record s.env { client = λ d. if c == d then v else s.env.client d })

abbrev pub set_shm : Controller → Shm → Controller
set_shm s m = with_control s (record s.env { shm = m })

-- Writes to the shared entry of a client.
abbrev pub set_shared : Controller → ℕ → (ShmClient → ShmClient) → Result Controller
set_shared s id f = client_at s.env.shm id >>= λ v. ok (set_shm s (set_client s.env.shm id (f v)))

-- _schedshm_get_time and _schedshm_set_time.
abbrev pub schedshm_get_time : Control → ℕ → ℕ
schedshm_get_time e current = e.shm.current_time

unfoldable pub schedshm_set_time : Controller → ℕ → Result Controller
schedshm_set_time s time = do
  running_shares ← schedshm_has_shm s.env s.env.shm.running_id
  assert (not running_shares) "!_schedshm_client_has_shm(running_id)"
  ok (set_shm s (record s.env.shm { current_time = time }))

abbrev pub set_running_client : Controller → Option ℕ → Controller
set_running_client s none =
    with_control s
      (record s.env { shm = record s.env.shm { running_id = 0 }; running_client = none })
set_running_client s (some c) = with_control s (record s.env {
  shm = record s.env.shm { running_id = (s.env.client c).id };
  running_client = some c;
})

-- __builtin_ffsll(~clients): the number, from 1, of the first bit that is not set; 0 if there is none.
unfoldable pub first_free : ℕ → ℕ → ℕ → ℕ
first_free zero i clients = 0
first_free (suc n) i clients =
    let rest = first_free n (i + 1) (clients / 2) in if clients % 2 == 0 then i else rest

-- clients |= CTRL_CLIENT_BIT(id), and clients &= ~CTRL_CLIENT_BIT(id).
abbrev pub has_id : ℕ → ℕ → Bool
has_id clients id = clients / 2 ^ (id - 1) % 2 == 1

abbrev pub add_id : ℕ → ℕ → ℕ
add_id clients id = if has_id clients id then clients else clients + 2 ^ (id - 1)

abbrev pub drop_id : ℕ → ℕ → ℕ
drop_id clients id = if has_id clients id then clients - 2 ^ (id - 1) else clients

abbrev pub is_started : ClientState → Bool
is_started started = true
is_started _ = false

abbrev pub has_id_state : ClientState → Bool
has_id_state started = true
has_id_state shm_check = true
has_id_state _ = false

abbrev pub is_running : Controller → ℕ → Bool
is_running s c = elim s.env.running_client [ none ↦ false | some d ↦ c == d ]

-- The insertion into new_clients: before the first entry of a larger name, or at the end.
unfoldable pub insert_client : (ℕ → Client) → ℕ → List ℕ → List ℕ
insert_client client c [] = c ∷ []
insert_client client c (d ∷ ds) =
    if ltb (client c).shm_name (client d).shm_name
    then c ∷ d ∷ ds
    else d ∷ insert_client client c ds

-- usfstl_list_item_remove. The entry of a client that is in no list has no neighbours, which the code
-- follows all the same.
unfoldable pub unlist : Controller → ℕ → Result Controller
unlist s c = do
  assert (mem c s.env.client_list || mem c s.env.new_clients) "entry->next is NULL"
  ok (
      with_control s (record s.env {
        client_list = remove c s.env.client_list;
        new_clients = remove c s.env.new_clients;
      }))

-- handle_new_connection
unfoldable pub new_client : Controller → ℕ → Controller
new_client s c =
    let s' = set_client_of s c (record {
      state = connected;
      sync_set = false;
      sync = 0;
      n_req = 0;
      n_wait = 0;
      n_update = 0;
      last_message = none;
      waiting_for = none;
      offset = 0;
      start_seq = 0;
      nest = 0;
      shm_name = 0;
      id = 0;
      freeing = false;
      in_loop = true;
      is_awaited = false;
    }) in
    set_job s' c (record { start = 0; priority = 0; group = 1; blocked = false; pending = false })
