-- ===== src/Shm.antt =====
-- include/linux/um_timetravel.h: the messages of the time protocol, and the memory that the controller
-- shares with its clients.
use usfstl.Base.{ℕ, Bool, ltb, ◌==◌, if◌then◌else◌, Result, ok, abort}

-- enum um_timetravel_ops.
pub data Op : Type 0 where
  op_ack op_start op_request op_wait op_get op_update op_run op_free_until op_get_tod op_broadcast :
      Op

-- struct um_timetravel_msg.
pub record Msg : Type 0 where
  pub op : Op
  pub seq : ℕ  -- uint32_t
  pub time : ℕ  -- uint64_t

-- union um_timetravel_schedshm_client, with the bits UM_TIMETRAVEL_SCHEDSHM_CAP_TIME_SHARE of `capa` and
-- UM_TIMETRAVEL_SCHEDSHM_FLAGS_REQ_RUN of `flags`.
pub record ShmClient : Type 0 where
  pub capa : Bool
  pub flags : Bool
  pub req_time : ℕ  -- uint64_t
  pub name : ℕ  -- uint64_t

-- struct um_timetravel_schedshm.
pub record Shm : Type 0 where
  pub version : ℕ
  pub free_until : ℕ  -- uint64_t
  pub current_time : ℕ  -- uint64_t
  pub running_id : ℕ  -- uint16_t
  pub max_clients : ℕ
  pub clients : ℕ → ShmClient

-- `clients` has max_clients elements: an access behind them is not defined.
abbrev pub client_at : Shm → ℕ → Result ShmClient
client_at m i = if ltb i m.max_clients then ok (m.clients i) else abort "undefined"

abbrev pub set_client : Shm → ℕ → ShmClient → Shm
set_client m i c = record m { clients = λ j. if i == j then c else m.clients j }
