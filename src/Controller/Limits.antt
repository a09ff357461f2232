-- ===== src/Controller/Limits.antt =====
-- A client that leaves before it has started, and the last number of a client.
use usfstl.Base.{ℕ, ◌≡◌, ◌<◌, refl, arith, false, mem, ltb, ◌==◌, abort}
use usfstl.Sched.{del_job}
use usfstl.Controller.{closed, Controller, new_client, first_free, unlist}
use usfstl.Controller.Server.{Inner, remove_client}
use usfstl.Controller.Messages.{handle_message, handle_read, handle_conn}
use usfstl.Controller.Run.{process_starting_client}

del_job_env : (s : Controller) (j : ℕ) → (del_job s j).env ≡ s.env
unfolding del_job
del_job_env s j = ground arith

module _ (inner : Inner) (s : Controller) (c : ℕ) where
  -- A connection that is new and in no list, and is closed before START, is removed from a list it is not in.
  pub handle_conn_closed :
      mem c s.env.client_list ≡ false
      → mem c s.env.new_clients ≡ false
      → handle_conn inner (new_client s c) c closed ≡ abort "entry->next is NULL"
  unfolding handle_conn handle_read handle_message new_client remove_client unlist
  handle_conn_closed h k = rw (del_job_env (new_client s c) c, h, k) refl

  -- When as many clients as the shared memory has entries for minus one have started and a client starts, it
  -- is given a number behind the last entry.
  pub process_starting_client-max_clients :
      first_free 64 1 s.env.clients ≡ s.env.shm.max_clients
      → 0 < s.env.shm.max_clients
      → process_starting_client inner s c ≡ abort "undefined"
  unfolding process_starting_client
  process_starting_client-max_clients h k =
      let e : (s.env.shm.max_clients == 0) ≡ false = ground arith in
      let l : ltb s.env.shm.max_clients s.env.shm.max_clients ≡ false = ground arith in
      rw (h, e, l) refl
