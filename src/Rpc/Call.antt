-- ===== src/Rpc/Call.antt =====
-- src/rpc.c: the caller's side, which writes a request and handles other calls until the response
-- arrives, and the connections that the main loop handles.
use usfstl.Base.{
  ℕ, zero, suc, Bool, true, not, Option, none, some, List, [], ◌∷◌, ◌++◌, length, take, ltb, ◌==◌,
  if◌then◌else◌, mem, remove, is_some, Result, ok, abort, assert, ◌>>=◌, ◌>>◌,
}
use usfstl.Base.Int.{ℤ, pos}
use usfstl.Loop.{loop_register, loop_unregister}
use usfstl.Loop.{wait_and_handle}
use usfstl.Rpc.{
  Handler, loop_handler, loop_wait_handler, Node, Program, conn_at, set_conn, rpc_read, write_bytes,
  find_stub, make_call, run_handler,
}
use usfstl.Rpc.Wire.{
  Request, plain_size, or_var, swap32, put32, get32, put_header, request_tag, response_tag,
}

-- The arguments of usfstl_rpc_call. `name` has no zero in it, and `arg` is what `arg` points to.
pub record CallArgs : Type 0 where
  pub call_name : List ℕ
  pub arg : List ℕ
  pub argmin : ℕ
  pub argsize : ℕ
  pub retmin : ℕ
  pub retsize : ℕ

abbrev pub zeroes : ℕ → List ℕ
zeroes zero = []
zeroes (suc n) = 0 ∷ zeroes n

-- strcpy into the 128 bytes of a name that are zero.
unfoldable pub pad_name : List ℕ → List ℕ
pad_name name = take 128 (name ++ zeroes 128)

-- The request, initialised and with the name copied into its 128 bytes.
unfoldable pub rpc_request_of : CallArgs → Request
rpc_request_of a = record {
  name = pad_name a.call_name;
  retsize = if a.retsize == 0 then a.retmin else or_var a.retsize;
  argsize = if a.argsize == 0 then a.argmin else a.argsize;
}

abbrev pub argsize_masked : CallArgs → ℕ
argsize_masked a = if plain_size a.argsize == 0 then a.argmin else plain_size a.argsize

abbrev pub result_size : CallArgs → ℕ
result_size a = if a.retsize == 0 then a.retmin else a.retsize

-- "rpc_init-struct usfstl_rpc_init*-struct usfstl_rpc_init*"
abbrev pub rpc_init_name : List ℕ
rpc_init_name =
    114 ∷ 112 ∷ 99 ∷ 95 ∷ 105 ∷ 110 ∷ 105 ∷ 116 ∷ 45 ∷ 115 ∷ 116 ∷ 114 ∷ 117 ∷ 99 ∷ 116 ∷ 32 ∷ 117
    ∷ 115 ∷ 102 ∷ 115 ∷ 116 ∷ 108 ∷ 95 ∷ 114 ∷ 112 ∷ 99 ∷ 95 ∷ 105 ∷ 110 ∷ 105 ∷ 116 ∷ 42 ∷ 45 ∷ 115
    ∷ 116 ∷ 114 ∷ 117 ∷ 99 ∷ 116 ∷ 32 ∷ 117 ∷ 115 ∷ 102 ∷ 115 ∷ 116 ∷ 108 ∷ 95 ∷ 114 ∷ 112 ∷ 99 ∷ 95
    ∷ 105 ∷ 110 ∷ 105 ∷ 116 ∷ 42 ∷ []

-- "rpc_disconnect--uint32_t"
abbrev pub rpc_disconnect_name : List ℕ
rpc_disconnect_name =
    114 ∷ 112 ∷ 99 ∷ 95 ∷ 100 ∷ 105 ∷ 115 ∷ 99 ∷ 111 ∷ 110 ∷ 110 ∷ 101 ∷ 99 ∷ 116 ∷ 45 ∷ 45 ∷ 117
    ∷ 105 ∷ 110 ∷ 116 ∷ 51 ∷ 50 ∷ 95 ∷ 116 ∷ []

-- g_usfstl_rpc_local
abbrev pub rpc_local : ℕ
rpc_local = 0

-- What the main loop needs: select, the function called before each handler, which of its entries
-- are those of connections, and the handlers of the others.
pub record Host (E : Type 0) : Type 0 where
  pub select : ℕ → List ℕ → ℤ × List ℕ
  pub pre_handler : Option (Node E → Result (Node E))
  pub is_connection : ℕ → Bool
  pub other_handler : ℕ → Node E → Result (Node E)

module _ {E : Type 0} where
  abbrev pub set_wait_result : Node E → ℕ → Node E
  set_wait_result s r = record s { env = record (s.env) { rpc_wait_result = r } }

  -- conn.priority and conn.handler of a connection.
  abbrev pub set_entry : Node E → ℕ → ℤ → Handler → Node E
  set_entry s c prio h =
      set_conn
        (record s {
          entry = λ i. if c == i then record (s.entry c) { priority = prio } else s.entry i;
        })
        c (record (conn_at s c) { handler = h })

  module _ (p : Program E) (host : Host E) where
    unfoldable pub call_handler : ℕ → Node E → Result (Node E)
    call_handler t s =
        if host.is_connection t
        then run_handler p (conn_at s t).handler t s
        else host.other_handler t s

    abbrev pub rpc_loop_round : Node E → Result (Node E)
    rpc_loop_round s = wait_and_handle host.select host.pre_handler call_handler s

    -- The connection is put first, with the handler that waits for a response.
    unfoldable pub enter_wait : Node E → ℕ → Node E
    enter_wait s c =
        let t = if mem c s.loop_entries then loop_unregister s c else s in
        loop_register (set_entry t c (pos 2147483647) loop_wait_handler) c

    unfoldable pub leave_wait : Node E → ℕ → Bool → ℤ → Node E
    leave_wait s c registered prio =
        let t = set_entry (loop_unregister s c) c prio loop_handler in
        if registered then loop_register t c else t

    -- One pass of the loop of usfstl_rpc_wait_and_handle.
    unfoldable pub rpc_wait_round : Node E → Option ℕ → Result (Node E)
    rpc_wait_round s none = rpc_loop_round (set_wait_result s 0)
    rpc_wait_round s (some c) = do
      t ← rpc_loop_round (enter_wait (set_wait_result s 0) c)
      ok (leave_wait t c (mem c s.loop_entries) (s.entry c).priority)

    unfoldable pub rpc_wait_and_handle : ℕ → Node E → Option ℕ → Result (Node E × ℕ)
    rpc_wait_and_handle zero s wait = abort "out of fuel"
    rpc_wait_and_handle (suc fuel) s wait = do
      t ← rpc_wait_round s wait
      let again = rpc_wait_and_handle fuel t wait
      if is_some wait
          then (if t.env.rpc_wait_result == 0
              then again
              else ok (set_wait_result t 0, t.env.rpc_wait_result))
          else ok (set_wait_result t 0, t.env.rpc_wait_result)

    unfoldable pub rpc_handle : ℕ → Node E → Result (Node E)
    rpc_handle fuel s = do
      r ← rpc_wait_and_handle fuel s none
      assert (r.1 == 0) "usfstl_rpc_wait_and_handle(NULL) == 0"
      ok r.0

    abbrev pub extra_data : Node E → ℕ → List ℕ
    extra_data s c =
        let n = (conn_at s c).extra_len in
        if ltb 0 n then take n (p.extra_transmit c s (zeroes n)) else []

    unfoldable pub call_local : Node E → ℕ → CallArgs → Result (Node E × List ℕ)
    call_local s c a = elim (find_stub p.stubs (rpc_request_of a)) [
      | none ↦ abort "stub"
      | some stub ↦ do
        t ← if ltb 0 (conn_at s c).extra_len then p.extra_received c (extra_data s c) s else ok s
        make_call t c stub a.arg (argsize_masked a) (result_size a)
    ]

    unfoldable pub request_bytes : Node E → ℕ → CallArgs → List ℕ
    request_bytes s c a =
        put32 p.big_endian request_tag
        ++ (put_header p.big_endian (rpc_request_of a)
            ++ (extra_data s c ++ take (argsize_masked a) a.arg))

    -- The status of a response with the tag `tag`.
    abbrev pub status_of : ℕ → List ℕ → ℕ
    status_of tag bytes =
        if tag == swap32 response_tag
        then swap32 (get32 p.big_endian bytes)
        else get32 p.big_endian bytes

    unfoldable pub call_remote : ℕ → Node E → ℕ → CallArgs → Result (Node E × List ℕ)
    call_remote fuel s c a = do
      r ← rpc_wait_and_handle fuel (write_bytes s c (request_bytes s c a)) (some c)
      t ← rpc_read r.0 c 4
      assert (status_of r.1 t.1 == 0) "0"
      rpc_read t.0 c (result_size a)

    -- usfstl_rpc_call on a connection that is initialized. The name must fit into the request, which
    -- strcpy does not check.
    unfoldable pub call_on : ℕ → Node E → ℕ → CallArgs → Result (Node E × List ℕ)
    call_on fuel s c a = do
      assert (not (conn_at s c).broken) "!conn->broken"
      assert (ltb (length a.call_name) 128) "strcpy(req.name, name)"
      if c == rpc_local then call_local s c a else call_remote fuel s c a

    abbrev pub init_args : Node E → ℕ → CallArgs
    init_args s c = record {
      call_name = rpc_init_name;
      arg = put32 p.big_endian (conn_at s c).extra_len;
      argmin = 4;
      argsize = or_var 4;
      retmin = 4;
      retsize = 4;
    }

    unfoldable pub rpc_initialize : ℕ → Node E → ℕ → Result (Node E)
    rpc_initialize fuel s c = do
      r ←
          call_on fuel (set_conn s c (record (conn_at s c) { initialized = true })) c
            (init_args s c)
      ok r.0

    abbrev pub initialize_once : ℕ → Node E → ℕ → Result (Node E)
    initialize_once fuel s c = if (conn_at s c).initialized then ok s else rpc_initialize fuel s c

    unfoldable pub rpc_call : ℕ → Node E → ℕ → CallArgs → Result (Node E × List ℕ)
    rpc_call fuel s c a = do t ← initialize_once fuel s c; call_on fuel t c a

    unfoldable pub add_connection : ℕ → Node E → ℕ → Result (Node E)
    add_connection fuel s c = do
      t ← initialize_once fuel s c
      let u = set_conn t c (record (conn_at t c) { handler = loop_handler })
      ok (
          loop_register
            (record u {
              env = record (u.env) { rpc_connections = u.env.rpc_connections ++ c ∷ [] };
            })
            c)

    abbrev pub del_connection_raw : Node E → ℕ → Node E
    del_connection_raw s c =
        let t = loop_unregister s c in
        record t { env = record (t.env) { rpc_connections = remove c t.env.rpc_connections } }

    abbrev pub disconnect_args : CallArgs
    disconnect_args = record {
      call_name = rpc_disconnect_name;
      arg = zeroes 4;
      argmin = 4;
      argsize = 0;
      retmin = 0;
      retsize = 0;
    }

    unfoldable pub del_connection : ℕ → Node E → ℕ → Result (Node E)
    del_connection fuel s c = do
      r ← rpc_call fuel s c disconnect_args
      let t = del_connection_raw r.0 c
      ok (set_conn t c (record (conn_at t c) { broken = true }))
