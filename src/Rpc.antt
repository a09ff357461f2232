-- ===== src/Rpc.antt =====
-- src/rpc.c, src/rpc-rpc.c and include/usfstl/rpc.h: remote procedure calls between programs, by name,
-- over the sockets of the main loop. Wire holds the words of a message, Call the caller's side,
-- Vectors the reading and writing of src/rpc-posix.c, and the other children the proofs.
pub mod Wire
pub mod Vectors
pub mod Lookup
pub mod Effects
pub mod Serve
pub mod Call
pub mod Wait
pub mod Answer
pub mod Exchange
pub mod Init
mod Tests
use usfstl.Base.{
  ℕ, zero, ◌+◌, ◌-◌, ◌*◌, ◌%◌, ◌^◌, Bool, true, false, ◌&&◌, ◌||◌, not, Option, none, some, List,
  [], ◌∷◌, ◌++◌, length, take, drop, ltb, leb, ◌==◌, if◌then◌else◌, mem, remove, Result, ok, abort,
  assert, ◌>>=◌, ◌>>◌,
}
use usfstl.Base.Int.{ℤ}
use usfstl.Loop.{Loop, loop_register, loop_unregister}
use usfstl.Rpc.Wire.{
  Request, has_var, plain_size, same_bytes, swap32, put32, get32, request_tag, response_tag,
  header_size, get_header,
}

-- What conn.handler may be: usfstl_rpc_loop_handler or usfstl_rpc_loop_wait_handler.
pub data Handler : Type 0 where
  loop_handler loop_wait_handler : Handler

-- struct usfstl_rpc_connection, but for its priority, which is that of the loop's entry, and its
-- function pointers. `input` is what arrives at the socket and is not read yet, `output` what is
-- written.
pub record Connection : Type 0 where
  pub initialized : Bool
  pub broken : Bool
  pub extra_len : ℕ  -- uint32_t
  pub handler : Handler
  pub input : List ℕ
  pub output : List ℕ

-- The variables of src/rpc.c. A connection is known by the number of its loop entry; `app` is what
-- the stubs and callbacks keep elsewhere.
pub record Rpc (E : Type 0) : Type 0 where
  pub rpc_stack : ℕ → ℕ
  pub rpc_stack_num : ℕ  -- unsigned int
  pub rpc_wait_result : ℕ  -- uint32_t
  pub rpc_connections : List ℕ
  pub connection : ℕ → Connection
  pub app : E

abbrev pub Node : Type 0 → Type 0
Node E = Loop (Rpc E)

abbrev pub max_rpc_stack : ℕ
max_rpc_stack = 20

-- -ENOENT, as a uint32_t
abbrev pub no_entry : ℕ
no_entry = 4294967294

-- struct usfstl_rpc_stub. `fn` is given the sizes that its signature has, and returns what it leaves
-- in the buffer for the result.
pub record Stub (E : Type 0) : Type 0 where
  pub req : Request
  pub fn : ℕ → List ℕ → Option ℕ → Option ℕ → Node E → Result (Node E × List ℕ)

-- What differs between programs: the byte order, the stubs of the section usfstl_rpc, and the
-- callbacks of the connections. `extra_transmit` fills a buffer of zeroes.
pub record Program (E : Type 0) : Type 0 where
  pub big_endian : Bool
  pub stubs : List (Option (Stub E))
  pub extra_transmit : ℕ → Node E → List ℕ → List ℕ
  pub extra_received : ℕ → List ℕ → Node E → Result (Node E)
  pub disconnected : ℕ → Option (Node E → Result (Node E))

-- Whether a stub that declares the size `declared` accepts a request with the size `size`: the sizes
-- are equal, or both are variable and the declared one is the least.
unfoldable pub size_fits : ℕ → ℕ → Bool
size_fits declared size =
    if has_var size
    then has_var declared && leb (plain_size declared) (plain_size size)
    else not (has_var declared) && plain_size size == declared

module _ {E : Type 0} where
  abbrev pub conn_at : Node E → ℕ → Connection
  conn_at s c = s.env.connection c

  abbrev pub set_conn : Node E → ℕ → Connection → Node E
  set_conn s c v = record s {
    env = record (s.env) { connection = λ i. if c == i then v else s.env.connection i };
  }

  abbrev pub with_input : Node E → ℕ → List ℕ → Node E
  with_input s c bytes = set_conn s c (record (conn_at s c) { input = bytes })

  abbrev pub with_output : Node E → ℕ → List ℕ → Node E
  with_output s c bytes = set_conn s c (record (conn_at s c) { output = bytes })

  -- `n` bytes, or the end of the program at the end of the stream.
  unfoldable pub rpc_read : Node E → ℕ → ℕ → Result (Node E × List ℕ)
  rpc_read s c n =
      let bytes = (conn_at s c).input in
      if leb n (length bytes)
      then ok (with_input s c (drop n bytes), take n bytes)
      else abort "ret > 0"

  unfoldable pub write_bytes : Node E → ℕ → List ℕ → Node E
  write_bytes s c bytes = with_output s c ((conn_at s c).output ++ bytes)

  -- The counter is unsigned and wraps.
  abbrev pub pop_stack : Node E → Node E
  pop_stack s = record s {
    env = record (s.env) { rpc_stack_num = (s.env.rpc_stack_num + 2 ^ 32 - 1) % 2 ^ 32 };
  }

  abbrev pub push_stack : Node E → ℕ → Node E
  push_stack s c = record s {
    env = record (s.env) {
      rpc_stack = λ i. if s.env.rpc_stack_num == i then c else s.env.rpc_stack i;
      rpc_stack_num = s.env.rpc_stack_num + 1;
    };
  }

  unfoldable pub accepts : Stub E → Request → Bool
  accepts stub hdr =
      same_bytes stub.req.name hdr.name
      && size_fits stub.req.argsize hdr.argsize
      && size_fits stub.req.retsize hdr.retsize

  unfoldable pub find_stub : List (Option (Stub E)) → Request → Option (Stub E)
  find_stub [] hdr = none
  find_stub (none ∷ stubs) hdr = find_stub stubs hdr
  find_stub (some stub ∷ stubs) hdr =
      let rest = find_stub stubs hdr in if accepts stub hdr then some stub else rest

  -- Which sizes the function is given depends on the stub's flags.
  unfoldable pub make_call : Node E → ℕ → Stub E → List ℕ → ℕ → ℕ → Result (Node E × List ℕ)
  make_call s c stub arg argsize retsize =
      stub.fn c arg (if has_var stub.req.argsize then some argsize else none)
        (if has_var stub.req.retsize then some retsize else none) s

  module _ (p : Program E) where
    unfoldable pub rpc_send_response : Node E → ℕ → ℕ → List ℕ → Node E
    rpc_send_response s c status ret =
        pop_stack
          (write_bytes s c (put32 p.big_endian response_tag ++ (put32 p.big_endian status ++ ret)))

    abbrev pub send_void_response : Node E → ℕ → Node E
    send_void_response s c = rpc_send_response s c 0 []

    -- The buffers are on the stack or, if they are large, from malloc.
    unfoldable pub handle_call : Node E → ℕ → Stub E → ℕ → ℕ → Result (Node E)
    handle_call s c stub argsize retsize = do
      r ← rpc_read s c argsize
      t ← make_call r.0 c stub r.1 argsize retsize
      ok (rpc_send_response t.0 c 0 (take retsize t.1))

    unfoldable pub handle_one_call : Node E → ℕ → Request → Result (Node E)
    handle_one_call s c hdr = do
      assert (ltb s.env.rpc_stack_num max_rpc_stack) "g_usfstl_rpc_stack_num < USFSTL_MAX_RPC_STACK"
      elim (find_stub p.stubs hdr) [
        | none ↦ ok (rpc_send_response (push_stack s c) c no_entry [])
        | some stub ↦
            handle_call (push_stack s c) c stub (plain_size hdr.argsize) (plain_size hdr.retsize)
      ]

    -- What follows the tag of a request.
    unfoldable pub handle_rest : Node E → ℕ → Bool → Result (Node E × ℕ)
    handle_rest s c swap = do
      r ← rpc_read s c header_size
      e ← rpc_read r.0 c (conn_at s c).extra_len
      u ← if ltb 0 (conn_at s c).extra_len then p.extra_received c e.1 e.0 else ok e.0
      t ← handle_one_call u c (get_header p.big_endian swap r.1)
      ok (t, 0)

    unfoldable pub rpc_handle_one : Node E → ℕ → Result (Node E × ℕ)
    rpc_handle_one s c = do
      r ← rpc_read s c 4
      let tag = get32 p.big_endian r.1
      if tag == request_tag
          then handle_rest r.0 c false
          else if tag == swap32 request_tag
          then handle_rest r.0 c true
          else if tag == response_tag || tag == swap32 response_tag
          then ok (r.0, tag)
          else abort "0"

    -- usfstl_rpc_loop_handler and usfstl_rpc_loop_wait_handler
    unfoldable pub run_handler : Handler → ℕ → Node E → Result (Node E)
    run_handler loop_handler c s = do
      r ← rpc_handle_one s c
      assert (r.1 == 0) "usfstl_rpc_handle_one(conn) == 0"
      ok r.0
    run_handler loop_wait_handler c s = do
      r ← rpc_handle_one s c
      ok (
          if r.1 == response_tag || r.1 == swap32 response_tag
          then record (r.0) { env = record (r.0.env) { rpc_wait_result = r.1 } }
          else r.0)

    -- The stub of rpc_init: both sides must agree on the size of the extra data.
    unfoldable pub rpc_init : ℕ → List ℕ → Node E → Result (Node E × List ℕ)
    rpc_init c arg s = do
      assert (get32 p.big_endian arg == (conn_at s c).extra_len) "in->extra_len == conn->extra_len"
      ok (
        set_conn s c (record (conn_at s c) { initialized = true }),
        put32 p.big_endian (conn_at s c).extra_len,
      )

    unfoldable pub rpc_disconnect : ℕ → Node E → Result (Node E)
    rpc_disconnect c s =
        let t = set_conn s c (record (conn_at s c) { broken = true }) in
        elim (p.disconnected c) [ none ↦ ok t | some f ↦ f (loop_unregister t c) ]
