-- ===== src/Rpc/Tests.antt =====
-- A program of either byte order, with one method of a fixed size, and the systems' calls.
use usfstl.Base.{
  ℕ, ◌+◌, ◌≡◌, refl, arith, Bool, true, false, Option, none, some, List, [], ◌∷◌, ◌++◌, length,
  ◌==◌, Result, ok, Returns,
}
use usfstl.Base.Int.{pos}
use usfstl.Rpc.{
  Node, Program, loop_handler, conn_at, rpc_handle_one, find_stub, accepts, size_fits, no_entry,
  make_call,
}
use usfstl.Rpc.Wire.{Request, plain_size, request_message, response_message}
use usfstl.Rpc.Vectors.{interrupted, moved, read_loop, rpc_writev, read_loop-rpc_writev}
use usfstl.Rpc.Call.{
  Host, rpc_request_of, request_bytes, argsize_masked, result_size, rpc_call, pad_name,
}
use usfstl.Rpc.Lookup.{Method, Fits, stub_of, args_of, find_stub-stub_of}
use usfstl.Rpc.Effects.{Leaves, Computes}
use usfstl.Rpc.Serve.{rpc_handle_one_unknown}
use usfstl.Rpc.Exchange.{rpc_call-rpc_handle_one}

-- "a"
abbrev succ : Method
succ = record { method_name = 97 ∷ []; out_size = 1; in_size = 1; var_out = false; var_in = false }

abbrev succ_fn : ℕ → List ℕ → Option ℕ → Option ℕ → Node ℕ → Result (Node ℕ × List ℕ)
succ_fn c (x ∷ xs) argsz retsz t = ok (t, (x + 1) ∷ [])
succ_fn c [] argsz retsz t = ok (t, [])

abbrev program : Bool → Program ℕ
program big = record {
  big_endian = big;
  stubs = none ∷ some (stub_of succ succ_fn) ∷ [];
  extra_transmit = λ c s bytes. 7 ∷ 8 ∷ [];
  extra_received = λ c bytes s. ok s;
  disconnected = λ c. none;
}

abbrev host : Host ℕ
host = record {
  select = λ n ds. (pos 1, ds);
  pre_handler = none;
  is_connection = λ i. i == 3;
  other_handler = λ i s. ok s;
}

abbrev node : List ℕ → Node ℕ
node bytes = record {
  loop_entries = 3 ∷ 4 ∷ [];
  entry = λ i. record { fd = i; priority = pos 0 };
  env = record {
    rpc_stack = λ i. 0;
    rpc_stack_num = 0;
    rpc_wait_result = 0;
    rpc_connections = 3 ∷ [];
    connection = λ i. record {
      initialized = true;
      broken = false;
      extra_len = 2;
      handler = loop_handler;
      input = bytes;
      output = [];
    };
    app = 0;
  };
}

abbrev caller : Node ℕ
caller = node (response_message true 0 (6 ∷ 9 ∷ []))

abbrev callee : Node ℕ
callee = node (request_bytes (program false) host caller 3 (args_of succ (5 ∷ []) 0 0) ++ 1 ∷ [])

succ-Fits : Fits succ 0 0
succ-Fits = record {
  in_size = omega arith;
  out_size = omega arith;
  argument = λ e. let no : ⊥ = cc in absurd no;
  result = λ e. let no : ⊥ = cc in absurd no;
}

succ-Computes : Computes 3 (stub_of succ succ_fn) (5 ∷ []) 1 1 (6 ∷ [])
unfolding make_call stub_of
succ-Computes t = (record { input = refl; output = refl; stack_num = refl }, refl)

masked : argsize_masked (args_of succ (5 ∷ []) 0 0) ≡ 1
unfolding args_of
masked = refl

-- 5 is sent by a little-endian program to a big-endian one, which answers 6.
rpc_call-rpc_handle_one_example :
    Returns
      (rpc_handle_one (program true) callee 3)
      (λ r. Leaves 3 r.0 (1 ∷ []) ((conn_at callee 3).output ++ response_message true 0 (6 ∷ [])) 0)
    × Returns
        (rpc_call (program false) host 1 caller 3 (args_of succ (5 ∷ []) 0 0))
        (λ r. r.1 ≡ 6 ∷ [])
unfolding args_of
rpc_call-rpc_handle_one_example =
    rpc_call-rpc_handle_one (program false) host caller 3 (program true) callee 3 succ (5 ∷ []) 0 0
      succ-Fits succ_fn (none ∷ []) [] (6 ∷ []) 0 (1 ∷ []) (9 ∷ []) refl (tt, tt) (omega arith) refl
      succ-Computes (λ bytes s. record { input = refl; output = refl; stack_num = refl }) refl
      (omega arith)
      (record { initialized = refl; not_broken = refl; remote = refl; name_fits = refl })
      (record {
        priorities = λ i. omega arith;
        ready = λ n ds h. (refl, h);
        no_pre_handler = refl;
        connection = refl;
      })
      refl refl

find_stub-stub_of_example :
    (find_stub
        (none ∷ some (stub_of succ succ_fn) ∷ [])
        (rpc_request_of (args_of succ (5 ∷ []) 0 0))
      ≡ some (stub_of succ succ_fn))
    × (plain_size (rpc_request_of (args_of succ (5 ∷ []) 0 0)).argsize
        ≡ argsize_masked (args_of succ (5 ∷ []) 0 0))
    × (plain_size (rpc_request_of (args_of succ (5 ∷ []) 0 0)).retsize
        ≡ result_size (args_of succ (5 ∷ []) 0 0))
find_stub-stub_of_example =
    find_stub-stub_of succ (5 ∷ []) 0 0 succ_fn (none ∷ []) [] succ-Fits (tt, tt)

-- A request for "b", which has an argument of one byte.
abbrev unknown : Request
unknown = record { name = pad_name (98 ∷ []); retsize = 1; argsize = 1 }

unknown_length : length (pad_name (98 ∷ [])) ≡ 128
unfolding pad_name
unknown_length = refl

not_found : find_stub (none ∷ some (stub_of succ succ_fn) ∷ []) unknown ≡ none
unfolding find_stub stub_of accepts size_fits pad_name rpc_request_of args_of
not_found = refl

abbrev asked_unknown : Node ℕ
asked_unknown = node (request_message true unknown (7 ∷ 8 ∷ []) (5 ∷ []))

rpc_handle_one_unknown_example :
    Returns
      (rpc_handle_one (program false) asked_unknown 3)
      (λ r. Leaves 3 r.0 (5 ∷ []) ([] ++ response_message false no_entry []) 0 × (r.1 ≡ 0))
rpc_handle_one_unknown_example =
    rpc_handle_one_unknown 3 (program false) asked_unknown true unknown (7 ∷ 8 ∷ [])
      (record { name = unknown_length; retsize = omega arith; argsize = omega arith }) refl
      (λ bytes s. record { input = refl; output = refl; stack_num = refl }) (omega arith) (5 ∷ [])
      refl not_found

read_loop-rpc_writev_example :
    Returns
      (rpc_writev (moved 1 ∷ interrupted ∷ moved 2 ∷ []) ((4 ∷ 5 ∷ []) ∷ [] ∷ (6 ∷ []) ∷ []))
      (λ bytes. read_loop (moved 3 ∷ []) (bytes ++ 9 ∷ []) 3 ≡ ok (4 ∷ 5 ∷ 6 ∷ [], 9 ∷ []))
read_loop-rpc_writev_example =
    read_loop-rpc_writev (moved 1 ∷ interrupted ∷ moved 2 ∷ []) (moved 3 ∷ [])
      ((4 ∷ 5 ∷ []) ∷ [] ∷ (6 ∷ []) ∷ []) (9 ∷ [])
      (omega arith, omega arith, (omega arith, omega arith, tt)) (omega arith, omega arith, tt)
