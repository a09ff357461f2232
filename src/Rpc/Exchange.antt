-- ===== src/Rpc/Exchange.antt =====
-- src/rpc.c: a call over a connection between two programs, from the caller's arguments to the
-- callee's stub and back.
use usfstl.Base.{
  ℕ, suc, ◌≤◌, ◌<◌, ◌≡◌, refl, sym, ap, ◌∙◌, Option, some, List, ◌∷◌, ◌++◌, All, length, take,
  Result, Returns, length-take,
}
use mathlib.Core.List.{append_assoc}
use usfstl.Sched.Quiet.{Returns-mono}
use usfstl.Rpc.{Node, Program, Stub, find_stub, max_rpc_stack, conn_at, rpc_handle_one}
use usfstl.Rpc.Wire.{put32, put_header, request_tag, request_message, response_message}
use usfstl.Rpc.Call.{
  Host, CallArgs, rpc_request_of, request_bytes, extra_data, argsize_masked, result_size, rpc_call,
  pad_name,
}
use usfstl.Rpc.Lookup.{
  Method, Fits, Other, stub_of, args_of, find_stub-stub_of, rpc_request_of-IsHeader,
}
use usfstl.Rpc.Effects.{Computes, Leaves}
use usfstl.Rpc.Serve.{ExtraKeeps, Answers, rpc_handle_one-Leaves}
use usfstl.Rpc.Wait.{CanWait}
use usfstl.Rpc.Answer.{IsOpen, rpc_call-Leaves}

-- The caller is the program `p` in the state `s` and calls over `c`, the callee is `q` in `u`, with
-- the other end `d`.
module _ {E F : Type 0} (p : Program E) (host : Host E) (s : Node E) (c : ℕ) (q : Program F)
    (u : Node F) (d : ℕ) where
  request_arrives :
      (a : CallArgs) (more : List ℕ)
      → request_bytes p host s c a ++ more
        ≡ request_message p.big_endian
            (rpc_request_of a)
            (extra_data p host s c)
            (take (argsize_masked a) a.arg ++ more)
  unfolding request_bytes
  request_arrives a more =
      let arg = take (argsize_masked a) a.arg in
      let extra = extra_data p host s c in
      let header = put_header p.big_endian (rpc_request_of a) in
      append_assoc (put32 p.big_endian request_tag) (header ++ (extra ++ arg)) more
      ∙ ap (λ x. put32 p.big_endian request_tag ++ x)
          (append_assoc header (extra ++ arg) more
            ∙ ap (λ x. header ++ x) (append_assoc extra arg more))

  module _ (m : Method) (bytes : List ℕ) (argsz retsz : ℕ) (h : Fits m argsz retsz)
      (f : ℕ → List ℕ → Option ℕ → Option ℕ → Node F → Result (Node F × List ℕ))
      (before after : List (Option (Stub F))) (ret : List ℕ) where
    sent_argument : (args_of m bytes argsz retsz).arg ≡ bytes
    unfolding args_of
    sent_argument = refl

    stub_of-Answers :
        q.stubs ≡ before ++ some (stub_of m f) ∷ after
        → All (Other (pad_name m.method_name)) before
        → argsize_masked (args_of m bytes argsz retsz) ≤ length bytes
        → length ret ≡ result_size (args_of m bytes argsz retsz)
        → Computes d
            (stub_of m f)
            (take (argsize_masked (args_of m bytes argsz retsz)) bytes)
            (argsize_masked (args_of m bytes argsz retsz))
            (length ret)
            ret
        → Answers d q
            (rpc_request_of (args_of m bytes argsz retsz))
            (take (argsize_masked (args_of m bytes argsz retsz)) bytes)
            ret
    stub_of-Answers e o b n k =
        let l = find_stub-stub_of m bytes argsz retsz f before after h o in
        (
          stub_of m f,
          ap (λ stubs. find_stub stubs (rpc_request_of (args_of m bytes argsz retsz))) e ∙ l.0,
          length-take (argsize_masked (args_of m bytes argsz retsz)) bytes b ∙ sym l.1,
          n ∙ sym l.2,
          rw l.1 k,
        )

    -- A method that one program declares and another implements, in the same byte order or in
    -- different ones: from the bytes that the caller writes, the callee computes the result with its
    -- stub and writes a response; and the caller, who reads this response, returns that result.
    -- The callee reads the request whole and nothing behind it.
    pub rpc_call-rpc_handle_one :
        (fuel : ℕ) (more rest : List ℕ)
        → q.stubs ≡ before ++ some (stub_of m f) ∷ after
        → All (Other (pad_name m.method_name)) before
        → argsize_masked (args_of m bytes argsz retsz) ≤ length bytes
        → length ret ≡ result_size (args_of m bytes argsz retsz)
        → Computes d
            (stub_of m f)
            (take (argsize_masked (args_of m bytes argsz retsz)) bytes)
            (argsize_masked (args_of m bytes argsz retsz))
            (length ret)
            ret
        → ExtraKeeps d q
        → length (extra_data p host s c) ≡ (conn_at u d).extra_len
        → u.env.rpc_stack_num < max_rpc_stack
        → IsOpen p host c s (args_of m bytes argsz retsz)
        → CanWait p host c s
        → (conn_at u d).input ≡ request_bytes p host s c (args_of m bytes argsz retsz) ++ more
        → (conn_at s c).input ≡ response_message q.big_endian 0 (ret ++ rest)
        → Returns (rpc_handle_one q u d) (λ r.
          Leaves d r.0 more
            ((conn_at u d).output ++ response_message q.big_endian 0 ret)
            u.env.rpc_stack_num)
          × Returns (rpc_call p host (suc fuel) s c (args_of m bytes argsz retsz)) (λ r. r.1 ≡ ret)
    rpc_call-rpc_handle_one fuel more rest e o b n k x y room is_open waits i j =
        let a = args_of m bytes argsz retsz in
        (
          Returns-mono (rpc_handle_one q u d) _ _
              (rpc_handle_one-Leaves d q u p.big_endian (rpc_request_of a) (extra_data p host s c)
                (rpc_request_of-IsHeader m bytes argsz retsz h) y x room
                (take (argsize_masked a) bytes) more ret
                (i
                  ∙ request_arrives a more
                  ∙ ap
                      (λ xs.
                        request_message p.big_endian (rpc_request_of a) (extra_data p host s c)
                          (take (argsize_masked a) xs ++ more))
                      sent_argument)
                (stub_of-Answers e o b n k))
              (λ r l. l.0),
          Returns-mono (rpc_call p host (suc fuel) s c a) _ _
              (rpc_call-Leaves p host c fuel s a is_open waits q.big_endian ret rest j n)
              (λ r l. l.1),
        )
