-- ===== src/Rpc/Answer.antt =====
-- src/rpc.c: a call returns the result that the response to it holds.
use usfstl.Base.{
  ℕ, suc, ◌<◌, ◌≡◌, refl, ◌∙◌, inl, inr, arith, Bool, true, false, some, List, [], ◌++◌, length,
  ltb, ◌==◌, ==_refl, Bool-cases, Returns, Aborts, Aborts-after,
}
use mathlib.Core.List.{append-nil}
use usfstl.Sched.Quiet.{Returns-bind, Returns-mono}
use usfstl.Rpc.{Node, Program, conn_at, with_input, write_bytes}
use usfstl.Rpc.Wire.{
  swap32, put32, response_message, response_tag, differ, IsU32, length-put32, reread,
}
use usfstl.Rpc.Call.{
  Host, CallArgs, rpc_wait_and_handle, call_remote, call_on, rpc_call, request_bytes, result_size,
  status_of, rpc_local,
}
use usfstl.Rpc.Effects.{Leaves, rpc_read_lem, with_input-Leaves}
use usfstl.Rpc.Wait.{CanWait, tag_from, wait_lem}

nonzero : (n : ℕ) → 0 < n → (n == 0) ≡ false
nonzero n h = ground arith

module _ {E : Type 0} (p : Program E) (host : Host E) (c : ℕ) where
  tag_swapped :
      (big : Bool) → (tag_from p host c big == swap32 response_tag) ≡ differ p.big_endian big
  unfolding swap32
  tag_swapped big = elim (Bool-cases (differ p.big_endian big)) [
    | inl e ↦ rw (e) refl
    | inr e ↦ rw (e) refl
  ]

  status_lem :
      (big : Bool) (status : ℕ)
      → IsU32 status
      → status_of p host (tag_from p host c big) (put32 big status) ≡ status
  status_lem big status h =
      rw (tag_swapped big, ← append-nil (put32 big status)) (reread p.big_endian big status [] h)

  -- A connection on which a call can be made.
  pub record IsOpen (s : Node E) (a : CallArgs) : Type 0 where
    pub initialized : (conn_at s c).initialized ≡ true
    pub not_broken : (conn_at s c).broken ≡ false
    pub remote : (c == rpc_local) ≡ false
    pub name_fits : ltb (length a.call_name) 128 ≡ true

  module _ (fuel : ℕ) (s : Node E) (a : CallArgs) (o : IsOpen s a) (w : CanWait p host c s)
      (big : Bool) where
    abbrev sent : Node E
    sent = write_bytes s c (request_bytes p host s c a)

    remote_call : rpc_call p host (suc fuel) s c a ≡ call_remote p host (suc fuel) s c a
    unfolding rpc_call call_on
    remote_call = rw (o.initialized, o.not_broken, o.name_fits, o.remote) refl

    sent_waits :
        (rest : List ℕ)
        → (conn_at s c).input ≡ put32 big response_tag ++ rest
        → Returns (rpc_wait_and_handle p host (suc fuel) sent (some c)) (λ r.
          Leaves c r.0 rest ((conn_at s c).output ++ request_bytes p host s c a) s.env.rpc_stack_num
          × (r.1 ≡ tag_from p host c big))
    unfolding write_bytes
    sent_waits rest e =
        let t = write_bytes s c (request_bytes p host s c a) in
        let w' : CanWait p host c t = record {
          priorities = w.priorities;
          ready = w.ready;
          no_pre_handler = w.no_pre_handler;
          connection = w.connection;
        } in
        let written : (conn_at t c).output ≡ (conn_at s c).output ++ request_bytes p host s c a =
          rw (==_refl c) refl in
        Returns-mono (rpc_wait_and_handle p host (suc fuel) t (some c)) _ _
          (wait_lem p host c fuel t big rest w' (rw (==_refl c) e))
          (λ r k. (
            record { input = k.0.input; output = k.0.output ∙ written; stack_num = k.0.stack_num },
            k.1,
          ))

    -- When the response to a call arrives, from a program of either byte order, the call returns the
    -- result that it holds: one pass of the loop is enough. It has written the request, and what
    -- follows the response is still to be read.
    pub rpc_call-Leaves :
        (ret rest : List ℕ)
        → (conn_at s c).input ≡ response_message big 0 (ret ++ rest)
        → length ret ≡ result_size a
        → Returns (rpc_call p host (suc fuel) s c a) (λ r.
          Leaves c r.0 rest ((conn_at s c).output ++ request_bytes p host s c a) s.env.rpc_stack_num
          × (r.1 ≡ ret))
    unfolding call_remote
    rpc_call-Leaves ret rest e n = rw remote_call (
        Returns-bind (rpc_wait_and_handle p host (suc fuel) sent (some c)) _ _ _
          (sent_waits (put32 big 0 ++ (ret ++ rest)) e)
          (λ r k.
            let t = with_input r.0 c (ret ++ rest) in
            let l = with_input-Leaves c r.0 (ret ++ rest) in
            let l' = with_input-Leaves c t rest in
            rw
              (
                rpc_read_lem c r.0 (put32 big 0) (ret ++ rest) 4 k.0.input (length-put32 big 0),
                k.1,
                status_lem big 0 (omega arith),
                rpc_read_lem c t ret rest (result_size a) l.input n,
              )
              (
                record {
                  input = l'.input;
                  output = l'.output ∙ l.output ∙ k.0.output;
                  stack_num = k.0.stack_num;
                },
                refl,
              )))

    -- An error in the response ends the program.
    pub rpc_call-Aborts :
        (status : ℕ) (rest : List ℕ)
        → (conn_at s c).input ≡ response_message big status rest
        → 0 < status
        → IsU32 status
        → Aborts (rpc_call p host (suc fuel) s c a)
    unfolding call_remote
    rpc_call-Aborts status rest e h u = rw remote_call (
        Aborts-after (rpc_wait_and_handle p host (suc fuel) sent (some c)) _ _
          (sent_waits (put32 big status ++ rest) e)
          (λ r k.
            rw
              (
                rpc_read_lem c r.0 (put32 big status) rest 4 k.0.input (length-put32 big status),
                k.1,
                status_lem big status u,
                nonzero status h,
              )
              tt))
