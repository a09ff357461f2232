-- ===== src/Rpc/Serve.antt =====
-- src/rpc.c: a request that arrives in full is answered, and the stack of calls is as before.
use usfstl.Base.{
  ℕ, ◌+◌, ◌<◌, ◌≡◌, refl, ap, ◌∙◌, inl, inr, arith, Bool, true, none, some, List, [], ◌++◌, length,
  ltb, ==_refl, if◌then◌else◌, Bool-cases, ok, Returns, take_all, length-append,
}
use mathlib.Core.List.{append-nil}
use usfstl.Sched.Quiet.{Returns-bind}
use usfstl.Rpc.{
  Node, Stub, Program, max_rpc_stack, conn_at, with_input, push_stack, write_bytes, find_stub,
  make_call, rpc_send_response, no_entry, handle_call, handle_one_call, handle_rest, rpc_handle_one,
}
use usfstl.Rpc.Effects.{Keeps, Computes, Leaves, rpc_read_lem, with_input-Leaves}
use usfstl.Rpc.Wire.{
  Request, plain_size, swap32, put32, get32, put_header, request_tag, request_message,
  response_message, header_size, differ, IsHeader, get32-put32, length-put32, get_header-put_header,
}

module _ {E : Type 0} (c : ℕ) where
  module _ (p : Program E) where
    rpc_send_response-Leaves :
        (s : Node E) (input output : List ℕ) (num status : ℕ) (ret : List ℕ)
        → Leaves c s input output (num + 1)
        → num < max_rpc_stack
        → Leaves c
            (rpc_send_response p s c status ret)
            input
            (output ++ response_message p.big_endian status ret)
            num
    unfolding rpc_send_response write_bytes
    rpc_send_response-Leaves s input output num status ret l h = record {
      input = rw (==_refl c) l.input;
      output = rw (==_refl c, l.output) refl;
      stack_num = rw l.stack_num (omega arith);
    }

    handle_call_lem :
        (s : Node E) (stub : Stub E) (arg rest output ret : List ℕ) (argsize num : ℕ)
        → Leaves c s (arg ++ rest) output (num + 1)
        → num < max_rpc_stack
        → length arg ≡ argsize
        → Computes c stub arg argsize (length ret) ret
        → Returns
            (handle_call p s c stub argsize (length ret))
            (λ t. Leaves c t rest (output ++ response_message p.big_endian 0 ret) num)
    unfolding handle_call
    handle_call_lem s stub arg rest output ret argsize num l h e f =
        rw (rpc_read_lem c s arg rest argsize l.input e) (
          Returns-bind (make_call (with_input s c rest) c stub arg argsize (length ret)) _ _ _
            (f (with_input s c rest))
            (λ r k.
              let w = with_input-Leaves c s rest in
              rw (k.1, take_all (length ret) ret (omega arith))
                (rpc_send_response-Leaves r.0 rest output num 0 ret
                  (record {
                    input = k.0.input ∙ w.input;
                    output = k.0.output ∙ w.output ∙ l.output;
                    stack_num = k.0.stack_num ∙ l.stack_num;
                  })
                  h)))

    push_stack-Leaves :
        (s : Node E) (unread written : List ℕ) (num : ℕ)
        → Leaves c s unread written num
        → Leaves c (push_stack s c) unread written (num + 1)
    push_stack-Leaves s unread written num l = record {
      input = l.input;
      output = l.output;
      stack_num = ap (λ k. k + 1) l.stack_num;
    }

    has_room :
        (s : Node E) (num : ℕ)
        → s.env.rpc_stack_num ≡ num
        → num < max_rpc_stack
        → ltb s.env.rpc_stack_num max_rpc_stack ≡ true
    has_room s num e h = ground arith

    -- What a request is answered with: the result of the stub that is found, or an error if there is
    -- none.
    abbrev pub Answers : Request → List ℕ → List ℕ → Type 0
    Answers hdr arg ret =
        (stub : Stub E) × (find_stub p.stubs hdr ≡ some stub)
        × (length arg ≡ plain_size hdr.argsize)
        × (length ret ≡ plain_size hdr.retsize)
        × Computes c stub arg (plain_size hdr.argsize) (length ret) ret

    handle_one_call_lem :
        (s : Node E) (hdr : Request) (arg rest written ret : List ℕ) (num : ℕ)
        → Leaves c s (arg ++ rest) written num
        → num < max_rpc_stack
        → Answers hdr arg ret
        → Returns
            (handle_one_call p s c hdr)
            (λ t. Leaves c t rest (written ++ response_message p.big_endian 0 ret) num)
    unfolding handle_one_call
    handle_one_call_lem s hdr arg rest written ret num l h (stub, e, a, r, f) =
        rw (has_room s num l.stack_num h, e, ← r)
          (handle_call_lem (push_stack s c) stub arg rest written ret (plain_size hdr.argsize) num
            (push_stack-Leaves s (arg ++ rest) written num l) h a f)

    unknown_call_lem :
        (s : Node E) (hdr : Request) (rest written : List ℕ) (num : ℕ)
        → Leaves c s rest written num
        → num < max_rpc_stack
        → find_stub p.stubs hdr ≡ none
        → Returns
            (handle_one_call p s c hdr)
            (λ t. Leaves c t rest (written ++ response_message p.big_endian no_entry []) num)
    unfolding handle_one_call
    unknown_call_lem s hdr rest written num l h e =
        rw (has_room s num l.stack_num h, e)
          (rpc_send_response-Leaves (push_stack s c) rest written num no_entry []
            (push_stack-Leaves s rest written num l) h)

    -- Handling extra data leaves the connection alone.
    abbrev pub ExtraKeeps : Type 0
    ExtraKeeps =
        (bytes : List ℕ) (s : Node E) → Returns (p.extra_received c bytes s) (λ t. Keeps c s t)

    receive-Keeps :
        (s : Node E) (n : ℕ) (bytes : List ℕ)
        → ExtraKeeps
        → Returns (if ltb 0 n then p.extra_received c bytes s else ok s) (λ t. Keeps c s t)
    receive-Keeps s n bytes k = elim (Bool-cases (ltb 0 n)) [
      | inl e ↦ rw e (k bytes s)
      | inr e ↦ rw e (record { input = refl; output = refl; stack_num = refl })
    ]

    length-header :
        (big : Bool) (hdr : Request) → IsHeader hdr → length (put_header big hdr) ≡ header_size
    length-header big hdr h = omega (
      arith,
      length-append hdr.name (put32 big hdr.retsize ++ put32 big hdr.argsize),
      length-append (put32 big hdr.retsize) (put32 big hdr.argsize),
      length-put32 big hdr.retsize,
      length-put32 big hdr.argsize,
      h.name,
    )

    -- What follows the tag: header, extra data and argument.
    module _ (s : Node E) (big : Bool) (hdr : Request) (extra body written : List ℕ) (num : ℕ)
        (h : IsHeader hdr) (x : length extra ≡ (conn_at s c).extra_len) (k : ExtraKeeps)
        (l : Leaves c s (put_header big hdr ++ (extra ++ body)) written num) (Q : Node E → Type 0)
        (next : (t : Node E)
          → Leaves c t body written num
          → Returns (handle_one_call p t c hdr) Q) where
      handle_rest_lem :
          Returns (handle_rest p s c (differ p.big_endian big)) (λ r. Q r.0 × (r.1 ≡ 0))
      unfolding handle_rest
      handle_rest_lem =
          let s1 = with_input s c (extra ++ body) in
          let w1 = with_input-Leaves c s (extra ++ body) in
          let w2 = with_input-Leaves c s1 body in
          let w = with_input s1 c body in
          rw
            (
              rpc_read_lem c s (put_header big hdr) (extra ++ body) header_size l.input
                  (length-header big hdr h),
              rpc_read_lem c s1 extra body (conn_at s c).extra_len w1.input x,
            )
            (Returns-bind
              (if ltb 0 (conn_at s c).extra_len then p.extra_received c extra w else ok w) _ _ _
              (receive-Keeps w (conn_at s c).extra_len extra k)
              (λ t q. rw (get_header-put_header p.big_endian big hdr h) (
                Returns-bind (handle_one_call p t c hdr) _ _ _
                  (next t (record {
                    input = q.input ∙ w2.input;
                    output = q.output ∙ w2.output ∙ w1.output ∙ l.output;
                    stack_num = q.stack_num ∙ l.stack_num;
                  }))
                  (λ t' q'. (q', refl)))))

    tag_of :
        (big : Bool)
        → get32 p.big_endian (put32 big request_tag)
          ≡ (if differ p.big_endian big then swap32 request_tag else request_tag)
    tag_of big =
        rw (← append-nil (put32 big request_tag))
          (get32-put32 p.big_endian big request_tag [] (omega arith))

    -- A request's tag, then the rest.
    handle_one_request :
        (s : Node E) (big : Bool) (rest : List ℕ)
        → (conn_at s c).input ≡ put32 big request_tag ++ rest
        → rpc_handle_one p s c ≡ handle_rest p (with_input s c rest) c (differ p.big_endian big)
    unfolding rpc_handle_one swap32
    handle_one_request s big rest e = elim (Bool-cases (differ p.big_endian big)) [
      | inl d ↦
          rw
            (
              rpc_read_lem c s (put32 big request_tag) rest 4 e (length-put32 big request_tag),
              tag_of big,
              d,
            )
            refl
      | inr d ↦
          rw
            (
              rpc_read_lem c s (put32 big request_tag) rest 4 e (length-put32 big request_tag),
              tag_of big,
              d,
            )
            refl
    ]

    module _ (s : Node E) (big : Bool) (hdr : Request) (extra : List ℕ) (h : IsHeader hdr)
        (x : length extra ≡ (conn_at s c).extra_len) (k : ExtraKeeps)
        (room : s.env.rpc_stack_num < max_rpc_stack) where
      one_request :
          (body : List ℕ) (Q : Node E → Type 0)
          → (conn_at s c).input ≡ request_message big hdr extra body
          → ((t : Node E)
              → Leaves c t body (conn_at s c).output s.env.rpc_stack_num
              → Returns (handle_one_call p t c hdr) Q)
          → Returns (rpc_handle_one p s c) (λ r. Q r.0 × (r.1 ≡ 0))
      one_request body Q e next =
          let rest = put_header big hdr ++ (extra ++ body) in
          rw (handle_one_request s big rest e) (
            handle_rest_lem (with_input s c rest) big hdr extra body (conn_at s c).output
              s.env.rpc_stack_num h (rw (==_refl c) x) k (with_input-Leaves c s rest) Q next)

      -- A request with its argument, from a program of either byte order, is read whole and answered
      -- with what its stub computes. Nothing behind it is read, and the stack of calls is as high as
      -- before.
      pub rpc_handle_one-Leaves :
          (arg rest ret : List ℕ)
          → (conn_at s c).input ≡ request_message big hdr extra (arg ++ rest)
          → Answers hdr arg ret
          → Returns (rpc_handle_one p s c) (λ r.
            Leaves c r.0 rest
              ((conn_at s c).output ++ response_message p.big_endian 0 ret)
              s.env.rpc_stack_num
            × (r.1 ≡ 0))
      rpc_handle_one-Leaves arg rest ret e a = one_request (arg ++ rest) _ e (λ t l.
          handle_one_call_lem t hdr arg rest (conn_at s c).output ret s.env.rpc_stack_num l room a)

      -- A request that no stub accepts is answered with ENOENT, and its argument stays unread: it is
      -- what the next message is read from.
      pub rpc_handle_one_unknown :
          (body : List ℕ)
          → (conn_at s c).input ≡ request_message big hdr extra body
          → find_stub p.stubs hdr ≡ none
          → Returns (rpc_handle_one p s c) (λ r.
            Leaves c r.0 body
              ((conn_at s c).output ++ response_message p.big_endian no_entry [])
              s.env.rpc_stack_num
            × (r.1 ≡ 0))
      rpc_handle_one_unknown body e f =
          one_request body _ e
            (λ t l. unknown_call_lem t hdr body (conn_at s c).output s.env.rpc_stack_num l room f)
