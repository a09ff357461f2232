-- ===== src/Rpc/Wait.antt =====
-- src/rpc.c: a caller that waits for a response handles it as soon as it arrives, ahead of all other
-- entries of the main loop.
use usfstl.Base.{
  ℕ, suc, ◌+◌, ◌≡◌, refl, sym, subst, ◌∙◌, inl, inr, arith, Bool, true, false, not, none, some,
  List, [], ◌∷◌, ◌++◌, mem, remove, ltb, ◌==◌, ==_refl, if◌then◌else◌, Bool-cases, ok, Returns,
}
use mathlib.Core.List.{append-nil}
use usfstl.Base.Int.{ℤ, pos, ◌≤ℤ◌, ltb_ℤ, to_u32}
use usfstl.Sched.Quiet.{Returns-bind}
use usfstl.Loop.{
  LoopEntry, descriptors, largest, insert_entry, first_ready, loop_register, loop_unregister,
  dispatch, wait_and_handle,
}
use usfstl.Rpc.{loop_wait_handler, Node, Program, conn_at, with_input, rpc_handle_one, run_handler}
use usfstl.Rpc.Wire.{swap32, put32, get32, response_tag, differ, get32-put32, length-put32}
use usfstl.Rpc.Call.{
  Host, call_handler, rpc_loop_round, set_entry, enter_wait, leave_wait, rpc_wait_round,
  set_wait_result, rpc_wait_and_handle,
}
use usfstl.Rpc.Effects.{Leaves, rpc_read_lem, with_input-Leaves}

not_below : (a b : ℤ) → b ≤ℤ a → not (ltb_ℤ a b) ≡ true
not_below a b h = ground arith

-- An entry that no other exceeds is put first.
insert_entry_first :
    (es : ℕ → LoopEntry) (c : ℕ) (xs : List ℕ)
    → ((i : ℕ) → (es i).priority ≤ℤ (es c).priority)
    → insert_entry es c xs ≡ c ∷ xs
unfolding insert_entry
insert_entry_first es c [] h = refl
insert_entry_first es c (x ∷ xs) h = rw (not_below (es c).priority (es x).priority (h x)) refl

module _ {E : Type 0} (p : Program E) (host : Host E) (c : ℕ) where
  -- The system reports the connection's descriptor whenever it is asked for it.
  abbrev pub IsReady : ℕ → Type 0
  IsReady fd =
      (n : ℕ) (ds : List ℕ)
      → mem fd ds ≡ true
      → (ltb 0 (to_u32 (host.select n ds).0) ≡ true) × (mem fd (host.select n ds).1 ≡ true)

  loop_round_first :
      (e : Node E) (xs : List ℕ)
      → e.loop_entries ≡ c ∷ xs
      → IsReady (e.entry c).fd
      → host.pre_handler ≡ none
      → rpc_loop_round p host e ≡ call_handler p host c e
  unfolding wait_and_handle first_ready dispatch
  loop_round_first e xs l r n =
      let asked =
        r (largest e.entry e.loop_entries 0 + 1) (descriptors e.entry e.loop_entries)
          (rw (l, ==_refl (e.entry c).fd) refl) in
      let rd =
        (host.select (largest e.entry e.loop_entries 0 + 1)
          (descriptors e.entry e.loop_entries)).1 in
      let first =
        subst (λ (ys : List ℕ). first_ready e.entry rd ys ≡ some c) (sym l) (rw asked.1 refl) in
      rw (asked.0, first, n) refl

  -- The state in which the connection waits: first among the entries, with the other handler.
  record Entered (s e : Node E) : Type 0 where
    pub rest : List ℕ
    pub first : e.loop_entries ≡ c ∷ rest
    pub fd : (e.entry c).fd ≡ (s.entry c).fd
    pub handler : (conn_at e c).handler ≡ loop_wait_handler
    pub input : (conn_at e c).input ≡ (conn_at s c).input
    pub output : (conn_at e c).output ≡ (conn_at s c).output
    pub stack_num : e.env.rpc_stack_num ≡ s.env.rpc_stack_num

  -- No priority is above that of a connection that waits; it is an int.
  abbrev pub PrioritiesFit : Node E → Type 0
  PrioritiesFit s = (i : ℕ) → (s.entry i).priority ≤ℤ pos 2147483647

  raised :
      (es : ℕ → LoopEntry) (i : ℕ)
      → ((j : ℕ) → (es j).priority ≤ℤ pos 2147483647)
      → (if c == i then record (es c) { priority = pos 2147483647 } else es i).priority
        ≤ℤ pos 2147483647
  raised es i h = elim (Bool-cases (c == i)) [ inl e ↦ rw e (omega arith) | inr e ↦ rw e (h i) ]

  entered :
      (s : Node E) (xs : List ℕ)
      → PrioritiesFit s
      → Entered s (
          loop_register
            (set_entry (record s { loop_entries = xs }) c (pos 2147483647) loop_wait_handler)
            c)
  unfolding loop_register
  entered s xs h = record {
    rest = xs;
    first = insert_entry_first _ c xs (λ i. rw (==_refl c) (raised s.entry i h));
    fd = rw (==_refl c) refl;
    handler = rw (==_refl c) refl;
    input = rw (==_refl c) refl;
    output = rw (==_refl c) refl;
    stack_num = refl;
  }

  enter_wait-Entered : (s : Node E) → PrioritiesFit s → Entered s (enter_wait p host s c)
  unfolding enter_wait loop_unregister
  enter_wait-Entered s h = elim (Bool-cases (mem c s.loop_entries)) [
    | inl e ↦ rw e (entered s (remove c s.loop_entries) h)
    | inr e ↦ rw e (entered s s.loop_entries h)
  ]

  leave_wait-Leaves :
      (s : Node E) (registered : Bool) (prio : ℤ) (unread written : List ℕ) (num : ℕ)
      → Leaves c s unread written num
      → Leaves c (leave_wait p host s c registered prio) unread written num
        × ((leave_wait p host s c registered prio).env.rpc_wait_result ≡ s.env.rpc_wait_result)
  unfolding leave_wait loop_register loop_unregister
  leave_wait-Leaves s true prio unread written num l = (
    record {
      input = rw (==_refl c) l.input;
      output = rw (==_refl c) l.output;
      stack_num = l.stack_num;
    },
    refl,
  )
  leave_wait-Leaves s false prio unread written num l = (
    record {
      input = rw (==_refl c) l.input;
      output = rw (==_refl c) l.output;
      stack_num = l.stack_num;
    },
    refl,
  )

  -- The tag of a response from a program of the byte order `big`.
  abbrev pub tag_from : Bool → ℕ
  tag_from big = if differ p.big_endian big then swap32 response_tag else response_tag

  response_handled :
      (s : Node E) (big : Bool) (rest : List ℕ)
      → (conn_at s c).input ≡ put32 big response_tag ++ rest
      → run_handler p loop_wait_handler c s
        ≡ ok (set_wait_result (with_input s c rest) (tag_from big))
  unfolding run_handler rpc_handle_one swap32
  response_handled s big rest e =
      let t : get32 p.big_endian (put32 big response_tag) ≡ tag_from big =
        rw (← append-nil (put32 big response_tag))
          (get32-put32 p.big_endian big response_tag [] (omega arith)) in
      elim (Bool-cases (differ p.big_endian big)) [
        | inl d ↦
            rw
              (
                rpc_read_lem c s (put32 big response_tag) rest 4 e (length-put32 big response_tag),
                t,
                d,
              )
              refl
        | inr d ↦
            rw
              (
                rpc_read_lem c s (put32 big response_tag) rest 4 e (length-put32 big response_tag),
                t,
                d,
              )
              refl
      ]

  tag_nonzero : (big : Bool) → (tag_from big == 0) ≡ false
  unfolding swap32
  tag_nonzero big = elim (Bool-cases (differ p.big_endian big)) [
    | inl e ↦ rw e refl
    | inr e ↦ rw e refl
  ]

  -- What the main loop must be like while the response is awaited.
  pub record CanWait (s : Node E) : Type 0 where
    pub priorities : PrioritiesFit s
    pub ready : IsReady (s.entry c).fd
    pub no_pre_handler : host.pre_handler ≡ none
    pub connection : host.is_connection c ≡ true

  handler_waits :
      (e : Node E)
      → host.is_connection c ≡ true
      → (conn_at e c).handler ≡ loop_wait_handler
      → call_handler p host c e ≡ run_handler p loop_wait_handler c e
  unfolding call_handler
  handler_waits e i h = rw (i, h) refl

  round_handles :
      (s : Node E) (big : Bool) (rest : List ℕ)
      → CanWait s
      → (conn_at s c).input ≡ put32 big response_tag ++ rest
      → rpc_loop_round p host (enter_wait p host s c)
        ≡ ok (set_wait_result (with_input (enter_wait p host s c) c rest) (tag_from big))
  round_handles s big rest w e =
      let f = enter_wait-Entered s w.priorities in
      let ready = subst (λ (d : ℕ). IsReady d) (sym f.fd) w.ready in
      loop_round_first (enter_wait p host s c) f.rest f.first ready w.no_pre_handler
      ∙ handler_waits (enter_wait p host s c) w.connection f.handler
      ∙ (response_handled (enter_wait p host s c) big rest (f.input ∙ e))

  -- One pass of the loop reads the tag of the response, and nothing else.
  round_lem :
      (s : Node E) (big : Bool) (rest : List ℕ)
      → CanWait s
      → (conn_at s c).input ≡ put32 big response_tag ++ rest
      → Returns (rpc_wait_round p host s (some c)) (λ t.
        Leaves c t rest (conn_at s c).output s.env.rpc_stack_num
        × (t.env.rpc_wait_result ≡ tag_from big))
  unfolding rpc_wait_round
  round_lem s big rest w e =
      let f = enter_wait-Entered (set_wait_result s 0) w.priorities in
      let n = enter_wait p host (set_wait_result s 0) c in
      let l = with_input-Leaves c n rest in
      let t = set_wait_result (with_input n c rest) (tag_from big) in
      let k : Leaves c t rest (conn_at s c).output s.env.rpc_stack_num = record {
        input = l.input;
        output = l.output ∙ f.output;
        stack_num = l.stack_num ∙ f.stack_num;
      } in
      rw
        (round_handles (set_wait_result s 0) big rest
          (record {
            priorities = w.priorities;
            ready = w.ready;
            no_pre_handler = w.no_pre_handler;
            connection = w.connection;
          })
          e)
        (leave_wait-Leaves t (mem c s.loop_entries) (s.entry c).priority rest _ _ k)

  pub wait_lem :
      (fuel : ℕ) (s : Node E) (big : Bool) (rest : List ℕ)
      → CanWait s
      → (conn_at s c).input ≡ put32 big response_tag ++ rest
      → Returns
          (rpc_wait_and_handle p host (suc fuel) s (some c))
          (λ r. Leaves c r.0 rest (conn_at s c).output s.env.rpc_stack_num × (r.1 ≡ tag_from big))
  unfolding rpc_wait_and_handle
  wait_lem fuel s big rest w e =
      Returns-bind (rpc_wait_round p host s (some c)) _ _ _ (round_lem s big rest w e) (λ t k.
        rw (k.1, tag_nonzero big)
          (record { input = k.0.input; output = k.0.output; stack_num = k.0.stack_num }, refl))
