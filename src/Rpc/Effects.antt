-- ===== src/Rpc/Effects.antt =====
-- src/rpc.c: what a step does to the socket of a connection and to the stack of calls.
use usfstl.Base.{
  ℕ, ◌≡◌, refl, arith, true, List, ◌++◌, length, leb, ==_refl, ok, Returns, take_exact, drop_exact,
  length-append,
}
use usfstl.Rpc.{Node, Stub, conn_at, with_input, rpc_read, make_call}

module _ {E : Type 0} (c : ℕ) where
  -- Nothing is read from or written to the connection, and the stack of calls has its height.
  pub record Keeps (s t : Node E) : Type 0 where
    pub input : (conn_at t c).input ≡ (conn_at s c).input
    pub output : (conn_at t c).output ≡ (conn_at s c).output
    pub stack_num : t.env.rpc_stack_num ≡ s.env.rpc_stack_num

  -- A stub's function that returns `ret` for `arg`.
  abbrev pub Computes : Stub E → List ℕ → ℕ → ℕ → List ℕ → Type 0
  Computes stub arg argsize retsize ret =
      (t : Node E)
      → Returns (make_call t c stub arg argsize retsize) (λ r. Keeps t r.0 × (r.1 ≡ ret))

  -- What is left to read, what has been written, and the height of the stack.
  pub record Leaves (t : Node E) (unread written : List ℕ) (num : ℕ) : Type 0 where
    pub input : (conn_at t c).input ≡ unread
    pub output : (conn_at t c).output ≡ written
    pub stack_num : t.env.rpc_stack_num ≡ num

  pub rpc_read_lem :
      (s : Node E) (xs rest : List ℕ) (n : ℕ)
      → (conn_at s c).input ≡ xs ++ rest
      → length xs ≡ n
      → rpc_read s c n ≡ ok (with_input s c rest, xs)
  unfolding rpc_read
  rpc_read_lem s xs rest n e h =
      let enough : leb n (length (xs ++ rest)) ≡ true = ground (arith, length-append xs rest) in
      rw (e, enough, take_exact n xs rest h, drop_exact n xs rest h) refl

  pub with_input-Leaves :
      (s : Node E) (rest : List ℕ)
      → Leaves (with_input s c rest) rest (conn_at s c).output s.env.rpc_stack_num
  with_input-Leaves s rest = record {
    input = rw (==_refl c) refl;
    output = rw (==_refl c) refl;
    stack_num = refl;
  }
