-- ===== src/Rpc/Lookup.antt =====
-- include/usfstl/rpc.h: what the macros for a method declare on either side, and the stub that a
-- request finds.
use usfstl.Base.{
  ℕ, zero, suc, ◌≤◌, ◌<◌, ◌≡◌, refl, ap, inl, inr, arith, Bool, true, false, Option, none, some,
  List, [], ◌∷◌, ◌++◌, All, length, take, if◌then◌else◌, Bool-cases, Result, length-append,
  length-take,
}
use usfstl.Rpc.{Node, Stub, accepts, size_fits, find_stub}
use usfstl.Rpc.Call.{CallArgs, rpc_request_of, argsize_masked, result_size, pad_name, zeroes}
use usfstl.Rpc.Wire.{
  Request, plain_size, or_var, var_data_size, same_bytes, same_bytes_self, IsHeader,
}

-- A method as its header declares it: the name with the names of the types, the sizes of the result
-- and the argument (no result has the size 0), and which of the two have a variable length.
pub record Method : Type 0 where
  pub method_name : List ℕ
  pub out_size : ℕ
  pub in_size : ℕ
  pub var_out : Bool
  pub var_in : Bool

-- The callee's stub.
unfoldable pub stub_of :
    {E : Type 0}
    → Method
    → (ℕ → List ℕ → Option ℕ → Option ℕ → Node E → Result (Node E × List ℕ))
    → Stub E
stub_of m f = record {
  req = record {
    name = pad_name m.method_name;
    retsize = if m.var_out then or_var m.out_size else m.out_size;
    argsize = if m.var_in then or_var m.in_size else m.in_size;
  };
  fn = f;
}

-- The caller's call of usfstl_rpc_call; `argsz` and `retsz` are there where the length is variable.
unfoldable pub args_of : Method → List ℕ → ℕ → ℕ → CallArgs
args_of m bytes argsz retsz = record {
  call_name = m.method_name;
  arg = bytes;
  argmin = m.in_size;
  argsize = if m.var_in then or_var argsz else 0;
  retmin = m.out_size;
  retsize = if m.var_out then retsz else 0;
}

-- The sizes that a call may have.
pub record Fits (m : Method) (argsz retsz : ℕ) : Type 0 where
  pub in_size : m.in_size < var_data_size
  pub out_size : m.out_size < var_data_size
  pub argument : m.var_in ≡ true → (m.in_size ≤ argsz) × (argsz < var_data_size)
  pub result : m.var_out ≡ true → (m.out_size ≤ retsz) × (0 < retsz) × (retsz < var_data_size)

module _ {E : Type 0} where
  -- A stub of another name.
  abbrev pub Other : List ℕ → Option (Stub E) → Type 0
  Other name none = Unit {0}
  Other name (some stub) = same_bytes stub.req.name name ≡ false

  find_stub_first :
      (before after : List (Option (Stub E))) (stub : Stub E) (hdr : Request)
      → All (Other hdr.name) before
      → accepts stub hdr ≡ true
      → find_stub (before ++ some stub ∷ after) hdr ≡ some stub
  unfolding find_stub accepts
  find_stub_first [] after stub hdr o a = rw a refl
  find_stub_first (none ∷ before) after stub hdr o a = find_stub_first before after stub hdr o.1 a
  find_stub_first (some s ∷ before) after stub hdr o a =
      rw o.0 (find_stub_first before after stub hdr o.1 a)

module _ (m : Method) (bytes : List ℕ) (argsz retsz : ℕ) (h : Fits m argsz retsz) where
  masked_argsize :
      plain_size (rpc_request_of (args_of m bytes argsz retsz)).argsize
      ≡ argsize_masked (args_of m bytes argsz retsz)
  unfolding rpc_request_of args_of
  masked_argsize = elim (Bool-cases m.var_in) [
    | inl e ↦ let b = h.argument e in rw e (ground arith)
    | inr e ↦ let b = h.in_size in rw e (ground arith)
  ]

  masked_retsize :
      plain_size (rpc_request_of (args_of m bytes argsz retsz)).retsize
      ≡ result_size (args_of m bytes argsz retsz)
  unfolding rpc_request_of args_of
  masked_retsize = elim (Bool-cases m.var_out) [
    | inl e ↦ let b = h.result e in rw e (ground arith)
    | inr e ↦ let b = h.out_size in rw e (ground arith)
  ]

  argsize_fits :
      size_fits
        (if m.var_in then or_var m.in_size else m.in_size)
        (rpc_request_of (args_of m bytes argsz retsz)).argsize
      ≡ true
  unfolding rpc_request_of args_of size_fits
  argsize_fits = elim (Bool-cases m.var_in) [
    | inl e ↦ let b = h.argument e in let c = h.in_size in rw e (ground arith)
    | inr e ↦ let b = h.in_size in rw e (ground arith)
  ]

  retsize_fits :
      size_fits
        (if m.var_out then or_var m.out_size else m.out_size)
        (rpc_request_of (args_of m bytes argsz retsz)).retsize
      ≡ true
  unfolding rpc_request_of args_of size_fits
  retsize_fits = elim (Bool-cases m.var_out) [
    | inl e ↦ let b = h.result e in let c = h.out_size in rw e (ground arith)
    | inr e ↦ let b = h.out_size in rw e (ground arith)
  ]

  stub_accepts :
      {E : Type 0} (f : ℕ → List ℕ → Option ℕ → Option ℕ → Node E → Result (Node E × List ℕ))
      → accepts (stub_of m f) (rpc_request_of (args_of m bytes argsz retsz)) ≡ true
  unfolding accepts rpc_request_of args_of stub_of
  stub_accepts f = rw (same_bytes_self (pad_name m.method_name), argsize_fits, retsize_fits) refl

length-zeroes : (n : ℕ) → length (zeroes n) ≡ n
length-zeroes zero = refl
length-zeroes (suc n) = ap suc (length-zeroes n)

padded : (n : ℕ) (name : List ℕ) → length (take n (name ++ zeroes n)) ≡ n
padded n name =
    length-take n (name ++ zeroes n) (omega (arith, length-append name (zeroes n), length-zeroes n))

length-pad_name : (name : List ℕ) → length (pad_name name) ≡ 128
unfolding pad_name
length-pad_name name = padded 128 name

pub rpc_request_of-IsHeader :
    (m : Method) (bytes : List ℕ) (argsz retsz : ℕ)
    → Fits m argsz retsz
    → IsHeader (rpc_request_of (args_of m bytes argsz retsz))
unfolding rpc_request_of args_of
rpc_request_of-IsHeader m bytes argsz retsz h = record {
  name = length-pad_name m.method_name;
  retsize = elim (Bool-cases m.var_out) [
    | inl e ↦ let b = h.result e in rw e (ground arith)
    | inr e ↦ let b = h.out_size in rw e (ground arith)
  ];
  argsize = elim (Bool-cases m.var_in) [
    | inl e ↦ let b = h.argument e in rw e (ground arith)
    | inr e ↦ let b = h.in_size in rw e (ground arith)
  ];
}

-- The request of a method's caller finds the stub of the method's callee, if no stub before it has
-- the same name; and the sizes in its header are those that the caller writes and reads.
pub find_stub-stub_of :
    {E : Type 0} (m : Method) (bytes : List ℕ) (argsz retsz : ℕ)
    (f : ℕ → List ℕ → Option ℕ → Option ℕ → Node E → Result (Node E × List ℕ))
    (before after : List (Option (Stub E)))
    → Fits m argsz retsz
    → All (Other (pad_name m.method_name)) before
    → let a = args_of m bytes argsz retsz in
      (find_stub (before ++ some (stub_of m f) ∷ after) (rpc_request_of a) ≡ some (stub_of m f))
      × (plain_size (rpc_request_of a).argsize ≡ argsize_masked a)
      × (plain_size (rpc_request_of a).retsize ≡ result_size a)
unfolding rpc_request_of args_of
find_stub-stub_of m bytes argsz retsz f before after h o = (
  find_stub_first before after (stub_of m f) (rpc_request_of (args_of m bytes argsz retsz)) o
      (stub_accepts m bytes argsz retsz h f),
  masked_argsize m bytes argsz retsz h,
  masked_retsize m bytes argsz retsz h,
)
