-- ===== src/Rpc/Init.antt =====
-- src/rpc-rpc.c: the first call over a connection, by which the two programs agree on the size of the
-- extra data.
use usfstl.Base.{
  ℕ, ◌^◌, ◌<◌, ◌≡◌, refl, arith, Bool, true, false, ◌==◌, ==_refl, [], if◌then◌else◌, Returns,
  Aborts,
}
use mathlib.Core.List.{append-nil}
use usfstl.Rpc.{Node, Program, conn_at, rpc_init}
use usfstl.Rpc.Wire.{swap32, put32, get32, differ, get32-put32}

module _ {E : Type 0} (p : Program E) (c : ℕ) (s : Node E) (big : Bool)
    (small : (conn_at s c).extra_len < 2 ^ 16) where
  size_read : get32 p.big_endian (put32 big (conn_at s c).extra_len) ≡ (
      if differ p.big_endian big then swap32 (conn_at s c).extra_len else (conn_at s c).extra_len)
  size_read =
      rw (← append-nil (put32 big (conn_at s c).extra_len))
        (get32-put32 p.big_endian big (conn_at s c).extra_len [] (omega arith))

  other_size : (n : ℕ) → 0 < n → n < 2 ^ 16 → (swap32 n == n) ≡ false
  unfolding swap32
  other_size n h k = ground arith

  -- Programs of the same byte order that have the same size of extra data agree on it: the connection
  -- is initialized and the size is sent back.
  pub rpc_init_agreed :
      differ p.big_endian big ≡ false
      → Returns (rpc_init p c (put32 big (conn_at s c).extra_len) s) (λ r.
        ((conn_at r.0 c).initialized ≡ true) × (r.1 ≡ put32 p.big_endian (conn_at s c).extra_len))
  unfolding rpc_init
  rpc_init_agreed d = rw (size_read, d, ==_refl (conn_at s c).extra_len) (rw (==_refl c) refl, refl)

  -- Programs of different byte orders that have the same size of extra data, not 0 and below 2^16, do
  -- not agree on it: the size is compared with its bytes in the wrong order, and the program ends.
  pub rpc_init-Aborts :
      differ p.big_endian big ≡ true
      → 0 < (conn_at s c).extra_len
      → Aborts (rpc_init p c (put32 big (conn_at s c).extra_len) s)
  unfolding rpc_init
  rpc_init-Aborts d h = rw (size_read, d, other_size (conn_at s c).extra_len h small) tt
