-- ===== src/Pci.antt =====
-- src/pci.c: the configuration space of a simulated PCI device, without and with the callbacks of the
-- device.
pub mod Bits
pub mod Config
pub mod Beyond
pub mod Dispatch
pub mod Answers
mod Tests
use Prim.Native.Nat.{bit_and, bit_or}
use usfstl.Base.{
  ℕ, zero, suc, ◌+◌, ◌-◌, ◌*◌, ◌/◌, ◌%◌, ◌^◌, Bool, true, false, ◌&&◌, ◌||◌, Option, none, some,
  List, [], ◌∷◌, ◌++◌, ltb, leb, ◌==◌, if◌then◌else◌, length, take, drop, Result, ok, abort, assert,
  ◌>>=◌, ◌>>◌,
}
use usfstl.Base.Int.{ℤ, from_u32}
use usfstl.Time.{add64}

-- struct usfstl_pci_device, the responses that were sent for it, the last first, and what the
-- callbacks keep elsewhere.
pub record Pci (E : Type 0) : Type 0 where
  pub config_space : List ℕ
  pub config_space_mask : List ℕ
  pub config_space_size : ℕ
  pub responses : List (List ℕ)
  pub env : E

-- The fields of struct virtio_pcidev_msg (include/linux/virtio_pcidev.h) that the
-- configuration space uses.
pub record Message : Type 0 where
  pub addr : ℕ  -- uint64_t
  pub size : ℕ
  pub data_bytes : List ℕ

-- The callbacks of struct usfstl_pci_device_ops for the configuration space.
pub record Ops (E : Type 0) : Type 0 where
  pub cfg_space_read : Option (Pci E → ℤ → ℤ → Result (Pci E × ℕ))
  pub cfg_space_write : Option (Pci E → ℤ → ℤ → ℕ → Result (Pci E))
  pub cfg_space_read_deferred : Option (Pci E → List ℕ → ℤ → ℤ → Result (Pci E × List ℕ))
  pub cfg_space_write_deferred : Option (Pci E → ℤ → List ℕ → ℤ → Result (Pci E))

-- The conversion of an argument to int.
abbrev pub to_int : ℕ → ℤ
to_int n = from_u32 (n % 2 ^ 32)

-- The value of little-endian bytes, and the bytes of a value.
abbrev pub from_le : List ℕ → ℕ
from_le [] = 0
from_le (b ∷ bs) = b + 2 ^ 8 * from_le bs

abbrev pub to_le : ℕ → ℕ → List ℕ
to_le zero v = []
to_le (suc n) v = v % 2 ^ 8 ∷ to_le n (v / 2 ^ 8)

abbrev pub zeros : ℕ → List ℕ
zeros zero = []
zeros (suc n) = 0 ∷ zeros n

-- `bytes` at the start of a buffer.
abbrev pub store : List ℕ → List ℕ → List ℕ
store bytes buffer = bytes ++ drop (length bytes) buffer

abbrev pub is_width : ℕ → Bool
is_width n = n == 1 || n == 2 || n == 4 || n == 8

-- val &= ~mask; val |= data & mask;
abbrev pub merge_byte : ℕ → ℕ → ℕ → ℕ
merge_byte val mask byte = bit_or (bit_and val (255 - mask)) (bit_and byte mask)

-- The loop of usfstl_vhost_pci_cfg_write, from the offset `off` for `n` bytes.
unfoldable pub write_masked : ℕ → ℕ → List ℕ → List ℕ → List ℕ → List ℕ
write_masked (suc off) n (v ∷ vs) (m ∷ ms) ds = v ∷ write_masked off n vs ms ds
write_masked zero (suc n) (v ∷ vs) (m ∷ ms) (d ∷ ds) =
    merge_byte v m d ∷ write_masked zero n vs ms ds
write_masked _ _ vs _ _ = vs

module _ {E : Type 0} where
  -- usfstl_pci_send_response, for a buffer.
  abbrev pub send_response : Pci E → List ℕ → Pci E
  send_response s buffer = record s { responses = buffer ∷ s.responses }

  -- An access beyond the memory that the device has is not defined.
  abbrev pub in_memory : Pci E → Message → Bool
  in_memory s msg = leb (msg.addr + msg.size) (length s.config_space)

  abbrev pub is_beyond : Pci E → Message → Bool
  is_beyond s msg = ltb s.config_space_size (add64 msg.addr msg.size)

  -- The branch of usfstl_vhost_pci_cfg_read without callbacks.
  unfoldable pub space_read : Pci E → Message → List ℕ → Result (Pci E × List ℕ)
  space_read s msg out =
      if is_beyond s msg
      then ok (s, store (zeros msg.size) out)
      else (assert (in_memory s msg) "undefined"
          >> (let out' = store (take msg.size (drop msg.addr s.config_space)) out in
              ok (send_response s out', out')))

  -- The branch of usfstl_vhost_pci_cfg_write without callbacks. The response carries no data.
  unfoldable pub space_write : Pci E → Message → Result (Pci E)
  space_write s msg =
      if is_beyond s msg
      then ok s
      else (assert
            (in_memory s msg
              && leb (msg.addr + msg.size) (length s.config_space_mask)
              && leb msg.size (length msg.data_bytes))
            "undefined"
          >> ok (
              send_response
                (record s {
                  config_space =
                      write_masked msg.addr msg.size s.config_space s.config_space_mask
                        msg.data_bytes;
                })
                []))

  unfoldable pub cfg_read : Ops E → Pci E → Message → List ℕ → Result (Pci E × List ℕ)
  cfg_read ops s msg out = elim ops.cfg_space_read_deferred [
    | some f ↦ f s out (to_int msg.addr) (to_int msg.size)
    | none ↦ elim ops.cfg_space_read [
      | none ↦ space_read s msg out
      | some f ↦ do
        assert (is_width msg.size) "0"
        r ← f s (to_int msg.addr) (to_int msg.size)
        let out' = store (to_le msg.size r.1) out in ok (send_response r.0 out', out')
    ]
  ]

  unfoldable pub cfg_write : Ops E → Pci E → Message → Result (Pci E)
  cfg_write ops s msg = elim ops.cfg_space_write_deferred [
    | some f ↦ f s (to_int msg.addr) msg.data_bytes (to_int msg.size)
    | none ↦ elim ops.cfg_space_write [
      | none ↦ space_write s msg
      | some f ↦ do
        assert (is_width msg.size) "0"
        s' ← f s (to_int msg.addr) (to_int msg.size) (from_le (take msg.size msg.data_bytes))
        ok (send_response s' [])
    ]
  ]
