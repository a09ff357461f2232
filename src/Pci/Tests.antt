-- ===== src/Pci/Tests.antt =====
-- A device with four bytes of configuration space.
use usfstl.Base.{
  ℕ, List, Option, Result, ◌^◌, ◌-◌, ◌≡◌, refl, arith, none, some, [], ◌∷◌, take, drop, ok, Returns,
  ◌>>=◌,
}
use usfstl.Pci.{Pci, Message, Ops, store, cfg_read, cfg_write}
use usfstl.Pci.Config.{IsInside, IsMerged, IsAnswer, cfg_write-cfg_read}
use usfstl.Pci.Bits.{bit_at-merge_byte}
use usfstl.Pci.Dispatch.{PciOp, MmioOps, pci_handle}
use usfstl.Pci.Answers.{request_of}

abbrev demo : Pci (Unit {0})
demo = record {
  config_space = 1 ∷ 2 ∷ 3 ∷ 4 ∷ [];
  config_space_mask = 0 ∷ 255 ∷ 15 ∷ 0 ∷ [];
  config_space_size = 4;
  responses = [];
  env = tt;
}

abbrev plain_ops : Ops (Unit {0})
plain_ops = record {
  cfg_space_read = none;
  cfg_space_write = none;
  cfg_space_read_deferred = none;
  cfg_space_write_deferred = none;
}

abbrev two_bytes : Message
two_bytes = record { addr = 1; size = 2; data_bytes = 160 ∷ 171 ∷ [] }

two_bytes-IsInside : IsInside demo two_bytes
two_bytes-IsInside = record {
  space = refl;
  mask = refl;
  range = omega arith;
  bits = omega arith;
  bytes = omega arith;
  mask_bytes = (omega arith, (omega arith, (omega arith, (omega arith, tt))));
}

-- The low half of the second byte is writable.
demo-Merged : IsMerged 2 (2 ∷ 3 ∷ 4 ∷ []) (255 ∷ 15 ∷ 0 ∷ []) (160 ∷ 171 ∷ []) (160 ∷ 11 ∷ [])
unfolding IsMerged
demo-Merged = (
  λ k h. bit_at-merge_byte k 2 255 160 h (omega arith),
  (λ k h. bit_at-merge_byte k 3 15 171 h (omega arith), tt),
)

cfg_write-cfg_read_example :
    Returns
      (cfg_write plain_ops demo two_bytes >>= λ t. cfg_read plain_ops t two_bytes (0 ∷ 0 ∷ []))
      (λ r.
        ((answer : List ℕ) × (r.0.responses ≡ answer ∷ [] ∷ [])
          × IsAnswer demo two_bytes (0 ∷ 0 ∷ []) answer)
        × (take 1 r.0.config_space ≡ take 1 demo.config_space)
        × (drop 3 r.0.config_space ≡ drop 3 demo.config_space))
cfg_write-cfg_read_example =
    cfg_write-cfg_read demo two_bytes plain_ops (0 ∷ 0 ∷ []) refl refl refl refl two_bytes-IsInside

abbrev late_bytes : Message
late_bytes = record { addr = 3; size = 2; data_bytes = 0 ∷ 0 ∷ [] }

abbrev wrapping : Message
wrapping = record { addr = 2 ^ 64 - 2; size = 4; data_bytes = 0 ∷ 0 ∷ 0 ∷ 0 ∷ [] }

-- Two bytes of memory; `env` has those of them that the device can give.
abbrev memory : List ℕ → Pci (List ℕ)
memory bytes = record {
  config_space = [];
  config_space_mask = [];
  config_space_size = 0;
  responses = [];
  env = bytes;
}

abbrev memory_ops : Ops (List ℕ)
memory_ops = record {
  cfg_space_read = none;
  cfg_space_write = none;
  cfg_space_read_deferred = none;
  cfg_space_write_deferred = none;
}

abbrev held_bytes : Pci (List ℕ) → List ℕ
held_bytes s = take 2 s.env

abbrev memory_read : Pci (List ℕ) → ℕ → List ℕ → ℕ → ℕ → Result (Pci (List ℕ) × List ℕ)
memory_read s bar b addr size = ok (s, store (held_bytes s) b)

abbrev memory_write : Pci (List ℕ) → ℕ → ℕ → List ℕ → ℕ → Result (Pci (List ℕ))
memory_write s bar addr b size = ok (record s { env = b })

abbrev memory_set : Pci (List ℕ) → ℕ → ℕ → ℕ → ℕ → Result (Pci (List ℕ))
memory_set s bar addr v size = ok (record s { env = v ∷ v ∷ [] })

abbrev memory_mmio : MmioOps (List ℕ)
memory_mmio = record {
  mmio_read = some memory_read;
  mmio_write = some memory_write;
  mmio_set = some memory_set;
  mmio_read_deferred = none;
  mmio_write_deferred = none;
  mmio_set_deferred = none;
}

abbrev room_of_three : List ℕ
room_of_three = 1 ∷ 2 ∷ 3 ∷ []

-- The device has one byte, 9; the bytes of the message come in its second element.
abbrev no_bytes : Message
no_bytes = record { addr = 1; size = 2; data_bytes = [] }

abbrev apart : Option (List ℕ)
apart = some (160 ∷ 171 ∷ [])

abbrev at_device : PciOp → Pci (List ℕ) → Result (Pci (List ℕ))
at_device op s = pci_handle memory_ops memory_mmio s (request_of op 1 no_bytes apart room_of_three)
