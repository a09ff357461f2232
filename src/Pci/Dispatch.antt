-- ===== src/Pci/Dispatch.antt =====
-- src/pci.c: the dispatch of messages, with the operations on memory, and the messages of the device.
use usfstl.Base.{
  ℕ, zero, suc, Bool, true, false, ◌&&◌, Option, none, some, List, [], ◌∷◌, ◌++◌, ltb, leb,
  if◌then◌else◌, length, Result, ok, abort, assert, ◌>>=◌, ◌>>◌,
}
use usfstl.Pci.{Pci, Message, Ops, to_le, store, send_response, cfg_read, cfg_write}

-- enum virtio_pcidev_ops, and any other number.
pub data PciOp : Type 0 where
  op_reserved op_cfg_read op_cfg_write op_mmio_read op_mmio_write op_mmio_memset op_int op_msi
        op_pme op_other :
      PciOp

-- A buffer with a message. `complete` tells whether its first element to read has the whole struct, and the
-- message's data is what follows in it; `more_data` is the second element to read, and `room` the first to
-- write.
pub record Request : Type 0 where
  pub complete : Bool
  pub op : PciOp
  pub bar : ℕ
  pub msg : Message
  pub more_data : Option (List ℕ)
  pub room : Option (List ℕ)

-- The callbacks for the memory of the device. Those that read get the buffer and return it.
pub record MmioOps (E : Type 0) : Type 0 where
  pub mmio_read : Option (Pci E → ℕ → List ℕ → ℕ → ℕ → Result (Pci E × List ℕ))
  pub mmio_write : Option (Pci E → ℕ → ℕ → List ℕ → ℕ → Result (Pci E))
  pub mmio_set : Option (Pci E → ℕ → ℕ → ℕ → ℕ → Result (Pci E))
  pub mmio_read_deferred : Option (Pci E → ℕ → List ℕ → ℕ → ℕ → Result (Pci E × List ℕ))
  pub mmio_write_deferred : Option (Pci E → ℕ → ℕ → List ℕ → ℕ → Result (Pci E))
  pub mmio_set_deferred : Option (Pci E → ℕ → ℕ → ℕ → ℕ → Result (Pci E))

abbrev pub ones : ℕ → List ℕ
ones zero = []
ones (suc n) = 255 ∷ ones n

-- The data of a write, in the message or in the second element, of at least `size` bytes.
unfoldable pub write_data : Request → ℕ → Result (List ℕ)
write_data r size =
    if ltb 0 (length r.msg.data_bytes)
    then (do
      assert (leb size (length r.msg.data_bytes)) "out_sg[0].iov_len >= sizeof(*msg) + size"
      ok r.msg.data_bytes)
    else elim r.more_data [
      | none ↦ abort "undefined"
      | some data_bytes ↦ do
        assert (leb size (length data_bytes)) "out_sg[1].iov_len >= size"
        ok data_bytes
    ]

abbrev pub first_byte : List ℕ → ℕ
first_byte [] = 0
first_byte (b ∷ bs) = b

module _ {E : Type 0} (ops : Ops E) (mmio : MmioOps E) where
  unfoldable pub handle_mmio_read : Pci E → Request → Result (Pci E)
  handle_mmio_read s r = elim r.room [
    | none ↦ abort "undefined"
    | some out ↦ do
      assert (leb r.msg.size (length out)) "in_sg[0].iov_len >= msg->size"
      let buffer = store (ones r.msg.size) out in
          elim mmio.mmio_read [
            | some f ↦ f s r.bar buffer r.msg.addr r.msg.size >>= λ t. ok (send_response t.0 t.1)
            | none ↦ elim mmio.mmio_read_deferred [
              | some f ↦ f s r.bar buffer r.msg.addr r.msg.size >>= λ t. ok t.0
              | none ↦ abort "ops->mmio_read || ops->mmio_read_deferred"
            ]
          ]
  ]

  unfoldable pub handle_mmio_write : Pci E → Request → Result (Pci E)
  unfolding write_data
  handle_mmio_write s r = write_data r r.msg.size >>= λ bytes. elim mmio.mmio_write [
    | some f ↦ f s r.bar r.msg.addr bytes r.msg.size >>= λ t. ok (send_response t [])
    | none ↦ elim mmio.mmio_write_deferred [
      | some f ↦ f s r.bar r.msg.addr bytes r.msg.size
      | none ↦ abort "ops->mmio_write || ops->mmio_write_deferred"
    ]
  ]

  unfoldable pub handle_mmio_memset : Pci E → Request → Result (Pci E)
  unfolding write_data
  handle_mmio_memset s r = write_data r 1 >>= λ bytes. elim mmio.mmio_set [
    | some f ↦ f s r.bar r.msg.addr (first_byte bytes) r.msg.size >>= λ t. ok (send_response t [])
    | none ↦ elim mmio.mmio_set_deferred [
      | some f ↦ f s r.bar r.msg.addr (first_byte bytes) r.msg.size
      | none ↦ abort "ops->mmio_set || ops->mmio_set_deferred"
    ]
  ]

  unfoldable pub handle_cfg_read : Pci E → Request → Result (Pci E)
  handle_cfg_read s r = elim r.room [
    | none ↦ abort "buf->n_in_sg && buf->in_sg[0].iov_len >= msg->size"
    | some out ↦ do
      assert (leb r.msg.size (length out)) "buf->n_in_sg && buf->in_sg[0].iov_len >= msg->size"
      t ← cfg_read ops s r.msg out
      ok t.0
  ]

  unfoldable pub handle_cfg_write : Pci E → Request → Result (Pci E)
  handle_cfg_write s r = do
    assert (leb r.msg.size (length r.msg.data_bytes))
        "out_sg[0].iov_len >= sizeof(*msg) + msg->size"
    cfg_write ops s r.msg

  -- usfstl_vhost_pci_handle
  unfoldable pub pci_handle : Pci E → Request → Result (Pci E)
  unfolding handle_cfg_read handle_cfg_write handle_mmio_read handle_mmio_write handle_mmio_memset
  pci_handle s r = do
    assert r.complete "buf->n_out_sg >= 1 && buf->out_sg[0].iov_len >= sizeof(*msg)"
    elim r.op [
      | op_cfg_read ↦ handle_cfg_read s r
      | op_cfg_write ↦ handle_cfg_write s r
      | op_mmio_read ↦ handle_mmio_read s r
      | op_mmio_write ↦ handle_mmio_write s r
      | op_mmio_memset ↦ handle_mmio_memset s r
      | op_reserved ↦ ok s
      | op_int ↦ ok s
      | op_msi ↦ ok s
      | op_pme ↦ ok s
      | op_other ↦ ok s
    ]

abbrev pub is_given {ℓ} : {A : Type ℓ} → Option A → Bool
is_given none = false
is_given (some a) = true

-- The assertions of usfstl_vhost_pci_connected on what the device provides.
module _ {E : Type 0} where
  abbrev pub has_space : Pci E → Bool
  has_space s = ltb 0 (length s.config_space) && ltb 0 s.config_space_size

  unfoldable pub pci_connected : Ops E → Pci E → Result (Pci E)
  pci_connected ops s = do
    assert
        (if is_given ops.cfg_space_read
          then true
          else if is_given ops.cfg_space_read_deferred
          then true
          else has_space s)
        "cfg_space_read"
    assert
        (if is_given ops.cfg_space_write
          then true
          else if is_given ops.cfg_space_write_deferred
          then true
          else has_space s && ltb 0 (length s.config_space_mask))
        "cfg_space_write"
    ok s

-- The messages of the device, given to usfstl_vhost_user_dev_notify for the second queue.
module _ {E : Type 0} (notify : Pci E → PciOp → Message → Result (Pci E)) where
  unfoldable pub send_int : Pci E → ℕ → Result (Pci E)
  send_int s number = do
    assert (leb 1 number && leb number 4) "number >= 1 && number <= 4"
    notify s op_int (record { addr = number; size = 0; data_bytes = [] })

  -- The four bytes of data are sent in either case.
  unfoldable pub send_msi : Pci E → ℕ → Bool → ℕ → Result (Pci E)
  send_msi s addr msix value = notify s op_msi (record {
    addr = addr;
    size = if msix then 4 else 2;
    data_bytes = if msix then to_le 4 value else to_le 2 value ++ 0 ∷ 0 ∷ [];
  })

  unfoldable pub send_pme : Pci E → Result (Pci E)
  send_pme s = notify s op_pme (record { addr = 0; size = 0; data_bytes = [] })
