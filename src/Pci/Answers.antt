-- ===== src/Pci/Answers.antt =====
-- Messages for the memory of a device, and the answers to them.
use usfstl.Base.{
  ℕ, zero, suc, ◌-◌, ◌≤◌, ◌≡◌, true, ◌⊎◌, Option, some, List, [], ◌∷◌, ◌++◌, length, take, drop,
  Result, Returns,
}
use usfstl.Pci.{Pci, Message, Ops, send_response}
use usfstl.Pci.Dispatch.{PciOp, Request, MmioOps}

abbrev pub repeat : ℕ → ℕ → List ℕ
repeat zero b = []
repeat (suc n) b = b ∷ repeat n b

-- A message with the operation `op`, more data in a second element, and room for what is read.
abbrev pub request_of : PciOp → ℕ → Message → Option (List ℕ) → List ℕ → Request
request_of op bar msg more room = record {
  complete = true;
  op = op;
  bar = bar;
  msg = msg;
  more_data = more;
  room = some room;
}

-- The bytes that come with a message: behind it, or in the second element if there are none behind it.
abbrev pub IsCarried : Message → Option (List ℕ) → ℕ → List ℕ → Type 0
IsCarried msg more b bs =
    (msg.data_bytes ≡ b ∷ bs) ⊎ ((msg.data_bytes ≡ []) × (more ≡ some (b ∷ bs)))

module _ {E : Type 0} (ops : Ops E) (mmio : MmioOps E) where
  -- Callbacks that answer at once, for a range where the device has the bytes `peek s`. A read puts
  -- those into the buffer that it is given and leaves the rest of it alone, a write and a memset put
  -- the new bytes there, and none of them sends a response of its own.
  pub record IsMemory (peek : Pci E → List ℕ) (bar addr size : ℕ) : Type 0 where
    pub read : Pci E → ℕ → List ℕ → ℕ → ℕ → Result (Pci E × List ℕ)
    pub write : Pci E → ℕ → ℕ → List ℕ → ℕ → Result (Pci E)
    pub set : Pci E → ℕ → ℕ → ℕ → ℕ → Result (Pci E)
    pub can_read : mmio.mmio_read ≡ some read
    pub can_write : mmio.mmio_write ≡ some write
    pub can_set : mmio.mmio_set ≡ some set
    pub fits : (s : Pci E) → length (peek s) ≤ size
    pub kept : (s : Pci E) (out : List ℕ) → peek (send_response s out) ≡ peek s
    pub reads :
        (s : Pci E) (b : List ℕ)
        → Returns
            (read s bar b addr size)
            (λ t. (t.1 ≡ peek s ++ drop (length (peek s)) b) × (t.0.responses ≡ s.responses))
    pub writes :
        (s : Pci E) (bytes : List ℕ)
        → size ≤ length bytes
        → Returns
            (write s bar addr bytes size)
            (λ t. (peek t ≡ take size bytes) × (t.responses ≡ s.responses))
    pub sets :
        (s : Pci E) (v : ℕ)
        → Returns
            (set s bar addr v size)
            (λ t. (peek t ≡ repeat size v) × (t.responses ≡ s.responses))

  module _ (peek : Pci E → List ℕ) (bar : ℕ) (msg : Message) (more : Option (List ℕ))
      (room : List ℕ) (m : IsMemory peek bar msg.addr msg.size) (h : msg.size ≤ length room) where
    -- What is in the room after a read that found these bytes.
    abbrev pub answer : List ℕ → List ℕ
    answer bytes = bytes ++ (repeat (msg.size - length bytes) 255 ++ drop msg.size room)
