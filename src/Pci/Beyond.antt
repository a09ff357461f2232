-- ===== src/Pci/Beyond.antt =====
-- Messages whose range is not inside the configuration space.
use usfstl.Base.{ℕ, ◌+◌, ◌≤◌, ◌<◌, ◌≡◌, refl, arith, true, false, none, List, length, ok, Aborts}
use usfstl.Time.{two64}
use usfstl.Pci.{
  Pci, Message, Ops, zeros, store, is_beyond, in_memory, space_read, space_write, cfg_read,
  cfg_write,
}

module _ {E : Type 0} (ops : Ops E) (s : Pci E) (msg : Message) (out : List ℕ) where
  -- The device has none of the callbacks.
  pub record IsPlain : Type 0 where
    pub read : ops.cfg_space_read ≡ none
    pub read_deferred : ops.cfg_space_read_deferred ≡ none
    pub write : ops.cfg_space_write ≡ none
    pub write_deferred : ops.cfg_space_write_deferred ≡ none

  -- Without callbacks, a message whose range ends beyond the configuration space is never answered,
  -- and leaves the device as it was. A read clears the buffer for the answer.
  pub cfg_read-is_beyond :
      IsPlain
      → is_beyond s msg ≡ true
      → (cfg_read ops s msg out ≡ ok (s, store (zeros msg.size) out)) × (cfg_write ops s msg ≡ ok s)
  unfolding cfg_read cfg_write space_read space_write
  cfg_read-is_beyond p h =
      (rw (p.read_deferred, p.read, h) refl, rw (p.write_deferred, p.write, h) refl)

  -- Without callbacks, a range whose end wraps around 2 ^ 64 into the configuration space passes the
  -- check, and memory outside of the configuration space is accessed.
  pub cfg_read_overflow :
      IsPlain
      → length s.config_space < two64
      → two64 ≤ msg.addr + msg.size
      → msg.addr + msg.size ≤ two64 + s.config_space_size
      → s.config_space_size < two64
      → Aborts (cfg_read ops s msg out) × Aborts (cfg_write ops s msg)
  unfolding cfg_read cfg_write space_read space_write
  cfg_read_overflow p l a b c =
      let inside : is_beyond s msg ≡ false = ground (arith, a, b, c) in
      let out_of_memory : in_memory s msg ≡ false = ground (arith, l, a) in
      (
        rw (p.read_deferred, p.read, inside, out_of_memory) tt,
        rw (p.write_deferred, p.write, inside, out_of_memory) tt,
      )
