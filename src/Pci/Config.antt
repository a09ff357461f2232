-- ===== src/Pci/Config.antt =====
-- A masked write to the configuration space, and what a read then finds.
use usfstl.Base.{
  ◌&&◌, ℕ, zero, suc, ◌+◌, ◌≤◌, ◌<◌, ◌≡◌, refl, ap, arith, true, false, none, List, [], ◌∷◌, ◌++◌,
  ◌==◌, if◌then◌else◌, All, length-drop, take, drop, length, leb, ok, Returns, ◌>>=◌,
}
use usfstl.Time.{two64}
use usfstl.Pci.Bits.{bit_at, bit_at-merge_byte}
use usfstl.Pci.{
  Pci, Message, Ops, write_masked, merge_byte, store, send_response, is_beyond, in_memory,
  space_read, space_write, cfg_read, cfg_write,
}

-- The bytes of a range after a write: each bit of the mask lets the new bit in.
abbrev merge : List ℕ → List ℕ → List ℕ → List ℕ
merge (v ∷ vs) (m ∷ ms) (d ∷ ds) = merge_byte v m d ∷ merge vs ms ds
merge _ _ _ = []

write_masked-take :
    (off n : ℕ) (vs ms ds : List ℕ)
    → off + n ≤ length vs
    → off + n ≤ length ms
    → n ≤ length ds
    → take n (drop off (write_masked off n vs ms ds))
      ≡ merge (take n (drop off vs)) (drop off ms) ds
unfolding write_masked
write_masked-take (suc off) n (v ∷ vs) (m ∷ ms) ds h k l =
    write_masked-take off n vs ms ds (omega arith) (omega arith) l
write_masked-take (suc off) n [] ms ds h k l = let no : ⊥ = omega arith in absurd no
write_masked-take (suc off) n (v ∷ vs) [] ds h k l = let no : ⊥ = omega arith in absurd no
write_masked-take zero zero vs ms ds h k l = refl
write_masked-take zero (suc n) [] ms ds h k l = refl
write_masked-take zero (suc n) (v ∷ vs) [] ds h k l = let no : ⊥ = omega arith in absurd no
write_masked-take zero (suc n) (v ∷ vs) (m ∷ ms) [] h k l = let no : ⊥ = omega arith in absurd no
write_masked-take zero (suc n) (v ∷ vs) (m ∷ ms) (d ∷ ds) h k l =
    ap (◌∷◌ (merge_byte v m d))
      (write_masked-take zero n vs ms ds (omega arith) (omega arith) (omega arith))

length-write_masked :
    (off n : ℕ) (vs ms ds : List ℕ) → length (write_masked off n vs ms ds) ≡ length vs
unfolding write_masked
length-write_masked (suc off) n (v ∷ vs) (m ∷ ms) ds = ap suc (length-write_masked off n vs ms ds)
length-write_masked (suc off) n [] ms ds = refl
length-write_masked (suc off) n (v ∷ vs) [] ds = refl
length-write_masked zero zero vs ms ds = refl
length-write_masked zero (suc n) [] ms ds = refl
length-write_masked zero (suc n) (v ∷ vs) [] ds = refl
length-write_masked zero (suc n) (v ∷ vs) (m ∷ ms) [] = refl
length-write_masked zero (suc n) (v ∷ vs) (m ∷ ms) (d ∷ ds) =
    ap suc (length-write_masked zero n vs ms ds)

suc_plus : (a b : ℕ) → suc a + b ≡ suc (a + b)
suc_plus a b = omega arith

zero_plus : (b : ℕ) → 0 + suc b ≡ suc (0 + b)
zero_plus b = omega arith

-- Bytes outside of the range stay.
write_masked-frame :
    (off n : ℕ) (vs ms ds : List ℕ)
    → (take off (write_masked off n vs ms ds) ≡ take off vs)
      × (drop (off + n) (write_masked off n vs ms ds) ≡ drop (off + n) vs)
unfolding write_masked
write_masked-frame (suc off) n (v ∷ vs) (m ∷ ms) ds =
    let r = write_masked-frame off n vs ms ds in (ap (◌∷◌ v) r.0, rw (suc_plus off n) r.1)
write_masked-frame (suc off) n [] ms ds = (refl, refl)
write_masked-frame (suc off) n (v ∷ vs) [] ds = (refl, refl)
write_masked-frame zero zero vs ms ds = (refl, refl)
write_masked-frame zero (suc n) [] ms ds = (refl, refl)
write_masked-frame zero (suc n) (v ∷ vs) [] ds = (refl, refl)
write_masked-frame zero (suc n) (v ∷ vs) (m ∷ ms) [] = (refl, refl)
write_masked-frame zero (suc n) (v ∷ vs) (m ∷ ms) (d ∷ ds) =
    let r = write_masked-frame zero n vs ms ds in (refl, rw (zero_plus n) r.1)

-- The first `n` bytes of `rs` have their bits from `ds` where the mask has a 1, and from `vs` where it
-- has a 0.
unfoldable pub IsMerged : ℕ → List ℕ → List ℕ → List ℕ → List ℕ → Type 0
IsMerged zero vs ms ds rs = Unit {0}
IsMerged (suc n) (v ∷ vs) (m ∷ ms) (d ∷ ds) (r ∷ rs) =
    ((k : ℕ) → k < 8 → bit_at k r ≡ (if bit_at k m == 1 then bit_at k d else bit_at k v))
    × IsMerged n vs ms ds rs
IsMerged (suc n) _ _ _ _ = ⊥

merge-IsMerged :
    (n : ℕ) (vs ms ds : List ℕ)
    → n ≤ length vs
    → n ≤ length ms
    → n ≤ length ds
    → All (λ m. m < 256) ms
    → IsMerged n vs ms ds (merge (take n vs) ms ds) × (length (merge (take n vs) ms ds) ≡ n)
unfolding IsMerged
merge-IsMerged zero vs ms ds h k l b = (tt, refl)
merge-IsMerged (suc n) [] ms ds h k l b = let no : ⊥ = omega arith in absurd no
merge-IsMerged (suc n) (v ∷ vs) [] ds h k l b = let no : ⊥ = omega arith in absurd no
merge-IsMerged (suc n) (v ∷ vs) (m ∷ ms) [] h k l b = let no : ⊥ = omega arith in absurd no
merge-IsMerged (suc n) (v ∷ vs) (m ∷ ms) (d ∷ ds) h k l b =
    let r = merge-IsMerged n vs ms ds (omega arith) (omega arith) (omega arith) b.1 in
    ((λ i e. bit_at-merge_byte i v m d e b.0, r.0), ap suc r.1)

All-drop : (P : ℕ → Type 0) (n : ℕ) (xs : List ℕ) → All P xs → All P (drop n xs)
All-drop P zero xs a = a
All-drop P (suc n) [] a = tt
All-drop P (suc n) (x ∷ xs) a = All-drop P n xs a.1

module _ {E : Type 0} (s : Pci E) (msg : Message) where
  -- The range of the message is inside the configuration space, its bytes were sent, and the mask is
  -- one of bytes.
  pub record IsInside : Type 0 where
    pub space : length s.config_space ≡ s.config_space_size
    pub mask : length s.config_space_mask ≡ s.config_space_size
    pub range : msg.addr + msg.size ≤ s.config_space_size
    pub bits : s.config_space_size < two64
    pub bytes : msg.size ≤ length msg.data_bytes
    pub mask_bytes : All (λ m. m < 256) s.config_space_mask

  -- The device after a write.
  abbrev pub written : Pci E
  written = record s {
    config_space = write_masked msg.addr msg.size s.config_space s.config_space_mask msg.data_bytes;
  }

  inside-is_beyond : IsInside → is_beyond s msg ≡ false
  inside-is_beyond h = ground (arith, h.range, h.bits)

  space_write_inside : IsInside → space_write s msg ≡ ok (send_response written [])
  unfolding space_write
  space_write_inside h =
      let fit : (in_memory s msg
            && leb (msg.addr + msg.size) (length s.config_space_mask)
            && leb msg.size (length msg.data_bytes))
          ≡ true =
        ground (arith, h.space, h.mask, h.range, h.bytes) in
      rw (inside-is_beyond h, fit) refl

  -- What a read of the same range finds after the write.
  abbrev found : List ℕ → List ℕ
  found out =
      store
        (merge (take msg.size (drop msg.addr s.config_space)) (drop msg.addr s.config_space_mask)
          msg.data_bytes)
        out

  space_read-written :
      (out : List ℕ)
      → IsInside
      → space_read (send_response written []) msg out
        ≡ ok (send_response (send_response written []) (found out), found out)
  unfolding space_read
  space_read-written out h =
      let t =
        write_masked-take msg.addr msg.size s.config_space s.config_space_mask msg.data_bytes
          (omega (arith, h.space, h.range)) (omega (arith, h.mask, h.range)) h.bytes in
      let n =
        length-write_masked msg.addr msg.size s.config_space s.config_space_mask msg.data_bytes in
      let fit : in_memory written msg ≡ true = ground (arith, n, h.space, h.range) in
      rw (inside-is_beyond h, fit, t) refl

  -- The bytes that a read finds after the write, the rest of the buffer left alone.
  pub IsAnswer : List ℕ → List ℕ → Type 0
  IsAnswer out answer =
      (bytes : List ℕ) × (answer ≡ bytes ++ drop msg.size out)
      × (length bytes ≡ msg.size)
      × IsMerged msg.size (drop msg.addr s.config_space) (drop msg.addr s.config_space_mask)
          msg.data_bytes bytes

  found-IsAnswer : (out : List ℕ) → IsInside → IsAnswer out (found out)
  unfolding IsAnswer
  found-IsAnswer out h =
      let r =
        merge-IsMerged msg.size (drop msg.addr s.config_space) (drop msg.addr s.config_space_mask)
          msg.data_bytes (omega (arith, length-drop msg.addr s.config_space, h.space, h.range))
          (omega (arith, length-drop msg.addr s.config_space_mask, h.mask, h.range)) h.bytes
          (All-drop (λ m. m < 256) msg.addr s.config_space_mask h.mask_bytes) in
      (
        merge (take msg.size (drop msg.addr s.config_space)) (drop msg.addr s.config_space_mask)
            msg.data_bytes,
        rw r.1 refl,
        r.1,
        r.0,
      )

  -- Without callbacks, a write inside the configuration space and a read of the same range return.
  -- The write is answered without data, and the read with as many bytes as were written, where each
  -- of the eight bits is that of the data if the mask has it, and the former one if not; what the
  -- buffer of the read has beyond them, and the bytes outside of the range, have not changed.
  pub cfg_write-cfg_read :
      (ops : Ops E) (out : List ℕ)
      → ops.cfg_space_read ≡ none
      → ops.cfg_space_read_deferred ≡ none
      → ops.cfg_space_write ≡ none
      → ops.cfg_space_write_deferred ≡ none
      → IsInside
      → Returns (cfg_write ops s msg >>= λ t. cfg_read ops t msg out) (λ r.
        ((answer : List ℕ) × (r.0.responses ≡ answer ∷ [] ∷ s.responses) × IsAnswer out answer)
        × (take msg.addr r.0.config_space ≡ take msg.addr s.config_space)
        × (drop (msg.addr + msg.size) r.0.config_space ≡ drop (msg.addr + msg.size) s.config_space))
  unfolding cfg_write cfg_read
  cfg_write-cfg_read ops out a b c d h =
      let f =
        write_masked-frame msg.addr msg.size s.config_space s.config_space_mask msg.data_bytes in
      rw (d, c, space_write_inside h, b, a, space_read-written out h)
        ((found out, refl, found-IsAnswer out h), f.0, f.1)
