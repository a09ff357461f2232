-- ===== src/Rpc/Vectors.antt =====
-- src/rpc-posix.c: reading and writing a socket, which may take fewer bytes than it is asked for and
-- may be interrupted by a signal.
use usfstl.Base.{
  ℕ, zero, suc, ◌+◌, ◌-◌, ◌≤◌, ◌<◌, ◌≡◌, refl, sym, ap, ◌∙◌, inl, inr, arith, Bool, true, ◌&&◌,
  List, [], ◌∷◌, ◌++◌, length, take, drop, ltb, leb, if◌then◌else◌, Bool-cases, Result, ok, abort,
  assert, ◌>>=◌, ◌>>◌, length-append, length-drop, take_add, drop_add, drop-append, drop_all,
  take_exact, drop_exact, Returns,
}

-- What a call of the system returns: it is interrupted (EINTR), it fails, or it moves `n` bytes.
pub data Outcome : Type 0 where
  interrupted failed : Outcome
  moved : ℕ → Outcome

-- ret > 0 && (size_t)ret <= nbyte
abbrev pub is_progress : ℕ → ℕ → Bool
is_progress n left = ltb 0 n && leb n left

-- The loop of rpc_read: `stream` is what arrives, `left` what is still to be read. The result is
-- what is read and what is left of the stream.
unfoldable pub read_loop : List Outcome → List ℕ → ℕ → Result (List ℕ × List ℕ)
read_loop outcomes stream zero = ok ([], stream)
read_loop [] stream (suc left) = abort "no more calls"
read_loop (interrupted ∷ outcomes) stream (suc left) = read_loop outcomes stream (suc left)
read_loop (failed ∷ outcomes) stream (suc left) = abort "ret > 0"
read_loop (moved n ∷ outcomes) stream (suc left) =
    let rest = read_loop outcomes (drop n stream) (suc left - n) in
    do
      assert (is_progress n (suc left)) "ret > 0 && (size_t)ret <= nbyte"
      r ← rest
      ok (take n stream ++ r.0, r.1)

-- The loop of rpc_write, with what the socket takes.
unfoldable pub write_loop : List Outcome → List ℕ → Result (List ℕ)
write_loop outcomes [] = ok []
write_loop [] (b ∷ buf) = abort "no more calls"
write_loop (interrupted ∷ outcomes) (b ∷ buf) = write_loop outcomes (b ∷ buf)
write_loop (failed ∷ outcomes) (b ∷ buf) = abort "ret > 0"
write_loop (moved n ∷ outcomes) (b ∷ buf) =
    let rest = write_loop outcomes (drop n (b ∷ buf)) in
    do
      assert (is_progress n (length (b ∷ buf))) "ret > 0 && (size_t)ret <= bufsize"
      r ← rest
      ok (take n (b ∷ buf) ++ r)

-- _usfstl_rpc_advance_buffers. A buffer that is used up is left behind; behind the last one there is
-- none.
unfoldable pub advance_buffers : ℕ → List (List ℕ) → Result (List (List ℕ))
advance_buffers zero bufs = ok bufs
advance_buffers (suc n) [] = abort "buf_ptr"
advance_buffers (suc n) (b ∷ bufs) =
    let rest = advance_buffers (suc n - length b) bufs in
    if leb (length b) (suc n) then rest else ok (drop (suc n) b ∷ bufs)

abbrev pub joined : List (List ℕ) → List ℕ
joined [] = []
joined (b ∷ bufs) = b ++ joined bufs

-- The loop of rpc_writev; `bufsize` bytes are left. writev takes the bytes of the buffers in order.
unfoldable pub writev_loop : List Outcome → List (List ℕ) → ℕ → Result (List ℕ)
writev_loop outcomes bufs zero = ok []
writev_loop [] bufs (suc bufsize) = abort "no more calls"
writev_loop (interrupted ∷ outcomes) bufs (suc bufsize) = writev_loop outcomes bufs (suc bufsize)
writev_loop (failed ∷ outcomes) bufs (suc bufsize) = abort "ret > 0"
writev_loop (moved n ∷ outcomes) bufs (suc bufsize) = do
  assert (is_progress n (suc bufsize)) "ret > 0 && (size_t)ret <= bufsize"
  next ← advance_buffers n bufs
  r ← writev_loop outcomes next (suc bufsize - n)
  ok (take n (joined bufs) ++ r)

abbrev pub total_size : List (List ℕ) → ℕ
total_size [] = 0
total_size (b ∷ bufs) = length b + total_size bufs

abbrev pub rpc_writev : List Outcome → List (List ℕ) → Result (List ℕ)
rpc_writev outcomes bufs = writev_loop outcomes bufs (total_size bufs)

-- The system moves `left` bytes in these calls, one at least in each that is not interrupted.
abbrev pub Moves : List Outcome → ℕ → Type 0
Moves outcomes zero = Unit {0}
Moves [] (suc left) = ⊥
Moves (interrupted ∷ outcomes) (suc left) = Moves outcomes (suc left)
Moves (failed ∷ outcomes) (suc left) = ⊥
Moves (moved n ∷ outcomes) (suc left) = (0 < n) × (n ≤ suc left) × Moves outcomes (suc left - n)

progress : (n left : ℕ) → 0 < n → n ≤ left → is_progress n left ≡ true
progress n left h k = ground arith

total_size_lem : (bufs : List (List ℕ)) → total_size bufs ≡ length (joined bufs)
total_size_lem [] = refl
total_size_lem (b ∷ bufs) = omega (arith, total_size_lem bufs, length-append b (joined bufs))

-- After `n` bytes the buffers hold what is behind these bytes.
advance_buffers_lem :
    (n : ℕ) (bufs : List (List ℕ))
    → n ≤ length (joined bufs)
    → (next : List (List ℕ)) × (advance_buffers n bufs ≡ ok next)
      × (joined next ≡ drop n (joined bufs))
unfolding advance_buffers
advance_buffers_lem zero bufs h = (bufs, refl, refl)
advance_buffers_lem (suc n) [] h = absurd (omega arith)
advance_buffers_lem (suc n) (b ∷ bufs) h = elim (Bool-cases (leb (length b) (suc n))) [
  | inl e ↦
      let r =
        advance_buffers_lem (suc n - length b) bufs
          (omega (arith, length-append b (joined bufs))) in
      (
        r.0,
        rw e r.1,
        r.2
            ∙ sym
                (rw (drop-append (suc n) b (joined bufs), drop_all (suc n) b (ground arith)) refl),
      )
  | inr e ↦
      let none_left : suc n - length b ≡ 0 = ground arith in
      (
        drop (suc n) b ∷ bufs,
        rw e refl,
        sym (rw (drop-append (suc n) b (joined bufs), none_left) refl),
      )
]

take-drop : (n : ℕ) (xs : List ℕ) → take n xs ++ drop n xs ≡ xs
take-drop zero xs = refl
take-drop (suc n) [] = refl
take-drop (suc n) (x ∷ xs) = ap (◌∷◌ x) (take-drop n xs)

length_zero : (xs : List ℕ) → length xs ≡ 0 → xs ≡ []
length_zero [] h = refl
length_zero (x ∷ xs) h = absurd (omega arith)

-- However the system divides the bytes among its calls, the loop of rpc_writev writes the buffers in
-- order, each whole.
writev_loop_lem :
    (outcomes : List Outcome) (bufs : List (List ℕ)) (left : ℕ)
    → left ≡ length (joined bufs)
    → Moves outcomes left
    → writev_loop outcomes bufs left ≡ ok (joined bufs)
unfolding writev_loop
writev_loop_lem outcomes bufs zero e m = rw (length_zero (joined bufs) (sym e)) refl
writev_loop_lem [] bufs (suc left) e m = absurd m
writev_loop_lem (interrupted ∷ outcomes) bufs (suc left) e m =
    writev_loop_lem outcomes bufs (suc left) e m
writev_loop_lem (failed ∷ outcomes) bufs (suc left) e m = absurd m
writev_loop_lem (moved n ∷ outcomes) bufs (suc left) e m =
    let a = advance_buffers_lem n bufs (omega (arith, m.1)) in
    let ih =
      writev_loop_lem outcomes a.0 (suc left - n)
        (rw (a.2) (omega (arith, length-drop n (joined bufs)))) m.2 in
    rw (progress n (suc left) m.0 m.1, a.1, ih, a.2) (ap ok (take-drop n (joined bufs)))

-- So the loop of rpc_read reads as many bytes as it is asked for.
read_loop_lem :
    (outcomes : List Outcome) (stream : List ℕ) (left : ℕ)
    → left ≤ length stream
    → Moves outcomes left
    → read_loop outcomes stream left ≡ ok (take left stream, drop left stream)
unfolding read_loop
read_loop_lem outcomes stream zero h m = refl
read_loop_lem [] stream (suc left) h m = absurd m
read_loop_lem (interrupted ∷ outcomes) stream (suc left) h m =
    read_loop_lem outcomes stream (suc left) h m
read_loop_lem (failed ∷ outcomes) stream (suc left) h m = absurd m
read_loop_lem (moved n ∷ outcomes) stream (suc left) h m =
    let ih =
      read_loop_lem outcomes (drop n stream) (suc left - n) (omega (arith, length-drop n stream))
        m.2 in
    let sum : n + (suc left - n) ≡ suc left = omega (arith, m.1) in
    rw (progress n (suc left) m.0 m.1, ih)
      (λ i. ok (
        (sym (take_add n (suc left - n) stream) ∙ ap (λ k. take k stream) sum) i,
        (drop_add n (suc left - n) stream ∙ ap (λ k. drop k stream) sum) i,
      ))

-- However the system divides the bytes among its calls on either side, rpc_writev writes its buffers
-- in order, each whole, and reading their total size gives them back and leaves what follows.
pub read_loop-rpc_writev :
    (outcomes outcomes' : List Outcome) (bufs : List (List ℕ)) (rest : List ℕ)
    → Moves outcomes (total_size bufs)
    → Moves outcomes' (total_size bufs)
    → Returns
        (rpc_writev outcomes bufs)
        (λ bytes. read_loop outcomes' (bytes ++ rest) (total_size bufs) ≡ ok (joined bufs, rest))
read_loop-rpc_writev outcomes outcomes' bufs rest m m' =
    let n = total_size_lem bufs in
    rw (writev_loop_lem outcomes bufs (total_size bufs) n m) (
      read_loop_lem outcomes' (joined bufs ++ rest) (total_size bufs)
        (omega (arith, n, length-append (joined bufs) rest)) m'
      ∙ (λ i. ok (
        take_exact (total_size bufs) (joined bufs) rest (sym n) i,
        drop_exact (total_size bufs) (joined bufs) rest (sym n) i,
      )))
