-- ===== src/SchedCtrl/Answers.antt =====
-- src/schedctrl.c: the wait for the answer to a message.
use usfstl.Base.{
  ℕ, zero, suc, ◌<◌, ◌≡◌, refl, arith, Bool, true, false, ◌&&◌, none, List, [], ◌∷◌, length, All,
  ◌==◌, ==_refl, ok,
}
use usfstl.Shm.{Op, op_ack}
use usfstl.SchedCtrl.{
  Event, message, Ctrl, CtrlSched, User, is_op_wait, is_op_get, next_seq, has_mem, with_ctrl,
}
use usfstl.SchedCtrl.Client.{handle_fds, sock_read, handle_event, wait_acked, send_msg}

abbrev pub ack_of : ℕ → ℕ → Event
ack_of seq time = message (record { op = op_ack; seq = seq; time = time }) none

-- Acknowledgements with these numbers, ahead of other events.
abbrev pub acks : List ℕ → List Event → List Event
acks [] events = events
acks (seq ∷ seqs) events = ack_of seq 0 ∷ acks seqs events

and_false : (b : Bool) → (b && false) ≡ false
and_false true = refl
and_false false = refl

module _ {F : Type 0} (user : User F) where
  wait_acked_lem :
      (s : CtrlSched F) (c : Ctrl F) (time fuel : ℕ) (rest : List Event) (seqs : List ℕ)
      → All (λ seq. (seq == c.expected_ack_seq) ≡ false) seqs
      → length seqs < fuel
      → wait_acked user fuel (
          with_ctrl s
            (record c { acked = false; inbox = acks seqs (ack_of c.expected_ack_seq time ∷ rest) }))
        ≡ ok (with_ctrl s (record c { acked = true; ack_time = time; inbox = rest }))
  unfolding wait_acked handle_event sock_read handle_fds
  wait_acked_lem s c time zero rest seqs a h = absurd (omega arith)
  wait_acked_lem s c time (suc zero) rest [] a h = rw (==_refl c.expected_ack_seq) refl
  wait_acked_lem s c time (suc (suc fuel)) rest [] a h = rw (==_refl c.expected_ack_seq) refl
  wait_acked_lem s c time (suc fuel) rest (seq ∷ seqs) a h =
      rw a.0 (wait_acked_lem s c time fuel rest seqs a.1 (omega arith))

  -- A message other than WAIT and GET, sent while none is acknowledged, is answered once the acknowledgement
  -- of its number arrives, in as many rounds of the main loop as acknowledgements of other numbers arrive
  -- before it, and one more. Those are ignored, and the number awaited before is awaited again.
  pub send_msg_answered :
      (s : CtrlSched F) (op : Op) (time ack_time fuel : ℕ) (rest : List Event) (seqs : List ℕ)
      → is_op_wait op ≡ false
      → is_op_get op ≡ false
      → s.env.acked ≡ false
      → s.env.inbox ≡ acks seqs (ack_of (next_seq s.env.seq) ack_time ∷ rest)
      → All (λ seq. (seq == next_seq s.env.seq) ≡ false) seqs
      → length seqs < fuel
      → send_msg user fuel s op time
        ≡ ok (
            with_ctrl s (record s.env {
              seq = next_seq s.env.seq;
              sent = record { op = op; seq = next_seq s.env.seq; time = time } ∷ s.env.sent;
              old_expected = s.env.expected_ack_seq;
              acked = false;
              ack_time = ack_time;
              inbox = rest;
            }))
  unfolding send_msg
  send_msg_answered s op time ack_time fuel rest seqs a b c d h k =
      rw
        (
          a,
          and_false (has_mem s.env.mem),
          b,
          c,
          d,
          wait_acked_lem s
              (record s.env {
                seq = next_seq s.env.seq;
                sent = record { op = op; seq = next_seq s.env.seq; time = time } ∷ s.env.sent;
                old_expected = s.env.expected_ack_seq;
                expected_ack_seq = next_seq s.env.seq;
              })
              ack_time fuel rest seqs h k,
        )
        refl
