-- ===== src/Multi/PtcSide.antt =====
-- src/multi-ptc.c: a participant's requests to the controller and its wait for the next turn.
use usfstl.Base.{
  ℕ, Bool, true, false, ◌||◌, not, List, [], ◌∷◌, ◌++◌, ◌==◌, if◌then◌else◌, Result, ok, abort,
  ◌>>=◌,
}
use usfstl.Sched.{Sched, Hooks, ReqStatus, wait}
use usfstl.Sched.Advance.{set_sync_time}
use usfstl.Multi.SharedMem.{
  MemState, sent_sections, shared_mem_handle_msg, update_local_view, prepare_msg,
}
use usfstl.Multi.{
  PtcCall, sched_request, sched_wait, sched_req_and_wait, CtlCall, set_sync, sched_cont,
}

-- What a participant keeps beside g_usfstl_multi_sched: g_usfstl_multi_sched_req with its time and
-- flags, whether it has its turn, and the calls that arrive and that it has made.
pub record Ptc : Type 0 where
  pub sched_continue : Bool
  pub time : ℕ
  pub time_valid : Bool
  pub pending : Bool
  pub own_mem : MemState
  pub arriving : List CtlCall
  pub made : List PtcCall

abbrev pub PtcSched : Type 0
PtcSched = Sched Ptc

abbrev pub with_ptc : PtcSched → Ptc → PtcSched
with_ptc s e = record s { env = e }

-- `me` is the participant's number.
module _ (me : ℕ) where
  -- A request that is needed now.
  abbrev pub request_now : Ptc → ℕ → Ptc
  request_now e at =
      if e.sched_continue
      then record e { pending = true }
      else if not e.time_valid || not (e.time == at)
      then record e { made = e.made ++ sched_request me at ∷ [] }
      else e

  unfoldable pub ext_req : PtcSched → ℕ → PtcSched × ReqStatus
  ext_req s at = (with_ptc s (record (request_now s.env at) { time = at; time_valid = true }), wait)

  -- The part of the wait before the loop: the message of the shared memory, combined with the
  -- pending request.
  unfoldable pub send_wait : PtcSched → Result PtcSched
  send_wait s = do
    m ← prepare_msg s.env.own_mem
    let sections = sent_sections m m.shared_mem_dirty
    ok (
        with_ptc s (record (s.env) {
          sched_continue = false;
          own_mem = record m { shared_mem_dirty = false };
          made =
              s.env.made
              ++ (if s.env.pending
                  then sched_req_and_wait me s.env.time sections
                  else sched_wait me sections)
                ∷ [];
          pending = false;
          time_valid = false;
        }))

  module _ (hooks : Hooks Ptc) where
    unfoldable pub handle_ctl_call : PtcSched → CtlCall → Result PtcSched
    handle_ctl_call s (sched_cont p msg) = do
      m ← shared_mem_handle_msg s.env.own_mem msg true
      ok (with_ptc s (record (s.env) { own_mem = m; sched_continue = true }))
    handle_ctl_call s (set_sync p sync) = set_sync_time hooks s sync

    unfoldable pub wait_turn : List CtlCall → PtcSched → Result PtcSched
    wait_turn [] s = if s.env.sched_continue then ok s else abort "no call arrives"
    wait_turn (c ∷ calls) s =
        let rest = handle_ctl_call (with_ptc s (record (s.env) { arriving = calls })) c >>= λ t.
        wait_turn calls t in
        if s.env.sched_continue then ok s else rest

    unfoldable pub ext_wait : PtcSched → Result PtcSched
    ext_wait s = do
      t ← send_wait s
      u ← wait_turn t.env.arriving t
      m ← update_local_view u.env.own_mem
      ok (with_ptc u (record (u.env) { own_mem = m }))
