-- ===== src/Multi.antt =====
-- src/multi-ctl.c and src/multi-ptc.c: a simulation of several programs, of which the controller lets
-- one participant after the other run. This file is the controller, PtcSide the other side,
-- SharedMem what they share; the other children hold the proofs.
pub mod SharedMem
pub mod PtcSide
pub mod Told
pub mod Requests
pub mod Flags
pub mod Sent
pub mod Wait
pub mod Turn
mod Tests
use usfstl.Base.{
  ℕ, Bool, true, false, ◌&&◌, ◌||◌, not, Option, none, some, List, [], ◌∷◌, ◌++◌, ◌==◌,
  if◌then◌else◌, Result, ok, abort, ◌>>=◌,
}
use usfstl.Sched.{Sched, Hooks, set_job, del_job, add_job}
use usfstl.Sched.Advance.{get_sync_time}
use usfstl.Multi.SharedMem.{
  MemSection, Participant, MemState, set_participant, sent_sections, shared_mem_handle_msg,
  update_local_view, prepare_msg,
}

-- The calls that the controller makes: multi_rpc_sched_set_sync and multi_rpc_sched_cont.
pub data CtlCall : Type 0 where
  set_sync : ℕ → ℕ → CtlCall
  sched_cont : ℕ → List MemSection → CtlCall

-- The calls that participants make, with the number of the participant.
pub data PtcCall : Type 0 where
  sched_request : ℕ → ℕ → PtcCall
  sched_wait : ℕ → List MemSection → PtcCall
  sched_req_and_wait : ℕ → ℕ → List MemSection → PtcCall

-- g_usfstl_multi_local_participant
abbrev pub local_participant : ℕ
local_participant = 0

-- What the controller keeps beside g_usfstl_multi_sched, in which a participant's job has its number.
-- `ptc_calls` are the calls that arrive, `ctl_calls` those that it has made, the latest last.
pub record Ctl : Type 0 where
  pub shared_mem : MemState
  pub running_participant : ℕ
  pub ctrl_disable_sync : Bool
  pub ptc_calls : List PtcCall
  pub ctl_calls : List CtlCall

abbrev pub CtlSched : Type 0
CtlSched = Sched Ctl

abbrev pub with_mem : CtlSched → MemState → CtlSched
with_mem s m = record s { env = record (s.env) { shared_mem = m } }

abbrev pub ptc_at : CtlSched → ℕ → Participant
ptc_at s p = s.env.shared_mem.participant p

abbrev pub set_ptc : CtlSched → ℕ → Participant → CtlSched
set_ptc s p v = with_mem s (set_participant s.env.shared_mem p v)

abbrev pub call_ptc : CtlSched → CtlCall → CtlSched
call_ptc s c = record s { env = record (s.env) { ctl_calls = s.env.ctl_calls ++ c ∷ [] } }

module _ (hooks : Hooks Ctl) where
  -- `none` is NULL, for the participant that runs.
  abbrev pub updated_participant : CtlSched → Option ℕ → ℕ
  updated_participant s update = elim update [ none ↦ s.env.running_participant | some p ↦ p ]

  unfoldable pub update_sync_time : CtlSched → Option ℕ → CtlSched
  update_sync_time s update =
      let sync = get_sync_time hooks s in
      let u = updated_participant s update in
      let t = record s { env = record (s.env) { running_participant = u } } in
      if s.env.ctrl_disable_sync
      then s
      else if ((ptc_at s u).sync_set && (ptc_at s u).sync == sync) || u == local_participant
      then t
      else set_ptc (call_ptc t (set_sync u sync)) u
          (record (ptc_at s u) { sync_set = true; sync = sync })

  unfoldable pub handle_sched_request : CtlSched → ℕ → ℕ → Result CtlSched
  handle_sched_request s p time =
      let t = del_job s p in
      do
        u ← add_job hooks (set_job t p (record (t.jobs p) { start = time })) p
        ok (update_sync_time u none)

  unfoldable pub handle_sched_wait : CtlSched → ℕ → List MemSection → Result CtlSched
  handle_sched_wait s p msg = do
    m ← shared_mem_handle_msg s.env.shared_mem msg false
    v ← update_local_view m
    ok (with_mem s (set_participant v p (record (v.participant p) { is_waiting = true })))

  unfoldable pub handle_ptc_call : CtlSched → PtcCall → Result CtlSched
  handle_ptc_call s (sched_request p time) = handle_sched_request s p time
  handle_ptc_call s (sched_wait p msg) = handle_sched_wait s p msg
  handle_ptc_call s (sched_req_and_wait p time msg) = do
    t ← handle_sched_request s p time
    handle_sched_wait t p msg

  -- Calls are handled until the participant waits.
  unfoldable pub ctl_wait : ℕ → List PtcCall → CtlSched → Result CtlSched
  ctl_wait p [] s = if (ptc_at s p).is_waiting then ok s else abort "no call arrives"
  ctl_wait p (c ∷ calls) s =
      let rest =
        handle_ptc_call (record s { env = record (s.env) { ptc_calls = calls } }) c >>= λ t.
        ctl_wait p calls t in
      if (ptc_at s p).is_waiting then ok s else rest

  -- The callback of a participant's job.
  unfoldable pub sched_callback : ℕ → CtlSched → Result CtlSched
  sched_callback p s =
      let t =
        update_sync_time (set_ptc s p (record (ptc_at s p) { is_waiting = false })) (some p) in
      do
        m ← prepare_msg t.env.shared_mem
        let sections = sent_sections m (m.participant p).is_outdated
        let u = call_ptc (with_mem t m) (sched_cont p sections)
        v ←
            ctl_wait p u.env.ptc_calls
              (set_ptc u p (record (m.participant p) { is_outdated = false }))
        w ← update_local_view v.env.shared_mem
        ok (with_mem v w)
