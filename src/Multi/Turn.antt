-- ===== src/Multi/Turn.antt =====
-- src/multi-ctl.c: the turn that the callback of a participant's job gives it.
use usfstl.Base.{
  ℕ, ◌≡◌, refl, ap, ◌∙◌, Bool, true, false, not, some, List, [], ◌∷◌, ◌++◌, ◌==◌, ==_refl,
  if◌then◌else◌, ok, Returns, ◌>>=◌,
}
use usfstl.Sched.{Hooks}
use usfstl.Multi.SharedMem.{
  MemSection, Participant, MemState, set_participant, update_msg, sent_sections,
  shared_mem_handle_msg, update_local_view,
}
use usfstl.Multi.{
  Ctl, CtlSched, PtcCall, sched_cont, sched_wait, ptc_at, set_ptc, call_ptc, with_mem,
  update_sync_time, handle_sched_wait, handle_ptc_call, ctl_wait, sched_callback,
}
use usfstl.Multi.Flags.{waits, waits-mark_outdated, mark_outdated_local}
use usfstl.Multi.Sent.{
  prepared, prepared_lem, needed, sent_sections-prepared, update_keeps, update_flag,
}
use usfstl.Multi.Wait.{shared_mem_handle_msg-running, update_local_view_lem}

module _ (p : ℕ) where
  wait_done :
      (hooks : Hooks Ctl) (calls : List PtcCall) (t : CtlSched)
      → waits p t.env.shared_mem ≡ true
      → ctl_wait hooks p calls t ≡ ok t
  unfolding ctl_wait
  wait_done hooks [] t h = rw h refl
  wait_done hooks (c ∷ calls) t h = rw h refl

  not_yet :
      (hooks : Hooks Ctl) (c : PtcCall) (calls : List PtcCall) (t : CtlSched)
      → waits p t.env.shared_mem ≡ false
      → ctl_wait hooks p (c ∷ calls) t ≡ (
          handle_ptc_call hooks (record t { env = record (t.env) { ptc_calls = calls } }) c >>= λ u.
          ctl_wait hooks p calls u)
  unfolding ctl_wait
  not_yet hooks c calls t h = rw h refl

  waits-prepared :
      (m : MemState) (msg : List MemSection) (changed : Bool)
      → waits p (prepared m msg changed) ≡ waits p m
  waits-prepared m msg true =
      waits-mark_outdated (λ q. true) m.participants (record m { msg_sections = msg }) p
  waits-prepared m msg false = refl

  prepared_local :
      (m : MemState) (msg : List MemSection) (changed : Bool)
      → (prepared m msg changed).local_outdated ≡ m.local_outdated
  prepared_local m msg true =
      mark_outdated_local (λ q. true) m.participants (record m { msg_sections = msg })
  prepared_local m msg false = refl

  -- A participant that was changed.
  set_here :
      {B : Type 0} (f : Participant → B) (v w : Participant) → f (if p == p then v else w) ≡ f v
  set_here f v w = rw (==_refl p) refl

module _ (hooks : Hooks Ctl) (s : CtlSched) (p : ℕ) (msg incoming : List MemSection)
    (changed : Bool) where
  -- The state when the participant gets its turn.
  abbrev pub running : CtlSched
  running = set_ptc s p (record (ptc_at s p) { is_waiting = false })

  abbrev pub turn_start : CtlSched
  turn_start = update_sync_time hooks running (some p)

  abbrev message : MemState
  message = prepared turn_start.env.shared_mem msg changed

  -- The memory while the participant runs.
  abbrev pub given_mem : MemState
  given_mem = set_participant message p (record (message.participant p) { is_outdated = false })

  -- What holds when the turn of the participant is over: it waits, its view of the memory is up to
  -- date, the controller's own view is that of the message which arrived, the last call to the
  -- participant was the one that let it run, and no call behind its own has been handled.
  pub record TurnOver (rest : List PtcCall) (refreshed : MemState) (t : CtlSched) : Type 0 where
    pub again : (ptc_at t p).is_waiting ≡ true
    pub up_to_date : (ptc_at t p).is_outdated ≡ false
    pub own_view : t.env.shared_mem.local_sections ≡ refreshed.local_sections
    pub own_up_to_date : t.env.shared_mem.local_outdated ≡ false
    pub last_call :
        t.env.ctl_calls
        ≡ turn_start.env.ctl_calls ++ sched_cont p (needed s.env.shared_mem p msg changed) ∷ []
    pub unhandled : t.env.ptc_calls ≡ rest

  given_waits : waits p given_mem ≡ false
  given_waits =
      set_here p (λ q. q.is_waiting) (record (message.participant p) { is_outdated = false })
        (message.participant p)
      ∙ (waits-prepared p turn_start.env.shared_mem msg changed
          ∙ (update_flag hooks running (some p) (λ q. q.is_waiting) p refl
              ∙ set_here p (λ q. q.is_waiting) (record (ptc_at s p) { is_waiting = false })
                  (ptc_at s p)))

  needed-start :
      needed turn_start.env.shared_mem p msg changed ≡ needed s.env.shared_mem p msg changed
  needed-start =
      let f : (ptc_at turn_start p).is_outdated ≡ (ptc_at s p).is_outdated =
        update_flag hooks running (some p) (λ q. q.is_outdated) p refl
        ∙ set_here p (λ q. q.is_outdated) (record (ptc_at s p) { is_waiting = false })
            (ptc_at s p) in
      let l : turn_start.env.shared_mem.participants ≡ s.env.shared_mem.participants =
        update_keeps hooks running (some p) (λ t. t.env.shared_mem.participants) refl refl in
      rw (f, l) refl

  -- The state in which the callback waits for the participant.
  abbrev turn_given : CtlSched
  turn_given =
      with_mem
        (call_ptc turn_start
          (sched_cont p (sent_sections message (message.participant p).is_outdated)))
        given_mem

  -- What it finds afterwards.
  abbrev waiting_again : List PtcCall → MemState → CtlSched
  waiting_again rest refreshed =
      with_mem (record turn_given { env = record (turn_given.env) { ptc_calls = rest } })
        (set_participant refreshed p (record (refreshed.participant p) { is_waiting = true }))

  wait_handled :
      (rest : List PtcCall) (handled refreshed : MemState)
      → shared_mem_handle_msg given_mem incoming false ≡ ok handled
      → update_local_view handled ≡ ok refreshed
      → ctl_wait hooks p (sched_wait p incoming ∷ rest) turn_given
        ≡ ok (waiting_again rest refreshed)
  unfolding handle_ptc_call handle_sched_wait
  wait_handled rest handled refreshed h v =
      not_yet p hooks (sched_wait p incoming) rest turn_given given_waits
      ∙ rw (h, v)
          (wait_done p hooks rest (waiting_again rest refreshed) (
            set_here p (λ q. q.is_waiting) (record (refreshed.participant p) { is_waiting = true })
              (refreshed.participant p)))

  same_view : (m : MemState) → m.local_outdated ≡ false → update_local_view m ≡ ok m
  unfolding update_local_view
  same_view m o = rw o refl

  -- The callback of a participant's job, with the controller's view of the memory up to date. The
  -- participant is sent all sections of the message if its view was outdated, or if one of them has
  -- changed and it is among the controller's participants, and none if not. The next call that
  -- arrives is the participant's, which waits, with a message that the controller can take over:
  -- then the callback returns, the participant waits and counts as up to date, even if its message
  -- marks others as outdated, the controller's view is the new one, and the calls behind it are
  -- still to be handled.
  pub sched_callback-TurnOver :
      (rest : List PtcCall) (handled refreshed : MemState)
      → s.env.shared_mem.local_outdated ≡ false
      → update_msg s.env.shared_mem.msg_sections s.env.shared_mem.local_sections ≡ ok (msg, changed)
      → s.env.ptc_calls ≡ sched_wait p incoming ∷ rest
      → shared_mem_handle_msg given_mem incoming false ≡ ok handled
      → update_local_view handled ≡ ok refreshed
      → Returns (sched_callback hooks p s) (TurnOver rest refreshed)
  unfolding sched_callback
  sched_callback-TurnOver rest handled refreshed o e c h v =
      let l : turn_start.env.shared_mem.local_outdated ≡ false =
        update_keeps hooks running (some p) (λ t. t.env.shared_mem.local_outdated) refl refl ∙ o in
      let g : turn_start.env.shared_mem.msg_sections ≡ s.env.shared_mem.msg_sections =
        update_keeps hooks running (some p) (λ t. t.env.shared_mem.msg_sections) refl refl in
      let n : turn_start.env.shared_mem.local_sections ≡ s.env.shared_mem.local_sections =
        update_keeps hooks running (some p) (λ t. t.env.shared_mem.local_sections) refl refl in
      let q : turn_start.env.ptc_calls ≡ sched_wait p incoming ∷ rest =
        update_keeps hooks running (some p) (λ t. t.env.ptc_calls) refl refl ∙ c in
      let m : update_msg turn_start.env.shared_mem.msg_sections
            turn_start.env.shared_mem.local_sections
          ≡ ok (msg, changed) =
        rw (g, n) e in
      let a = prepared_lem turn_start.env.shared_mem msg changed (ap not l) m in
      let w : ctl_wait hooks p turn_start.env.ptc_calls turn_given
          ≡ ok (waiting_again rest refreshed) =
        ap (λ calls. ctl_wait hooks p calls turn_given) q
        ∙ wait_handled rest handled refreshed h v in
      let u = update_local_view_lem handled refreshed v in
      let again = waiting_again rest refreshed in
      rw (a, w, same_view again.env.shared_mem u.1)
        (record {
          again =
              set_here p (λ x. x.is_waiting)
                (record (refreshed.participant p) { is_waiting = true }) (refreshed.participant p);
          up_to_date =
              set_here p (λ x. x.is_outdated)
                (record (refreshed.participant p) { is_waiting = true }) (refreshed.participant p)
              ∙ (ap (λ (f : ℕ → Participant). (f p).is_outdated) u.0
                  ∙ (shared_mem_handle_msg-running given_mem handled incoming p given_waits h
                      ∙ set_here p (λ x. x.is_outdated)
                          (record (message.participant p) { is_outdated = false })
                          (message.participant p)));
          own_view = refl;
          own_up_to_date = u.1;
          last_call =
              ap (λ sections. turn_start.env.ctl_calls ++ sched_cont p sections ∷ [])
                (sent_sections-prepared turn_start.env.shared_mem p msg changed ∙ needed-start);
          unhandled = refl;
        })
