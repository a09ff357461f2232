-- ===== src/Multi/Tests.antt =====
-- Two programs that share the section "A", of two bytes.
use usfstl.Base.{
  ℕ, ◌+◌, ◌≡◌, refl, arith, true, false, none, some, List, [], ◌∷◌, All, length, Result, ok, abort,
  Returns, ◌>>=◌,
}
use usfstl.Sched.{Sched, Hooks}
use usfstl.Sched.Advance.{get_sync_time}
use usfstl.Sched.Advance.Loop.{standalone}
use usfstl.Multi.SharedMem.{
  MemSection, Participant, MemState, fill_section, merge_msg, merge_remote_section, mark_outdated,
  refresh, refresh_section, find_section, find_msg_section, update_msg, merge_local_section,
  sent_sections, prepare_msg, shared_mem_handle_msg, update_local_view,
}
use usfstl.Multi.SharedMem.Views.{IsMessage}
use usfstl.Multi.SharedMem.Sharing.{IsFresh}
use usfstl.Multi.SharedMem.Arrival.{update_local_view-prepare_msg}
use usfstl.Multi.{Ctl, CtlSched, sched_wait, sched_request, update_sync_time, sched_callback}
use usfstl.Multi.PtcSide.{PtcSched, ext_req, send_wait}
use usfstl.Multi.Requests.{IsKnown, latest_request, ext_reqs, send_wait-ext_req}
use usfstl.Multi.Told.{IsTold, latest_sync, update_sync_time-IsTold}
use usfstl.Multi.Turn.{TurnOver, given_mem, sched_callback-TurnOver}

abbrev size : List ℕ → ℕ
size name = 2

abbrev section_a : List ℕ → MemSection
section_a bytes = record { section_name = 65 ∷ []; buf = bytes }

abbrev idle : Participant
idle = record { is_waiting = true; is_outdated = false; sync_set = false; sync = 0 }

abbrev mem_with : List ℕ → List ℕ → MemState
mem_with own bytes = record {
  local_sections = section_a own ∷ [];
  msg_sections = section_a bytes ∷ [];
  shared_mem_dirty = false;
  local_outdated = false;
  has_test = true;
  participants = 1 ∷ 2 ∷ [];
  participant = λ i. idle;
}

section-IsMessage : (bytes : List ℕ) → length bytes ≡ 2 → IsMessage size (section_a bytes ∷ [])
unfolding find_section
section-IsMessage bytes h = record { distinct = (refl, tt); sized = (h, tt) }

section_a-IsFresh : All (IsFresh size (section_a (0 ∷ 0 ∷ []) ∷ [])) (section_a (7 ∷ 8 ∷ []) ∷ [])
unfolding find_section
section_a-IsFresh = ((λ e. let no : ⊥ = ground arith in absurd no), tt)

found : (bytes : List ℕ) → find_section (section_a bytes ∷ []) (65 ∷ []) ≡ some bytes
unfolding find_section
found bytes = refl

update_local_view-prepare_msg_example :
    Returns (prepare_msg (mem_with (7 ∷ 8 ∷ []) (0 ∷ 0 ∷ []))) (λ a'.
      Returns
        (shared_mem_handle_msg (mem_with (0 ∷ 0 ∷ []) (0 ∷ 0 ∷ [])) (sent_sections a' true) false
          >>= update_local_view)
        (λ b'.
          (find_section b'.local_sections (65 ∷ []) ≡ some (7 ∷ 8 ∷ []))
          × (b'.local_outdated ≡ false)))
update_local_view-prepare_msg_example =
    update_local_view-prepare_msg size (mem_with (7 ∷ 8 ∷ []) (0 ∷ 0 ∷ []))
      (mem_with (0 ∷ 0 ∷ []) (0 ∷ 0 ∷ [])) false (65 ∷ []) (0 ∷ 0 ∷ []) (7 ∷ 8 ∷ [])
      (section-IsMessage (7 ∷ 8 ∷ []) refl) (section-IsMessage (0 ∷ 0 ∷ []) refl)
      (section-IsMessage (0 ∷ 0 ∷ []) refl) (section-IsMessage (0 ∷ 0 ∷ []) refl) section_a-IsFresh
      refl refl (found (7 ∷ 8 ∷ [])) (found (0 ∷ 0 ∷ []))

abbrev sched_with : {E : Type 0} → E → Sched E
sched_with e = record {
  current_time = 10;
  prev_external_sync = 0;
  next_external_sync = 0;
  joblist = 1 ∷ 2 ∷ [];
  pending_jobs = [];
  allowed_job = none;
  blocked_groups = 0;
  next_external_sync_set = false;
  prev_external_sync_set = false;
  waiting = false;
  jobs = λ j. record { start = 15 + j; priority = 0; group = 0; blocked = false; pending = false };
  env = e;
}

abbrev unchanged : MemState
unchanged = mem_with (7 ∷ 8 ∷ []) (7 ∷ 8 ∷ [])

prepare_unchanged : prepare_msg unchanged ≡ ok unchanged
unfolding prepare_msg update_msg merge_local_section find_msg_section find_section
prepare_unchanged = refl

-- The participant has its turn, and nothing has been requested yet.
abbrev ptc : PtcSched
ptc = sched_with (record {
  sched_continue = true;
  time = 0;
  time_valid = false;
  pending = false;
  own_mem = unchanged;
  arriving = [];
  made = [];
})

send_wait-ext_req_example :
    Returns (send_wait 1 (ext_req 1 (ext_reqs 1 ptc (20 ∷ 30 ∷ [])) 25).0) (λ t.
      (latest_request t.env.made none ≡ some 25) × IsKnown t.env × (t.env.sched_continue ≡ false))
send_wait-ext_req_example =
    send_wait-ext_req 1 ptc (20 ∷ 30 ∷ []) 25 unchanged
      (λ v p. let no : ⊥ = ground arith in absurd no) prepare_unchanged

abbrev hooks : Hooks Ctl
hooks = standalone (λ j s. ok s)

abbrev ctl : CtlSched
ctl = sched_with (record {
  shared_mem = unchanged;
  running_participant = 0;
  ctrl_disable_sync = false;
  ptc_calls = sched_wait 1 [] ∷ sched_request 2 40 ∷ [];
  ctl_calls = [];
})

update_sync_time-IsTold_example :
    IsTold (update_sync_time hooks ctl (some 1))
    × (latest_sync 1 (update_sync_time hooks ctl (some 1)).env.ctl_calls none
        ≡ some (get_sync_time hooks ctl))
update_sync_time-IsTold_example =
    update_sync_time-IsTold hooks ctl (some 1) refl refl
      (λ p v. let no : ⊥ = ground arith in absurd no)

-- The controller has changed the section, and the participant changes it again in its turn.
abbrev ctl_changed : CtlSched
ctl_changed = record ctl {
  env = record (ctl.env) {
    shared_mem = mem_with (5 ∷ 6 ∷ []) (7 ∷ 8 ∷ []);
    ptc_calls = sched_wait 1 (section_a (9 ∷ 9 ∷ []) ∷ []) ∷ sched_request 2 40 ∷ [];
  };
}

abbrev value : Result MemState → MemState
value (ok m) = m
value (abort e) = unchanged

abbrev demo_given : MemState
demo_given =
    given_mem hooks ctl_changed 1 (section_a (5 ∷ 6 ∷ []) ∷ []) (section_a (9 ∷ 9 ∷ []) ∷ []) true

abbrev demo_handled : MemState
demo_handled = value (shared_mem_handle_msg demo_given (section_a (9 ∷ 9 ∷ []) ∷ []) false)

abbrev demo_refreshed : MemState
demo_refreshed = value (update_local_view demo_handled)

turn_update :
    update_msg (section_a (7 ∷ 8 ∷ []) ∷ []) (section_a (5 ∷ 6 ∷ []) ∷ [])
    ≡ ok (section_a (5 ∷ 6 ∷ []) ∷ [], true)
unfolding update_msg merge_local_section find_msg_section find_section fill_section
turn_update = refl

turn_handled :
    shared_mem_handle_msg demo_given (section_a (9 ∷ 9 ∷ []) ∷ []) false ≡ ok demo_handled
unfolding update_sync_time shared_mem_handle_msg merge_msg merge_remote_section find_msg_section
    find_section fill_section mark_outdated
turn_handled = refl

turn_refreshed : update_local_view demo_handled ≡ ok demo_refreshed
unfolding update_sync_time shared_mem_handle_msg merge_msg merge_remote_section find_msg_section
    find_section fill_section mark_outdated update_local_view refresh refresh_section
turn_refreshed = refl

sched_callback-TurnOver_example : Returns (sched_callback hooks 1 ctl_changed) (
    TurnOver hooks ctl_changed 1
      (section_a (5 ∷ 6 ∷ []) ∷ [])
      (section_a (9 ∷ 9 ∷ []) ∷ [])
      true
      (sched_request 2 40 ∷ [])
      demo_refreshed)
sched_callback-TurnOver_example =
    sched_callback-TurnOver hooks ctl_changed 1 (section_a (5 ∷ 6 ∷ []) ∷ [])
      (section_a (9 ∷ 9 ∷ []) ∷ []) true (sched_request 2 40 ∷ []) demo_handled demo_refreshed refl
      turn_update refl turn_handled turn_refreshed
