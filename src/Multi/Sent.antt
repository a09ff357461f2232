-- ===== src/Multi/Sent.antt =====
-- src/multi-ctl.c and src/multi-shared-mem.c: what the controller sends when it lets a participant run.
use usfstl.Base.{
  ℕ, ◌≡◌, refl, ap, ◌∙◌, inl, inr, Bool, true, false, ◌||◌, ◌&&◌, not, Option, List, [], arith, mem,
  ◌==◌, ==→eq, Bool-cases, if◌then◌else◌, ok,
}
use usfstl.Sched.{Hooks}
use usfstl.Sched.Advance.{get_sync_time}
use usfstl.Multi.SharedMem.{
  MemSection, Participant, MemState, sent_sections, mark_outdated, update_msg, prepare_msg,
}
use usfstl.Multi.{
  Ctl, CtlSched, set_sync, local_participant, ptc_at, set_ptc, call_ptc, updated_participant,
  update_sync_time,
}
use usfstl.Multi.Flags.{by_branch, mark_outdated_flag, mark_outdated_sections}

-- The message that is prepared, with its sections and whether they have changed.
abbrev pub prepared : MemState → List MemSection → Bool → MemState
prepared m msg changed =
    let t = record m { msg_sections = msg } in
    if changed
    then record (mark_outdated (λ q. true) m.participants t) { shared_mem_dirty = true }
    else t

pub prepared_lem :
    (m : MemState) (msg : List MemSection) (changed : Bool)
    → not m.local_outdated ≡ true
    → update_msg m.msg_sections m.local_sections ≡ ok (msg, changed)
    → prepare_msg m ≡ ok (prepared m msg changed)
unfolding prepare_msg
prepared_lem m msg changed o e = rw (o, e) refl

-- All sections, if the participant's view was outdated or something has changed for all of them.
abbrev pub needed : MemState → ℕ → List MemSection → Bool → List MemSection
needed m p msg changed =
    if (m.participant p).is_outdated || (changed && mem p m.participants) then msg else []

pub sent_sections-prepared :
    (m : MemState) (p : ℕ) (msg : List MemSection) (changed : Bool)
    → sent_sections (prepared m msg changed) ((prepared m msg changed).participant p).is_outdated
      ≡ needed m p msg changed
sent_sections-prepared m p msg true =
    let t = record m { msg_sections = msg } in
    let f = mark_outdated_flag m.participants t p in
    let c = mark_outdated_sections (λ q. true) m.participants t in rw (f, c) refl
sent_sections-prepared m p msg false =
    let z : ((m.participant p).is_outdated || false) ≡ (m.participant p).is_outdated =
      ground arith in
    rw z refl

-- What update_sync_time leaves alone.
module _ (hooks : Hooks Ctl) (s : CtlSched) (update : Option ℕ) where
  abbrev to_run : CtlSched
  to_run = record s {
    env = record (s.env) { running_participant = updated_participant hooks s update };
  }

  abbrev told : CtlSched
  told =
      let u = updated_participant hooks s update in
      let sync = get_sync_time hooks s in
      set_ptc (call_ptc to_run (set_sync u sync)) u
        (record (ptc_at s u) { sync_set = true; sync = sync })

  pub update_keeps :
      {B : Type 0} (f : CtlSched → B)
      → f to_run ≡ f s
      → f told ≡ f s
      → f (update_sync_time hooks s update) ≡ f s
  unfolding update_sync_time
  update_keeps f h k =
      let u = updated_participant hooks s update in
      let sync = get_sync_time hooks s in
      let known = ((ptc_at s u).sync_set && (ptc_at s u).sync == sync) || u == local_participant in
      by_branch f s.env.ctrl_disable_sync s (if known then to_run else told) (f s) refl
        (by_branch f known to_run told (f s) h k)

  pub update_flag :
      (f : Participant → Bool) (p : ℕ)
      → (let u = updated_participant hooks s update in
          f (record (ptc_at s u) { sync_set = true; sync = get_sync_time hooks s })
          ≡ f (ptc_at s u))
      → f (ptc_at (update_sync_time hooks s update) p) ≡ f (ptc_at s p)
  update_flag f p h =
      let u = updated_participant hooks s update in
      let v : Participant = record (ptc_at s u) { sync_set = true; sync = get_sync_time hooks s } in
      let picked : f (if u == p then v else ptc_at s p) ≡ f (ptc_at s p) =
        elim (Bool-cases (u == p)) [
          | inl e ↦ rw e (h ∙ ap (λ i. f (ptc_at s i)) (==→eq u p e))
          | inr e ↦ rw e refl
        ] in
      update_keeps (λ t. f (ptc_at t p)) refl picked
