-- ===== src/Multi/Wait.antt =====
-- src/multi-shared-mem.c: what the message of a participant that stops running does to the flags.
use usfstl.Base.{
  ℕ, ◌≡◌, refl, sym, ap, ◌∙◌, inl, inr, Bool, true, false, not, List, [], ◌∷◌, ◌==◌, ==→eq,
  Bool-cases, if◌then◌else◌, Result, ok, abort, ◌>>=◌,
}
use usfstl.Multi.SharedMem.{
  MemSection, MemState, set_participant, mark_outdated, merge_msg, refresh, shared_mem_handle_msg,
  update_local_view,
}
use usfstl.Multi.Flags.{by_branch, waits, waits-set_participant}

bind_ok :
    {A B : Type 0} (r : Result A) (k : A → Result B) (b : B)
    → (r >>= k) ≡ ok b
    → (a : A) × (r ≡ ok a) × (k a ≡ ok b)
bind_ok (ok a) k b h = (a, refl, h)
bind_ok (abort x) k b h = let no : abort x ≡ ok b = h in cc

ok_inj : (a b : MemState) → ok a ≡ ok b → a ≡ b
ok_inj a b h = cc

-- A participant that does not wait is not marked by the message that it sends.
mark_outdated_running :
    (js : List ℕ) (m : MemState) (p : ℕ)
    → waits p m ≡ false
    → ((mark_outdated (λ q. q.is_waiting) js m).participant p).is_outdated
      ≡ (m.participant p).is_outdated
unfolding mark_outdated
mark_outdated_running [] m p w = refl
mark_outdated_running (j ∷ js) m p w =
    let q = m.participant j in
    let x = set_participant m j (record q { is_outdated = true }) in
    let y = if q.is_waiting then x else m in
    let kept : waits p y ≡ false =
      by_branch (waits p) q.is_waiting x m (waits p m)
        (waits-set_participant m j p (record q { is_outdated = true }) refl) refl
      ∙ w in
    let same : (y.participant p).is_outdated ≡ (m.participant p).is_outdated =
      elim (Bool-cases (j == p)) [
        | inl e ↦ let n : q.is_waiting ≡ false = ap (λ i. waits i m) (==→eq j p e) ∙ w in rw n refl
        | inr e ↦
            by_branch (λ (n : MemState). (n.participant p).is_outdated) q.is_waiting x m _
              (rw e refl) refl
      ] in
    mark_outdated_running js y p kept ∙ same

pub shared_mem_handle_msg-running :
    (m t : MemState) (incoming : List MemSection) (p : ℕ)
    → waits p m ≡ false
    → shared_mem_handle_msg m incoming false ≡ ok t
    → (t.participant p).is_outdated ≡ (m.participant p).is_outdated
unfolding shared_mem_handle_msg
shared_mem_handle_msg-running m t [] p w h = let e : ok m ≡ ok t = h in cc
shared_mem_handle_msg-running m t (s ∷ incoming) p w h = elim (Bool-cases m.has_test) [
  | inr n ↦
      let e = rw n at h in sym (ap (λ (x : MemState). (x.participant p).is_outdated) (ok_inj _ t e))
  | inl n ↦
      let k = rw n at h in
      let (r, a, b) = bind_ok (merge_msg m.local_sections m.msg_sections (s ∷ incoming)) _ t k in
      let e = ap (λ (x : MemState). (x.participant p).is_outdated) (ok_inj _ t b) in
      sym e ∙ mark_outdated_running m.participants (record m { has_test = true }) p w
]

view_if :
    (m t : MemState) (b : Bool)
    → m.local_outdated ≡ b
    → (if not b
        then ok m
        else (refresh m.local_sections m.msg_sections >>= λ x.
            ok (record m { local_sections = x; local_outdated = false })))
      ≡ ok t
    → (t.participant ≡ m.participant) × (t.local_outdated ≡ false)
view_if m t false n h =
    let e = ok_inj m t h in
    (
      ap (λ (x : MemState). x.participant) (sym e),
      ap (λ (x : MemState). x.local_outdated) (sym e) ∙ n,
    )
view_if m t true n h =
    let (r, a, b) = bind_ok (refresh m.local_sections m.msg_sections) _ t h in
    let e = ok_inj _ t b in
    (ap (λ (x : MemState). x.participant) (sym e), ap (λ (x : MemState). x.local_outdated) (sym e))

-- The local view is up to date afterwards, and the participants are as they were.
pub update_local_view_lem :
    (m t : MemState)
    → update_local_view m ≡ ok t
    → (t.participant ≡ m.participant) × (t.local_outdated ≡ false)
unfolding update_local_view
update_local_view_lem m t h = view_if m t m.local_outdated refl h
