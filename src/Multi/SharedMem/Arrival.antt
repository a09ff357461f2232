-- ===== src/Multi/SharedMem/Arrival.antt =====
-- src/multi-shared-mem.c: what a participant writes into a shared section is what another one sees.
use usfstl.Base.{
  ℕ, ◌≡◌, refl, ap, ◌∙◌, inl, inr, arith, Bool, true, false, not, some, List, [], ◌∷◌, All, length,
  if◌then◌else◌, Bool-cases, Option-cases, Returns, ◌>>=◌,
}
use usfstl.Sched.Quiet.{Returns-bind, Returns-mono}
use usfstl.Rpc.Wire.{same_bytes}
use usfstl.Multi.SharedMem.{
  MemSection, Participant, MemState, find_section, merge_msg, update_msg, refresh_section, refresh,
  mark_outdated, set_participant, sent_sections, shared_mem_handle_msg, update_local_view,
  prepare_msg,
}
use usfstl.Multi.SharedMem.Views.{
  or_else, DistinctNames, Sized, length_found, IsMessage, Put, fill_section-Put,
}
use usfstl.Multi.SharedMem.Sharing.{
  IsFresh, Overlaid, not_found_name, cons_view, equal_lengths, update_msg-Overlaid,
  merge_msg-Merged,
}

module _ (size : List ℕ → ℕ) where
  -- The sections that a program has, with the bytes that the message has for them.
  record Refreshed (locals msg ts : List MemSection) : Type 0 where
    pub message : IsMessage size ts
    pub view :
        (k own : List ℕ)
        → find_section locals k ≡ some own
        → find_section ts k ≡ or_else (find_section msg k) (find_section locals k)

  refresh_section-Put :
      (locals : List MemSection) (s : MemSection) (own : List ℕ)
      → IsMessage size locals
      → length s.buf ≡ size s.section_name
      → find_section locals s.section_name ≡ some own
      → Returns (refresh_section locals s) (λ r. Put size locals s.section_name s.buf r)
  unfolding refresh_section
  refresh_section-Put locals s own m h e =
      let q =
        equal_lengths (length own) (length s.buf) (size s.section_name)
          (length_found size locals s.section_name own m.sized e) h in
      rw (e, refresh_section, q) (fill_section-Put size locals s.section_name s.buf own m h e)

  still_found :
      (ss ts : List MemSection) (n v k own : List ℕ)
      → Put size ss n v ts
      → find_section ss k ≡ some own
      → (b : List ℕ) × (find_section ts k ≡ some b)
  still_found ss ts n v k own p e = elim (Bool-cases (same_bytes n k)) [
    | inl f ↦ (v, p.view k ∙ rw f refl)
    | inr f ↦ (own, p.view k ∙ rw f e)
  ]

  refresh-Refreshed :
      (locals msg : List MemSection)
      → IsMessage size locals
      → DistinctNames msg
      → Sized size msg
      → Returns (refresh locals msg) (λ t. Refreshed locals msg t)
  unfolding refresh find_section refresh_section
  refresh-Refreshed locals [] m d h = record { message = m; view = λ k own e. refl }
  refresh-Refreshed locals (s ∷ msg) m d h =
      elim (Option-cases (find_section locals s.section_name)) [
        | inl e ↦
            rw (e, refresh_section)
              (Returns-mono (refresh locals msg) _ _ (refresh-Refreshed locals msg m d.1 h.1)
                (λ t o. record {
                  message = o.message;
                  view = λ k own f.
                      rw (not_found_name locals s.section_name k own e f) (o.view k own f);
                }))
        | inr (own, e) ↦
            Returns-bind (refresh_section locals s) _ _ _ (refresh_section-Put locals s own m h.0 e)
              (λ r p.
                Returns-mono (refresh r msg) _ _ (refresh-Refreshed r msg p.message d.1 h.1) (λ t o.
                  record {
                    message = o.message;
                    view = λ k own' f.
                        let b = still_found locals r s.section_name s.buf k own' p f in
                        o.view k b.0 b.1 ∙ cons_view size locals r msg s d.0 p k;
                  }))
      ]

  -- The flags of participants are not the sections.
  same_sections :
      (c : Bool) (x y : MemState)
      → x.msg_sections ≡ y.msg_sections
      → x.local_sections ≡ y.local_sections
      → ((if c then x else y).msg_sections ≡ y.msg_sections)
        × ((if c then x else y).local_sections ≡ y.local_sections)
  same_sections true x y h k = (h, k)
  same_sections false x y h k = (refl, refl)

  mark_outdated_sections :
      (test : Participant → Bool) (js : List ℕ) (m : MemState)
      → ((mark_outdated test js m).msg_sections ≡ m.msg_sections)
        × ((mark_outdated test js m).local_sections ≡ m.local_sections)
  unfolding mark_outdated
  mark_outdated_sections test [] m = (refl, refl)
  mark_outdated_sections test (j ∷ js) m =
      let p = m.participant j in
      let x = set_participant m j (record p { is_outdated = true }) in
      let ih = mark_outdated_sections test js (if test p then x else m) in
      let here = same_sections (test p) x m refl refl in (ih.0 ∙ here.0, ih.1 ∙ here.1)

  prepare_msg-Overlaid :
      (a : MemState)
      → IsMessage size a.local_sections
      → IsMessage size a.msg_sections
      → All (IsFresh size a.msg_sections) a.local_sections
      → a.local_outdated ≡ false
      → Returns
          (prepare_msg a)
          (λ a'. Overlaid size a.msg_sections a.local_sections a'.msg_sections)
  unfolding prepare_msg
  prepare_msg-Overlaid a l m z o =
      let c : not a.local_outdated ≡ true = ap not o in
      rw c (
        Returns-bind (update_msg a.msg_sections a.local_sections) _ _ _
          (update_msg-Overlaid size a.msg_sections a.local_sections m l.distinct l.sized z)
          (λ r k. elim (Bool-cases r.1) [
            | inl e ↦
                rw
                  (
                    e,
                    (mark_outdated_sections (λ p. true) a.participants
                        (record a { msg_sections = r.0 })).0,
                  )
                  k
            | inr e ↦ rw e k
          ]))

  shared_mem_handle_msg-Merged :
      (b : MemState) (news : List MemSection) (keep : Bool) (k own buf : List ℕ)
      → IsMessage size b.local_sections
      → IsMessage size b.msg_sections
      → IsMessage size news
      → b.has_test ≡ true
      → find_section b.local_sections k ≡ some own
      → find_section news k ≡ some buf
      → Returns (shared_mem_handle_msg b news keep) (λ t.
        (t.local_outdated ≡ true)
        × (t.local_sections ≡ b.local_sections)
        × IsMessage size t.msg_sections
        × (find_section t.msg_sections k ≡ some buf))
  unfolding shared_mem_handle_msg find_section
  shared_mem_handle_msg-Merged b [] keep k own buf l m n t e f =
      let no : ⊥ = ground arith in absurd no
  shared_mem_handle_msg-Merged b (s ∷ news) keep k own buf l m n t e f =
      let c : not b.has_test ≡ false = ap not t in
      let marked = mark_outdated (λ p. p.is_waiting) b.participants b in
      let here = same_sections keep marked (record marked { shared_mem_dirty = true }) refl refl in
      rw c (
        Returns-bind (merge_msg b.local_sections b.msg_sections (s ∷ news)) _ _ _
          (merge_msg-Merged size b.local_sections b.msg_sections (s ∷ news) m l.sized n.distinct
            n.sized)
          (λ r o. (
            rw (o.flag k own buf e f) refl,
            here.1 ∙ (mark_outdated_sections (λ p. p.is_waiting) b.participants b).1,
            o.message,
            o.view k own e ∙ rw f refl,
          )))

  update_local_view-Refreshed :
      (t : MemState) (k own buf : List ℕ)
      → t.local_outdated ≡ true
      → IsMessage size t.local_sections
      → IsMessage size t.msg_sections
      → find_section t.local_sections k ≡ some own
      → find_section t.msg_sections k ≡ some buf
      → Returns
          (update_local_view t)
          (λ u. (find_section u.local_sections k ≡ some buf) × (u.local_outdated ≡ false))
  unfolding update_local_view
  update_local_view-Refreshed t k own buf o l m e f =
      let c : not t.local_outdated ≡ false = ap not o in
      rw c (
        Returns-bind (refresh t.local_sections t.msg_sections) _ _ _
          (refresh-Refreshed t.local_sections t.msg_sections l m.distinct m.sized)
          (λ u r. (r.view k own e ∙ rw f refl, refl)))

  -- Two participants have a section of the name `k`. When the first one prepares its message and the
  -- second one, in a test, handles all of it and refreshes its view, the memory of the second has the
  -- bytes of the first. The sections of either and those of their messages have different names, all
  -- sections of one name have one size, and what is not yet in the message of the first is zeroed.
  pub update_local_view-prepare_msg :
      (a b : MemState) (keep : Bool) (k own buf : List ℕ)
      → IsMessage size a.local_sections
      → IsMessage size a.msg_sections
      → IsMessage size b.local_sections
      → IsMessage size b.msg_sections
      → All (IsFresh size a.msg_sections) a.local_sections
      → a.local_outdated ≡ false
      → b.has_test ≡ true
      → find_section a.local_sections k ≡ some buf
      → find_section b.local_sections k ≡ some own
      → Returns (prepare_msg a) (λ a'.
        Returns
          (shared_mem_handle_msg b (sent_sections a' true) keep >>= update_local_view)
          (λ b'. (find_section b'.local_sections k ≡ some buf) × (b'.local_outdated ≡ false)))
  update_local_view-prepare_msg a b keep k own buf al am bl bm z o t e f =
      Returns-mono (prepare_msg a) _ _ (prepare_msg-Overlaid a al am z o) (λ a' v.
        let found = v.view k ∙ rw e refl in
        Returns-bind (shared_mem_handle_msg b a'.msg_sections keep) update_local_view _ _
          (shared_mem_handle_msg-Merged b a'.msg_sections keep k own buf bl bm v.message t f found)
          (λ u r. update_local_view-Refreshed u k own buf r.0 (rw r.1 bl) r.2 (rw r.1 f) r.3))
