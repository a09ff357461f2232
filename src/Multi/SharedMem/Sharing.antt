-- ===== src/Multi/SharedMem/Sharing.antt =====
-- src/multi-shared-mem.c: what one participant writes into a shared section is what another one sees,
-- once the message of the first has been handled.
use usfstl.Base.{
  ℕ, ◌≡◌, refl, sym, ap, ◌∙◌, inl, inr, arith, Bool, true, false, none, some, List, [], ◌∷◌, All,
  All-map, length, ◌==◌, Bool-cases, Option-cases, ok, Returns,
}
use usfstl.Sched.Quiet.{Returns-bind}
use usfstl.Rpc.Wire.{same_bytes}
use usfstl.Rpc.Call.{zeroes}
use usfstl.Multi.SharedMem.{
  MemSection, find_section, find_msg_section, merge_local_section, merge_remote_section, merge_msg,
  update_msg,
}
use usfstl.Multi.SharedMem.Views.{
  or_else, DistinctNames, Sized, length_found, IsMessage, Put, fill_section-Put,
  add_msg_section-Put, same-Put, same_bytes→eq,
}

pub equal_lengths : (a b n : ℕ) → a ≡ n → b ≡ n → (a == b) ≡ true
equal_lengths a b n h k = ground arith

-- Names of which one finds a section and the other does not are different.
pub not_found_name :
    (ss : List MemSection) (n k own : List ℕ)
    → find_section ss n ≡ none
    → find_section ss k ≡ some own
    → same_bytes n k ≡ false
not_found_name ss n k own h f = elim (Bool-cases (same_bytes n k)) [
  | inl e ↦
      let no : none ≡ some own = sym (ap (find_section ss) (sym (same_bytes→eq n k e)) ∙ h) ∙ f in
      absurd (ground arith)
  | inr e ↦ e
]

module _ (size : List ℕ → ℕ) where
  found_lem :
      (msg : List MemSection) (s : MemSection)
      → IsMessage size msg
      → length s.buf ≡ size s.section_name
      → find_msg_section msg s.section_name (length s.buf) ≡ ok (find_section msg s.section_name)
  unfolding find_msg_section
  found_lem msg s m h = elim (Option-cases (find_section msg s.section_name)) [
    | inl e ↦ rw (e, find_msg_section) refl
    | inr (b, e) ↦
        let l = length_found size msg s.section_name b m.sized e in
        rw (e, find_msg_section, equal_lengths (length b) (length s.buf) (size s.section_name) l h)
          refl
  ]

  -- A section that is new in the message is still zeroed.
  abbrev pub IsFresh : List MemSection → MemSection → Type 0
  IsFresh msg s =
      find_section msg s.section_name ≡ none → same_bytes (zeroes (length s.buf)) s.buf ≡ true

  merge_local_section-Put :
      (msg : List MemSection) (s : MemSection)
      → IsMessage size msg
      → length s.buf ≡ size s.section_name
      → IsFresh msg s
      → Returns (merge_local_section msg s) (λ r. Put size msg s.section_name s.buf r.0)
  unfolding merge_local_section
  merge_local_section-Put msg s m h z = elim (Option-cases (find_section msg s.section_name)) [
    | inl e ↦
        let q = same_bytes→eq (zeroes (length s.buf)) s.buf (z e) in
        rw (found_lem msg s m h, e, z e)
          (rw q (add_msg_section-Put size msg s.section_name s.buf m h e))
    | inr (b, e) ↦ elim (Bool-cases (same_bytes b s.buf)) [
      | inl f ↦
          rw (found_lem msg s m h, e, f)
            (same-Put size msg s.section_name s.buf m (e ∙ ap some (same_bytes→eq b s.buf f)))
      | inr f ↦
          rw (found_lem msg s m h, e, f) (fill_section-Put size msg s.section_name s.buf b m h e)
    ]
  ]

  -- The sections `ts` are `ss`, with those of `news` instead of the ones of their names.
  pub record Overlaid (ss news ts : List MemSection) : Type 0 where
    pub message : IsMessage size ts
    pub view : (k : List ℕ) → find_section ts k ≡ or_else (find_section news k) (find_section ss k)

  pub cons_view :
      (ss ms news : List MemSection) (s : MemSection)
      → find_section news s.section_name ≡ none
      → Put size ss s.section_name s.buf ms
      → (k : List ℕ)
      → or_else (find_section news k) (find_section ms k)
        ≡ or_else (find_section (s ∷ news) k) (find_section ss k)
  unfolding find_section
  cons_view ss ms news s d p k = elim (Bool-cases (same_bytes s.section_name k)) [
    | inl e ↦
        let n : find_section news k ≡ none =
          ap (find_section news) (sym (same_bytes→eq s.section_name k e)) ∙ d in
        rw (n, p.view k, e) refl
    | inr e ↦ rw (p.view k, e) refl
  ]

  Overlaid-cons :
      (ss ms ts news : List MemSection) (s : MemSection)
      → find_section news s.section_name ≡ none
      → Put size ss s.section_name s.buf ms
      → Overlaid ms news ts
      → Overlaid ss (s ∷ news) ts
  Overlaid-cons ss ms ts news s d p o = record {
    message = o.message;
    view = λ k. o.view k ∙ cons_view ss ms news s d p k;
  }

  IsFresh-Put :
      (ss ms : List MemSection) (s t : MemSection)
      → Put size ss s.section_name s.buf ms
      → IsFresh ss t
      → IsFresh ms t
  IsFresh-Put ss ms s t p z n =
      let v = p.view t.section_name in
      elim (Bool-cases (same_bytes s.section_name t.section_name)) [
        | inl e ↦
            let no : some s.buf ≡ none = (sym (v ∙ rw e refl)) ∙ n in
            let no' : ⊥ = ground arith in absurd no'
        | inr e ↦ z (sym (v ∙ rw e refl) ∙ n)
      ]

  pub update_msg-Overlaid :
      (msg locals : List MemSection)
      → IsMessage size msg
      → DistinctNames locals
      → Sized size locals
      → All (IsFresh msg) locals
      → Returns (update_msg msg locals) (λ r. Overlaid msg locals r.0)
  unfolding update_msg find_section
  update_msg-Overlaid msg [] m d h z = record { message = m; view = λ k. refl }
  update_msg-Overlaid msg (s ∷ locals) m d h z =
      Returns-bind (merge_local_section msg s) _ _ _ (merge_local_section-Put msg s m h.0 z.0)
        (λ r p.
          Returns-bind (update_msg r.0 locals) _ _ _
            (update_msg-Overlaid r.0 locals p.message d.1 h.1
              (All-map _ _ locals (λ t. IsFresh-Put msg r.0 s t p) z.1))
            (λ t o. Overlaid-cons msg r.0 t.0 locals s d.0 p o))

  -- The sections `ts` are `ss` with those of `news` that the program has, too.
  pub record Merged (locals ss news ts : List MemSection) (relevant : Bool) : Type 0 where
    pub message : IsMessage size ts
    pub view :
        (k own : List ℕ)
        → find_section locals k ≡ some own
        → find_section ts k ≡ or_else (find_section news k) (find_section ss k)
    pub flag :
        (k own b : List ℕ)
        → find_section locals k ≡ some own
        → find_section news k ≡ some b
        → relevant ≡ true

  -- A section that this program does not have.
  skipped :
      (locals ss news ts : List MemSection) (relevant : Bool) (s : MemSection)
      → find_section locals s.section_name ≡ none
      → Merged locals ss news ts relevant
      → Merged locals ss (s ∷ news) ts relevant
  unfolding find_section
  skipped locals ss news ts relevant s n o =
      let other = λ (k own : List ℕ) (e : find_section locals k ≡ some own).
        not_found_name locals s.section_name k own n e in
      record {
        message = o.message;
        view = λ k own e. rw (other k own e) (o.view k own e);
        flag = λ k own b e f. o.flag k own b e (rw (other k own e) at f);
      }

  -- A section that this program has, too.
  taken :
      (locals ss ms news ts : List MemSection) (relevant : Bool) (s : MemSection)
      → find_section news s.section_name ≡ none
      → Put size ss s.section_name s.buf ms
      → Merged locals ms news ts relevant
      → Merged locals ss (s ∷ news) ts true
  unfolding find_section
  taken locals ss ms news ts relevant s d p o = record {
    message = o.message;
    view = λ k own e. o.view k own e ∙ cons_view ss ms news s d p k;
    flag = λ k own b e f. refl;
  }

  merge_remote_section-Put :
      (locals msg : List MemSection) (s : MemSection) (own : List ℕ)
      → IsMessage size msg
      → Sized size locals
      → length s.buf ≡ size s.section_name
      → find_section locals s.section_name ≡ some own
      → Returns
          (merge_remote_section locals msg s)
          (λ r. Put size msg s.section_name s.buf r.0 × (r.1 ≡ true))
  unfolding merge_remote_section
  merge_remote_section-Put locals msg s own m l h e =
      let q : (length own == length s.buf) ≡ true =
        equal_lengths (length own) (length s.buf) (size s.section_name)
          (length_found size locals s.section_name own l e) h in
      elim (Option-cases (find_section msg s.section_name)) [
        | inl f ↦
            rw (e, merge_remote_section, q, found_lem msg s m h, f)
              (add_msg_section-Put size msg s.section_name s.buf m h f, refl)
        | inr (b, f) ↦
            rw (e, merge_remote_section, q, found_lem msg s m h, f)
              (fill_section-Put size msg s.section_name s.buf b m h f, refl)
      ]

  pub merge_msg-Merged :
      (locals msg news : List MemSection)
      → IsMessage size msg
      → Sized size locals
      → DistinctNames news
      → Sized size news
      → Returns (merge_msg locals msg news) (λ r. Merged locals msg news r.0 r.1)
  unfolding merge_msg merge_remote_section find_section
  merge_msg-Merged locals msg [] m l d h = record {
    message = m;
    view = λ k own e. refl;
    flag = λ k own b e f. let no : ⊥ = ground arith in absurd no;
  }
  merge_msg-Merged locals msg (s ∷ news) m l d h =
      elim (Option-cases (find_section locals s.section_name)) [
        | inl e ↦
            rw (e, merge_remote_section)
              (Returns-bind (merge_msg locals msg news) _ _ _
                (merge_msg-Merged locals msg news m l d.1 h.1)
                (λ t o. skipped locals msg news t.0 t.1 s e o))
        | inr (own, e) ↦
            Returns-bind (merge_remote_section locals msg s) _ _ _
              (merge_remote_section-Put locals msg s own m l h.0 e)
              (λ r p.
                Returns-bind (merge_msg locals r.0 news) _ _ _
                  (merge_msg-Merged locals r.0 news p.0.message l d.1 h.1)
                  (λ t o. rw p.1 (taken locals msg r.0 news t.0 t.1 s d.0 p.0 o)))
      ]
