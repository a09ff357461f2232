-- ===== src/Multi/Flags.antt =====
-- src/multi-shared-mem.c and src/multi-ctl.c: the flags of participants.
use usfstl.Base.{
  ℕ, ◌≡◌, refl, ap, ◌∙◌, inl, inr, arith, Bool, true, false, ◌||◌, List, [], ◌∷◌, mem, ◌==◌, ==→eq,
  if◌then◌else◌, Bool-cases,
}
use usfstl.Multi.SharedMem.{Participant, MemState, set_participant, mark_outdated}

pub by_branch :
    {A B : Type 0} (f : A → B) (b : Bool) (x y : A) (k : B)
    → f x ≡ k
    → f y ≡ k
    → f (if b then x else y) ≡ k
by_branch f true x y k h i = h
by_branch f false x y k h i = i

-- Whether a participant waits does not depend on the other fields.
abbrev pub waits : ℕ → MemState → Bool
waits p m = (m.participant p).is_waiting

picked_waits :
    (m : MemState) (u p : ℕ) (v : Participant)
    → v.is_waiting ≡ (m.participant u).is_waiting
    → (if u == p then v else m.participant p).is_waiting ≡ (m.participant p).is_waiting
picked_waits m u p v h = elim (Bool-cases (u == p)) [
  | inl e ↦ rw e (h ∙ ap (λ i. (m.participant i).is_waiting) (==→eq u p e))
  | inr e ↦ rw e refl
]

pub waits-set_participant :
    (m : MemState) (u p : ℕ) (v : Participant)
    → v.is_waiting ≡ (m.participant u).is_waiting
    → waits p (set_participant m u v) ≡ waits p m
waits-set_participant m u p v h = picked_waits m u p v h

pub waits-mark_outdated :
    (test : Participant → Bool) (js : List ℕ) (m : MemState) (p : ℕ)
    → waits p (mark_outdated test js m) ≡ waits p m
unfolding mark_outdated
waits-mark_outdated test [] m p = refl
waits-mark_outdated test (j ∷ js) m p =
    let q = m.participant j in
    let x = set_participant m j (record q { is_outdated = true }) in
    waits-mark_outdated test js (if test q then x else m) p
    ∙ by_branch (waits p) (test q) x m _
        (waits-set_participant m j p (record q { is_outdated = true }) refl) refl

-- All participants of the list that pass the test are outdated afterwards, and stay so.
mark_outdated_kept :
    (test : Participant → Bool) (js : List ℕ) (m : MemState) (p : ℕ)
    → (m.participant p).is_outdated ≡ true
    → ((mark_outdated test js m).participant p).is_outdated ≡ true
unfolding mark_outdated
mark_outdated_kept test [] m p h = h
mark_outdated_kept test (j ∷ js) m p h =
    let q = m.participant j in
    let x = set_participant m j (record q { is_outdated = true }) in
    mark_outdated_kept test js (if test q then x else m) p (
      by_branch (λ (n : MemState). (n.participant p).is_outdated) (test q) x m true
        (elim (Bool-cases (j == p)) [ inl e ↦ rw e refl | inr e ↦ rw e h ]) h)

pub mark_outdated_all :
    (js : List ℕ) (m : MemState) (p : ℕ)
    → mem p js ≡ true
    → ((mark_outdated (λ q. true) js m).participant p).is_outdated ≡ true
unfolding mark_outdated
mark_outdated_all [] m p h = let no : ⊥ = ground arith in absurd no
mark_outdated_all (j ∷ js) m p h =
    let x = set_participant m j (record (m.participant j) { is_outdated = true }) in
    elim (Bool-cases (j == p)) [
      | inl e ↦ mark_outdated_kept (λ q. true) js x p (rw e refl)
      | inr e ↦ mark_outdated_all js x p (ground arith)
    ]

pub mark_outdated_local :
    (test : Participant → Bool) (js : List ℕ) (m : MemState)
    → (mark_outdated test js m).local_outdated ≡ m.local_outdated
unfolding mark_outdated
mark_outdated_local test [] m = refl
mark_outdated_local test (j ∷ js) m =
    let q = m.participant j in
    let x = set_participant m j (record q { is_outdated = true }) in
    mark_outdated_local test js (if test q then x else m)
    ∙ by_branch (λ (n : MemState). n.local_outdated) (test q) x m _ refl refl

pub mark_outdated_sections :
    (test : Participant → Bool) (js : List ℕ) (m : MemState)
    → (mark_outdated test js m).msg_sections ≡ m.msg_sections
unfolding mark_outdated
mark_outdated_sections test [] m = refl
mark_outdated_sections test (j ∷ js) m =
    let q = m.participant j in
    let x = set_participant m j (record q { is_outdated = true }) in
    mark_outdated_sections test js (if test q then x else m)
    ∙ by_branch (λ (n : MemState). n.msg_sections) (test q) x m _ refl refl

-- Exactly the participants of the list become outdated.
pub mark_outdated_flag :
    (js : List ℕ) (m : MemState) (p : ℕ)
    → ((mark_outdated (λ q. true) js m).participant p).is_outdated
      ≡ ((m.participant p).is_outdated || mem p js)
unfolding mark_outdated
mark_outdated_flag [] m p = ground arith
mark_outdated_flag (j ∷ js) m p =
    let x = set_participant m j (record (m.participant j) { is_outdated = true }) in
    elim (Bool-cases (j == p)) [
      | inl e ↦
          let here : (x.participant p).is_outdated ≡ true = rw e refl in
          let member : mem p (j ∷ js) ≡ true = rw e refl in
          mark_outdated_kept (λ q. true) js x p here ∙ ground (arith, member)
      | inr e ↦
          let there : (x.participant p).is_outdated ≡ (m.participant p).is_outdated = rw e refl in
          let member : mem p (j ∷ js) ≡ mem p js = rw e refl in
          mark_outdated_flag js x p ∙ rw (there, member) refl
    ]
