-- ===== src/Multi/SharedMem/Views.antt =====
-- src/multi-shared-mem.c: sections by their names, and what writing one of them changes.
use usfstl.Base.{
  ℕ, ◌≡◌, refl, sym, ap, ◌∙◌, inl, inr, arith, true, false, ◌&&◌, Option, none, some, is_some, List,
  [], ◌∷◌, All, length, if◌then◌else◌, Bool-cases,
}
use usfstl.Rpc.Wire.{same_bytes}
use usfstl.Multi.SharedMem.{MemSection, find_section, fill_section, add_msg_section}

pub same_bytes→eq : (xs ys : List ℕ) → same_bytes xs ys ≡ true → xs ≡ ys
same_bytes→eq [] [] h = refl
same_bytes→eq [] (y ∷ ys) h = let no : ⊥ = cc in absurd no
same_bytes→eq (x ∷ xs) [] h = let no : ⊥ = cc in absurd no
same_bytes→eq (x ∷ xs) (y ∷ ys) h =
    let head : x ≡ y = ground arith in
    let tail = same_bytes→eq xs ys (ground arith) in λ i. head i ∷ tail i

abbrev pub or_else : Option (List ℕ) → Option (List ℕ) → Option (List ℕ)
or_else none o = o
or_else (some b) o = some b

-- No two sections have the same name.
abbrev pub DistinctNames : List MemSection → Type 0
DistinctNames [] = Unit {0}
DistinctNames (s ∷ ss) = (find_section ss s.section_name ≡ none) × DistinctNames ss

same_bytes_comm : (n k : List ℕ) → same_bytes n k ≡ same_bytes k n
same_bytes_comm [] [] = refl
same_bytes_comm [] (y ∷ ys) = refl
same_bytes_comm (x ∷ xs) [] = refl
same_bytes_comm (x ∷ xs) (y ∷ ys) = ground (arith, same_bytes_comm xs ys)

-- The section of another name.
not_same :
    (a n k : List ℕ) → same_bytes a n ≡ false → same_bytes a k ≡ true → same_bytes n k ≡ false
not_same a n k h e = rw (← same_bytes→eq a k e, same_bytes_comm n a) h

find-fill_section :
    (ss : List MemSection) (n v k : List ℕ)
    → find_section (fill_section ss n v) k
      ≡ (if same_bytes n k && is_some (find_section ss n) then some v else find_section ss k)
unfolding find_section fill_section
find-fill_section [] n v k = elim (Bool-cases (same_bytes n k)) [
  | inl e ↦ rw e refl
  | inr e ↦ rw e refl
]
find-fill_section (s ∷ ss) n v k = elim (Bool-cases (same_bytes s.section_name n)) [
  | inl e ↦
      let q = same_bytes→eq s.section_name n e in
      elim (Bool-cases (same_bytes s.section_name k)) [
        | inl f ↦ rw (e, f, ap (λ x. same_bytes x k) (sym q) ∙ f) refl
        | inr f ↦ rw (e, f, ap (λ x. same_bytes x k) (sym q) ∙ f) refl
      ]
  | inr e ↦ elim (Bool-cases (same_bytes s.section_name k)) [
    | inl f ↦ rw (e, f, not_same s.section_name n k e f) refl
    | inr f ↦ rw (e, f) (find-fill_section ss n v k)
  ]
]

find-add_msg_section :
    (ss : List MemSection) (n v k : List ℕ)
    → find_section ss n ≡ none
    → find_section (add_msg_section ss n v) k
      ≡ (if same_bytes n k then some v else find_section ss k)
unfolding find_section add_msg_section
find-add_msg_section [] n v k h = refl
find-add_msg_section (s ∷ ss) n v k h = elim (Bool-cases (same_bytes s.section_name n)) [
  | inl e ↦ let no : some s.buf ≡ none = rw e at h in absurd (ground arith)
  | inr e ↦
      let rest : find_section ss n ≡ none = rw e at h in
      elim (Bool-cases (same_bytes s.section_name k)) [
        | inl f ↦ rw (f, not_same s.section_name n k e f) refl
        | inr f ↦ rw f (find-add_msg_section ss n v k rest)
      ]
]

DistinctNames-fill_section :
    (ss : List MemSection) (n v : List ℕ) → DistinctNames ss → DistinctNames (fill_section ss n v)
unfolding fill_section
DistinctNames-fill_section [] n v d = tt
DistinctNames-fill_section (s ∷ ss) n v d = elim (Bool-cases (same_bytes s.section_name n)) [
  | inl e ↦ rw e d
  | inr e ↦
      let f : same_bytes n s.section_name ≡ false = same_bytes_comm n s.section_name ∙ e in
      rw e (
        (find-fill_section ss n v s.section_name ∙ rw f d.0, DistinctNames-fill_section ss n v d.1))
]

DistinctNames-add_msg_section :
    (ss : List MemSection) (n v : List ℕ)
    → find_section ss n ≡ none
    → DistinctNames ss
    → DistinctNames (add_msg_section ss n v)
unfolding add_msg_section find_section
DistinctNames-add_msg_section [] n v h d = (refl, tt)
DistinctNames-add_msg_section (s ∷ ss) n v h d = elim (Bool-cases (same_bytes s.section_name n)) [
  | inl e ↦ let no : some s.buf ≡ none = rw e at h in absurd (ground arith)
  | inr e ↦
      let rest : find_section ss n ≡ none = rw e at h in
      let f : same_bytes n s.section_name ≡ false = same_bytes_comm n s.section_name ∙ e in
      (
        find-add_msg_section ss n v s.section_name rest ∙ rw f d.0,
        DistinctNames-add_msg_section ss n v rest d.1,
      )
]

module _ (size : List ℕ → ℕ) where
  -- All sections have the size that their name has in every program.
  abbrev pub Sized : List MemSection → Type 0
  Sized ss = All (λ s. length s.buf ≡ size s.section_name) ss

  Sized-fill_section :
      (ss : List MemSection) (n v : List ℕ)
      → length v ≡ size n
      → Sized ss
      → Sized (fill_section ss n v)
  unfolding fill_section
  Sized-fill_section [] n v h a = tt
  Sized-fill_section (s ∷ ss) n v h a = elim (Bool-cases (same_bytes s.section_name n)) [
    | inl e ↦ rw e (h ∙ ap size (sym (same_bytes→eq s.section_name n e)), a.1)
    | inr e ↦ rw e (a.0, Sized-fill_section ss n v h a.1)
  ]

  Sized-add_msg_section :
      (ss : List MemSection) (n v : List ℕ)
      → length v ≡ size n
      → Sized ss
      → Sized (add_msg_section ss n v)
  unfolding add_msg_section
  Sized-add_msg_section [] n v h a = (h, tt)
  Sized-add_msg_section (s ∷ ss) n v h a = (a.0, Sized-add_msg_section ss n v h a.1)

  pub length_found :
      (ss : List MemSection) (n b : List ℕ)
      → Sized ss
      → find_section ss n ≡ some b
      → length b ≡ size n
  unfolding find_section
  length_found [] n b a h = let no : ⊥ = ground arith in absurd no
  length_found (s ∷ ss) n b a h = elim (Bool-cases (same_bytes s.section_name n)) [
    | inl e ↦
        let q : some s.buf ≡ some b = rw e at h in
        let r : s.buf ≡ b = cc in
        ap length (sym r) ∙ a.0 ∙ ap size (same_bytes→eq s.section_name n e)
    | inr e ↦ length_found ss n b a.1 (rw e at h)
  ]

  pub record IsMessage (ss : List MemSection) : Type 0 where
    pub distinct : DistinctNames ss
    pub sized : Sized ss

  -- The sections `ts` are `ss` with the bytes `v` under the name `n`.
  pub record Put (ss : List MemSection) (n v : List ℕ) (ts : List MemSection) : Type 0 where
    pub message : IsMessage ts
    pub view :
        (k : List ℕ) → find_section ts k ≡ (if same_bytes n k then some v else find_section ss k)

  pub fill_section-Put :
      (ss : List MemSection) (n v b : List ℕ)
      → IsMessage ss
      → length v ≡ size n
      → find_section ss n ≡ some b
      → Put ss n v (fill_section ss n v)
  fill_section-Put ss n v b m h f = record {
    message = record {
      distinct = DistinctNames-fill_section ss n v m.distinct;
      sized = Sized-fill_section ss n v h m.sized;
    };
    view = λ k.
        find-fill_section ss n v k
        ∙ (elim (Bool-cases (same_bytes n k)) [ inl e ↦ rw (e, f) refl | inr e ↦ rw e refl ]);
  }

  pub add_msg_section-Put :
      (ss : List MemSection) (n v : List ℕ)
      → IsMessage ss
      → length v ≡ size n
      → find_section ss n ≡ none
      → Put ss n v (add_msg_section ss n v)
  add_msg_section-Put ss n v m h f = record {
    message = record {
      distinct = DistinctNames-add_msg_section ss n v f m.distinct;
      sized = Sized-add_msg_section ss n v h m.sized;
    };
    view = λ k. find-add_msg_section ss n v k f;
  }

  -- Bytes that are there already.
  pub same-Put :
      (ss : List MemSection) (n v : List ℕ)
      → IsMessage ss
      → find_section ss n ≡ some v
      → Put ss n v ss
  same-Put ss n v m f = record {
    message = m;
    view = λ k. elim (Bool-cases (same_bytes n k)) [
      | inl e ↦ rw e (ap (find_section ss) (sym (same_bytes→eq n k e)) ∙ f)
      | inr e ↦ rw e refl
    ];
  }
