-- ===== src/Multi/SharedMem.antt =====
-- src/multi-shared-mem.c and include/usfstl/sharedmem.h: the sections of memory that the participants
-- of a simulation share, and the message in which they are sent.
pub mod Views
pub mod Sharing
pub mod Arrival
use usfstl.Base.{
  ℕ, zero, suc, ◌+◌, Bool, true, false, ◌&&◌, ◌||◌, not, Option, none, some, List, [], ◌∷◌, ◌++◌,
  length, ltb, leb, ◌==◌, if◌then◌else◌, Result, ok, abort, assert, ◌>>=◌, ◌>>◌,
}
use usfstl.Rpc.Wire.{same_bytes}
use usfstl.Rpc.Call.{zeroes}

-- struct usfstl_shared_mem_msg_section, and struct usfstl_shared_mem_section with the memory from
-- p_start to p_stop. The name is the string in the 32 bytes.
pub record MemSection : Type 0 where
  pub section_name : List ℕ
  pub buf : List ℕ

-- What is kept of a participant, but for its job and its connection.
pub record Participant : Type 0 where
  pub is_waiting : Bool  -- USFSTL_MULTI_PARTICIPANT_WAITING
  pub is_outdated : Bool  -- USFSTL_MULTI_PARTICIPANT_SHARED_MEM_OUTDATED
  pub sync_set : Bool
  pub sync : ℕ  -- uint64_t

-- `local_sections` are those of the program, `msg_sections` those of the message that it keeps;
-- `participants` are the numbers that for_each_participant visits.
pub record MemState : Type 0 where
  pub local_sections : List MemSection
  pub msg_sections : List MemSection
  pub shared_mem_dirty : Bool
  pub local_outdated : Bool
  pub has_test : Bool
  pub participants : List ℕ
  pub participant : ℕ → Participant

-- The buffer of the first section of that name.
unfoldable pub find_section : List MemSection → List ℕ → Option (List ℕ)
find_section [] name = none
find_section (s ∷ ss) name =
    let rest = find_section ss name in if same_bytes s.section_name name then some s.buf else rest

-- memcpy into the buffer of the first section of that name.
unfoldable pub fill_section : List MemSection → List ℕ → List ℕ → List MemSection
fill_section [] name bytes = []
fill_section (s ∷ ss) name bytes =
    let rest = fill_section ss name bytes in
    if same_bytes s.section_name name then record s { buf = bytes } ∷ ss else s ∷ rest

-- The section of the message, which must have the size.
unfoldable pub find_msg_section : List MemSection → List ℕ → ℕ → Result (Option (List ℕ))
find_msg_section msg name size = elim (find_section msg name) [
  | none ↦ ok none
  | some bytes ↦ do assert (length bytes == size) "s->size == buf_size"; ok (some bytes)
]

unfoldable pub add_msg_section : List MemSection → List ℕ → List ℕ → List MemSection
add_msg_section msg name bytes = msg ++ record { section_name = name; buf = bytes } ∷ []

-- The message with a section of the program in it, and whether it has changed.
unfoldable pub merge_local_section : List MemSection → MemSection → Result (List MemSection × Bool)
merge_local_section msg s = do
  found ← find_msg_section msg s.section_name (length s.buf)
  elim found [
    | none ↦ do
      assert (same_bytes (zeroes (length s.buf)) s.buf) "section initially not zeroed"
      ok (add_msg_section msg s.section_name (zeroes (length s.buf)), false)
    | some bytes ↦
        if same_bytes bytes s.buf
        then ok (msg, false)
        else ok (fill_section msg s.section_name s.buf, true)
  ]

-- A section of another program is kept if this one has it, too.
unfoldable pub merge_remote_section :
    List MemSection → List MemSection → MemSection → Result (List MemSection × Bool)
merge_remote_section locals msg s = elim (find_section locals s.section_name) [
  | none ↦ ok (msg, false)
  | some own ↦ do
    assert (length own == length s.buf) "SECTION_SIZE(s) == buf_size"
    found ← find_msg_section msg s.section_name (length s.buf)
    ok (
      elim found [
        | none ↦ add_msg_section msg s.section_name s.buf
        | some bytes ↦ fill_section msg s.section_name s.buf
      ],
      true,
    )
]

unfoldable pub merge_msg :
    List MemSection → List MemSection → List MemSection → Result (List MemSection × Bool)
merge_msg locals msg [] = ok (msg, false)
merge_msg locals msg (s ∷ incoming) = do
  r ← merge_remote_section locals msg s
  t ← merge_msg locals r.0 incoming
  ok (t.0, r.1 || t.1)

unfoldable pub update_msg : List MemSection → List MemSection → Result (List MemSection × Bool)
update_msg msg [] = ok (msg, false)
update_msg msg (s ∷ locals) = do
  r ← merge_local_section msg s
  t ← update_msg r.0 locals
  ok (t.0, r.1 || t.1)

-- The inner loop of usfstl_shared_mem_update_local_view.
unfoldable pub refresh_section : List MemSection → MemSection → Result (List MemSection)
refresh_section locals s = elim (find_section locals s.section_name) [
  | none ↦ ok locals
  | some own ↦ do
    assert (length own == length s.buf) "SECTION_SIZE(s) == section->size"
    ok (fill_section locals s.section_name s.buf)
]

unfoldable pub refresh : List MemSection → List MemSection → Result (List MemSection)
refresh locals [] = ok locals
refresh locals (s ∷ msg) = do t ← refresh_section locals s; refresh t msg

abbrev pub set_participant : MemState → ℕ → Participant → MemState
set_participant m j p = record m { participant = λ i. if j == i then p else m.participant i }

-- The flags of all participants that satisfy `test`.
unfoldable pub mark_outdated : (Participant → Bool) → List ℕ → MemState → MemState
mark_outdated test [] m = m
mark_outdated test (j ∷ js) m =
    let p = m.participant j in
    mark_outdated test js
      (if test p then set_participant m j (record p { is_outdated = true }) else m)

-- What is sent: all sections, or nothing.
abbrev pub sent_sections : MemState → Bool → List MemSection
sent_sections m is_participant_outdated = if is_participant_outdated then m.msg_sections else []

-- An empty message says that nothing has changed.
unfoldable pub shared_mem_handle_msg : MemState → List MemSection → Bool → Result MemState
shared_mem_handle_msg m [] do_not_mark_dirty = ok m
shared_mem_handle_msg m (s ∷ incoming) do_not_mark_dirty = if not m.has_test then ok m else do
  let marked = mark_outdated (λ p. p.is_waiting) m.participants m
  let dirty = if do_not_mark_dirty then marked else record marked { shared_mem_dirty = true }
  r ← merge_msg m.local_sections m.msg_sections (s ∷ incoming)
  ok (record dirty { msg_sections = r.0; local_outdated = r.1 || m.local_outdated })

unfoldable pub update_local_view : MemState → Result MemState
update_local_view m = if not m.local_outdated then ok m else do
  t ← refresh m.local_sections m.msg_sections
  ok (record m { local_sections = t; local_outdated = false })

unfoldable pub prepare_msg : MemState → Result MemState
prepare_msg m = do
  assert (not m.local_outdated) "!(flags & SHARED_MEM_OUTDATED)"
  r ← update_msg m.msg_sections m.local_sections
  let t = record m { msg_sections = r.0 }
  ok (
      if r.1
      then record (mark_outdated (λ p. true) m.participants t) { shared_mem_dirty = true }
      else t)
