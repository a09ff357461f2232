-- ===== src/Loop.antt =====
-- src/loop.c: the main loop's entries, in the order of their priorities, and the dispatch of one.
pub mod Order
pub mod Dispatch
mod Tests
use usfstl.Base.{
  ℕ, ◌+◌, Bool, true, false, not, Option, none, some, List, [], ◌∷◌, ltb, leb, ◌==◌, ◌||◌,
  if◌then◌else◌, mem, remove, Result, ok, abort, assert, ◌>>=◌, ◌>>◌,
}
use usfstl.Base.Int.{ℤ, ltb_ℤ, to_u32}

-- struct usfstl_loop_entry, but for its handler.
pub record LoopEntry : Type 0 where
  pub fd : ℕ
  pub priority : ℤ  -- int

-- g_usfstl_loop_entries and what the handlers keep elsewhere. An entry is known by a number.
pub record Loop (E : Type 0) : Type 0 where
  pub loop_entries : List ℕ
  pub entry : ℕ → LoopEntry
  pub env : E

-- The loop of usfstl_loop_register, with the append after it.
unfoldable pub insert_entry : (ℕ → LoopEntry) → ℕ → List ℕ → List ℕ
insert_entry es j [] = j ∷ []
insert_entry es j (t ∷ ts) =
    if not (ltb_ℤ (es j).priority (es t).priority) then j ∷ t ∷ ts else t ∷ insert_entry es j ts

-- FD_SET for each entry, and the largest descriptor.
abbrev pub descriptors : (ℕ → LoopEntry) → List ℕ → List ℕ
descriptors es [] = []
descriptors es (t ∷ ts) = (es t).fd ∷ descriptors es ts

abbrev pub largest : (ℕ → LoopEntry) → List ℕ → ℕ → ℕ
largest es [] max = max
largest es (t ∷ ts) max = largest es ts (if ltb max (es t).fd then (es t).fd else max)

-- The first entry whose descriptor is ready.
unfoldable pub first_ready : (ℕ → LoopEntry) → List ℕ → List ℕ → Option ℕ
first_ready es rd_set [] = none
first_ready es rd_set (t ∷ ts) =
    let rest = first_ready es rd_set ts in if mem (es t).fd rd_set then some t else rest

module _ {E : Type 0} where
  unfoldable pub loop_register : Loop E → ℕ → Loop E
  loop_register s j = record s { loop_entries = insert_entry s.entry j s.loop_entries }

  unfoldable pub loop_unregister : Loop E → ℕ → Loop E
  loop_unregister s j = record s { loop_entries = remove j s.loop_entries }

  -- `select` is the system's: its result, and the descriptors that it leaves in the set. `handler`
  -- calls the entry's function, `pre_handler` is g_usfstl_loop_pre_handler_fn.
  module _ (select : ℕ → List ℕ → ℤ × List ℕ) (pre_handler : Option (Loop E → Result (Loop E)))
      (handler : ℕ → Loop E → Result (Loop E)) where
    unfoldable pub dispatch : Loop E → ℕ → Result (Loop E)
    dispatch s t = elim pre_handler [ none ↦ handler t s | some f ↦ f s >>= handler t ]

    -- `num` is unsigned.
    unfoldable pub wait_and_handle : Loop E → Result (Loop E)
    wait_and_handle s =
        let ready =
          select (largest s.entry s.loop_entries 0 + 1) (descriptors s.entry s.loop_entries) in
        do
          assert (ltb 0 (to_u32 ready.0)) "num > 0"
          elim (first_ready s.entry ready.1 s.loop_entries) [ none ↦ ok s | some t ↦ dispatch s t ]
