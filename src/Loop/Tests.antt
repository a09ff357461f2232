-- ===== src/Loop/Tests.antt =====
-- A main loop with three entries.
use usfstl.Base.{ℕ, ◌+◌, ◌≡◌, refl, none, List, [], ◌∷◌, arith, ◌==◌, if◌then◌else◌, Result, ok}
use usfstl.Base.Int.{ℤ, pos, negsuc}
use usfstl.Loop.{Loop, LoopEntry, dispatch, wait_and_handle}
use usfstl.Loop.Order.{IsSorted}
use usfstl.Loop.Dispatch.{IsFirst, wait_and_handle-IsFirst}

abbrev demo_entry : ℕ → LoopEntry
demo_entry j =
    if j == 0
    then record { fd = 7; priority = pos 5 }
    else if j == 1
    then record { fd = 4; priority = pos 0 }
    else record { fd = 9; priority = negsuc 2 }

-- `env` counts the calls of handlers.
abbrev demo : Loop ℕ
demo = record { loop_entries = 0 ∷ 1 ∷ 2 ∷ []; entry = demo_entry; env = 0 }

abbrev demo_handler : ℕ → Loop ℕ → Result (Loop ℕ)
demo_handler j s = ok (record s { env = s.env + 1 })

demo-IsSorted : IsSorted demo_entry (0 ∷ 1 ∷ 2 ∷ [])
demo-IsSorted = ((omega arith, (omega arith, tt)), ((omega arith, tt), (tt, tt)))

-- Descriptors 4 and 9 are ready.
abbrev two_ready : ℕ → List ℕ → ℤ × List ℕ
two_ready n ds = (pos 2, 4 ∷ 9 ∷ [])

wait_and_handle-IsFirst_example :
    (t : ℕ) × (wait_and_handle two_ready none demo_handler demo
      ≡ dispatch two_ready none demo_handler demo t)
    × IsFirst demo_entry (4 ∷ 9 ∷ []) t (0 ∷ 1 ∷ 2 ∷ [])
wait_and_handle-IsFirst_example =
    wait_and_handle-IsFirst two_ready none demo_handler demo 1 9 demo-IsSorted refl (omega arith)
      refl refl
