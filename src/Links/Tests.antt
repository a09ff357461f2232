-- ===== src/Links/Tests.antt =====
-- A list at address 1 with entries at 5, 3 and 8.
use usfstl.Base.{◌≡◌, refl, arith, none, some, [], ◌∷◌, ◌==◌, if◌then◌else◌, ok, Returns}
use usfstl.Links.{Heap, insert_before, append, item_remove, next_item, list_length}
use usfstl.Links.Ring.{IsRing, list_refines}

abbrev demo : Heap
demo = record {
  next = λ a.
      if a == 1
      then some 5
      else if a == 5
      then some 3
      else if a == 3
      then some 8
      else if a == 8
      then some 1
      else none;
  prev = λ a.
      if a == 1
      then some 8
      else if a == 5
      then some 1
      else if a == 3
      then some 5
      else if a == 8
      then some 3
      else none;
}

demo-IsRing : IsRing demo 1 (5 ∷ 3 ∷ 8 ∷ [])
demo-IsRing = record {
  ring = (refl, refl, (refl, refl, (refl, refl, (refl, refl))));
  distinct = (refl, (refl, (refl, (refl, tt))));
}

list_refines_example :
    Returns (insert_before demo 3 9) (λ h'. IsRing h' 1 (5 ∷ 9 ∷ 3 ∷ 8 ∷ []))
    × Returns (append demo 1 9) (λ h'. IsRing h' 1 (5 ∷ 3 ∷ 8 ∷ 9 ∷ []))
    × Returns
        (item_remove demo 3)
        (λ h'. IsRing h' 1 (5 ∷ 8 ∷ []) × (h'.next 3 ≡ none) × (h'.prev 3 ≡ none))
    × (next_item demo 1 1 ≡ ok (some 5))
    × (list_length 4 demo 1 ≡ ok 3)
list_refines_example = list_refines demo 1 (5 ∷ []) 3 (8 ∷ []) demo-IsRing 9 4 refl (omega arith)
