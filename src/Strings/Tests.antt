-- ===== src/Strings/Tests.antt =====
-- The string functions on concrete bytes.
use usfstl.Base.{ℕ, ◌≡◌, refl, List, [], ◌∷◌, arith}
use usfstl.Base.Int.{negsuc}
use usfstl.Strings.{strcmp, memcpy}
use usfstl.Strings.Compare.{IsText}
use usfstl.Strings.Copy.{memcpy-copied, copied}

abbrev tag : List ℕ
tag = 97 ∷ 98 ∷ []

abbrev longer_tag : List ℕ
longer_tag = 97 ∷ 98 ∷ 99 ∷ []

abbrev later_tag : List ℕ
later_tag = 98 ∷ []

tag-IsText : IsText tag
tag-IsText = (omega arith, (omega arith, tt))

longer_tag-IsText : IsText longer_tag
longer_tag-IsText = (omega arith, (omega arith, (omega arith, tt)))

later_tag-IsText : IsText later_tag
later_tag-IsText = (omega arith, tt)

tag_first : strcmp tag longer_tag ≡ negsuc 0
unfolding strcmp
tag_first = refl

longer_tag_first : strcmp longer_tag later_tag ≡ negsuc 0
unfolding strcmp
longer_tag_first = refl

abbrev bytes : List ℕ
bytes = 1 ∷ 2 ∷ 3 ∷ 4 ∷ 5 ∷ 6 ∷ 7 ∷ 8 ∷ 9 ∷ 10 ∷ 11 ∷ 12 ∷ 13 ∷ 14 ∷ 15 ∷ 16 ∷ []

abbrev zeros : List ℕ
zeros = 0 ∷ 0 ∷ 0 ∷ 0 ∷ 0 ∷ 0 ∷ 0 ∷ 0 ∷ 0 ∷ 0 ∷ 0 ∷ 0 ∷ 0 ∷ 0 ∷ 0 ∷ 0 ∷ []

memcpy-copied_example : memcpy zeros bytes 15 ≡ copied 15 zeros bytes
memcpy-copied_example = memcpy-copied zeros bytes 15 (omega arith) (omega arith)
