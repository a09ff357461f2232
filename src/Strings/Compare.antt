-- ===== src/Strings/Compare.antt =====
-- strcmp is a three-way comparison by a total order.
use usfstl.Base.{ℕ, ◌<◌, ◌≡◌, refl, ◌⊎◌, List, [], ◌∷◌, arith, All}
use usfstl.Base.Int.{pos, negsuc}
use usfstl.Strings.{strcmp}

-- The bytes of a string are not NUL.
abbrev pub IsText : List ℕ → Type 0
IsText = All (λ c. 0 < c)

-- For strings of bytes other than NUL, strcmp returns 0 exactly when they are equal.
pub strcmp-eq_iff :
    (a b : List ℕ)
    → IsText a
    → IsText b
    → (strcmp a b ≡ pos 0 → a ≡ b) × (a ≡ b → strcmp a b ≡ pos 0)
unfolding strcmp
strcmp-eq_iff [] [] ha hb = (λ _. refl, λ _. refl)
strcmp-eq_iff [] (b ∷ bs) ha hb = (λ h. ground (arith, hb.0), λ h. cc)
strcmp-eq_iff (a ∷ as') [] ha hb = (λ h. ground (arith, ha.0), λ h. cc)
strcmp-eq_iff (a ∷ as') (b ∷ bs) ha hb =
    let ih = strcmp-eq_iff as' bs ha.1 hb.1 in
    (λ h. ground (arith, ih.0, ha.0), λ h. ground (arith, ih.1, ha.0))

-- For strings of bytes other than NUL the result is -1, 0 or 1, and swapping the strings negates it.
pub strcmp_swap :
    (a b : List ℕ)
    → IsText a
    → IsText b
    → ((strcmp a b ≡ negsuc 0) × (strcmp b a ≡ pos 1))
      ⊎ ((strcmp a b ≡ pos 1) × (strcmp b a ≡ negsuc 0))
      ⊎ ((strcmp a b ≡ pos 0) × (strcmp b a ≡ pos 0))
unfolding strcmp
strcmp_swap [] [] ha hb = ground arith
strcmp_swap [] (b ∷ bs) ha hb = ground (arith, hb.0)
strcmp_swap (a ∷ as') [] ha hb = ground (arith, ha.0)
strcmp_swap (a ∷ as') (b ∷ bs) ha hb = ground (arith, ha.0, hb.0, strcmp_swap as' bs ha.1 hb.1)

-- For strings of bytes other than NUL, a first string before a second one that is before a third
-- one is before the third one.
pub strcmp_trans :
    (a b c : List ℕ)
    → IsText a
    → IsText b
    → IsText c
    → strcmp a b ≡ negsuc 0
    → strcmp b c ≡ negsuc 0
    → strcmp a c ≡ negsuc 0
unfolding strcmp
strcmp_trans [] [] c ha hb hc h k = cc
strcmp_trans [] (b ∷ bs) [] ha hb hc h k = ground (arith, hb.0)
strcmp_trans [] (b ∷ bs) (c ∷ cs) ha hb hc h k = ground (arith, hc.0)
strcmp_trans (a ∷ as') [] c ha hb hc h k = ground (arith, ha.0)
strcmp_trans (a ∷ as') (b ∷ bs) [] ha hb hc h k = ground (arith, hb.0)
strcmp_trans (a ∷ as') (b ∷ bs) (c ∷ cs) ha hb hc h k =
    ground (arith, ha.0, hb.0, hc.0, strcmp_trans as' bs cs ha.1 hb.1 hc.1)
