-- ===== src/Base/Members.antt =====
-- Membership, unlinking and distinct entries of a list of numbers.
use Prim.Native.Nat.{ℕ}
use mathlib.Core.Path.{◌≡◌, refl}
use mathlib.Core.Logic.{◌≢◌, inl, inr}
use mathlib.Core.Bool.{true, false, ◌||◌}
use mathlib.Core.List.{List, [], ◌∷◌, ◌++◌}
use native.Mathlib.Omega.{arith}
use usfstl.Base.Tests.{◌==◌, if◌then◌else◌, Bool-cases, ==→eq}
use usfstl.Base.Lists.{mem, remove, next_after, head?, Distinct, All}

pub mem-append : (i : ℕ) (xs ys : List ℕ) → mem i (xs ++ ys) ≡ (mem i xs || mem i ys)
mem-append i [] ys = refl
mem-append i (x ∷ xs) ys = ground (arith, mem-append i xs ys)

pub mem-remove :
    (i j : ℕ) (xs : List ℕ)
    → Distinct xs
    → mem i (remove j xs) ≡ (if j == i then false else mem i xs)
mem-remove i j [] d = ground arith
mem-remove i j (x ∷ xs) d = ground (arith, mem-remove i j xs d.1)

pub mem-remove_self : (j : ℕ) (xs : List ℕ) → Distinct xs → mem j (remove j xs) ≡ false
mem-remove_self j xs d = ground (arith, mem-remove j j xs d)

pub mem-remove_le : (i j : ℕ) (xs : List ℕ) → mem i xs ≡ false → mem i (remove j xs) ≡ false
mem-remove_le i j [] h = refl
mem-remove_le i j (x ∷ xs) h = ground (arith, mem-remove_le i j xs)

pub Distinct-remove : (j : ℕ) (xs : List ℕ) → Distinct xs → Distinct (remove j xs)
Distinct-remove j [] d = tt
Distinct-remove j (x ∷ xs) d = ground (arith, Distinct-remove j xs d.1, mem-remove_le x j xs d.0)

-- Unlinking what is not there changes nothing.
pub remove_absent : (j : ℕ) (xs : List ℕ) → mem j xs ≡ false → remove j xs ≡ xs
remove_absent j [] h = refl
remove_absent j (x ∷ xs) h = ground (arith, remove_absent j xs)

pub Distinct-snoc : (j : ℕ) (xs : List ℕ) → mem j xs ≡ false → Distinct xs → Distinct (xs ++ j ∷ [])
Distinct-snoc j [] h d = (refl, tt)
Distinct-snoc j (x ∷ xs) h d = ground (arith, Distinct-snoc j xs, mem-append x xs (j ∷ []))

pub Distinct-middle :
    (xs : List ℕ) (j : ℕ) (ys : List ℕ)
    → Distinct (xs ++ j ∷ ys)
    → (mem j xs ≡ false) × (mem j ys ≡ false) × Distinct (xs ++ ys)
Distinct-middle [] j ys d = (refl, d.0, d.1)
Distinct-middle (x ∷ xs) j ys d =
    ground (arith, Distinct-middle xs j ys d.1, mem-append x xs (j ∷ ys), mem-append x xs ys)

pub next_after_middle :
    (xs : List ℕ) (j : ℕ) (ys : List ℕ) → mem j xs ≡ false → next_after (xs ++ j ∷ ys) j ≡ head? ys
next_after_middle [] j ys h = ground arith
next_after_middle (x ∷ xs) j ys h = ground (arith, next_after_middle xs j ys)

pub remove_middle :
    (xs : List ℕ) (j : ℕ) (ys : List ℕ) → mem j xs ≡ false → remove j (xs ++ j ∷ ys) ≡ xs ++ ys
remove_middle [] j ys h = ground arith
remove_middle (x ∷ xs) j ys h = ground (arith, remove_middle xs j ys)

module _ {ℓ} (P : ℕ → Type ℓ) where
  pub All_of_mem : (xs : List ℕ) (j : ℕ) → All P xs → mem j xs ≡ true → P j
  All_of_mem [] j a h = cc
  All_of_mem (x ∷ xs) j a h = elim (Bool-cases (x == j)) [
    | inl e ↦ rw (← ==→eq x j e) a.0
    | inr e ↦ All_of_mem xs j a.1 (ground arith)
  ]

  pub All-remove : (xs : List ℕ) (j : ℕ) → All P xs → All P (remove j xs)
  All-remove [] j a = tt
  All-remove (x ∷ xs) j a = elim (Bool-cases (x == j)) [
    | inl e ↦ rw e a.1
    | inr e ↦ rw e (a.0, All-remove xs j a.1)
  ]

-- What holds of every entry but `j` holds of a list without `j`.
pub All-others {ℓ κ} :
    (P : ℕ → Type ℓ) (Q : ℕ → Type κ) (j : ℕ) (xs : List ℕ)
    → ((i : ℕ) → i ≢ j → P i → Q i)
    → mem j xs ≡ false
    → All P xs
    → All Q xs
All-others P Q j [] f h a = tt
All-others P Q j (x ∷ xs) f h a = (f x (ground arith) a.0, All-others P Q j xs f (ground arith) a.1)
