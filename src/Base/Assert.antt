-- ===== src/Base/Assert.antt =====
-- include/usfstl/assert.h: a failed USFSTL_ASSERT ends the program in usfstl_abort, which is given
-- the text of the condition.
use Prim.Native.String.{String}
use mathlib.Core.Bool.{Bool, true, false}

pub data Result {ℓ} (T : Type ℓ) : Type ℓ where
  abort : String → Result T
  ok : T → Result T

-- USFSTL_ASSERT(condition): the rest of the function runs only if the condition holds.
abbrev pub assert : Bool → String → Result (Unit {0})
assert false condition = abort condition
assert true condition = ok tt

infixl 5 ◌>>=◌
abbrev pub ◌>>=◌ {ℓ ℓ'} : {S : Type ℓ} {T : Type ℓ'} → Result S → (S → Result T) → Result T
abort condition >>= next = abort condition
ok s >>= next = next s

infixl 5 ◌>>◌
abbrev pub ◌>>◌ {ℓ} : {T : Type ℓ} → Result (Unit {0}) → Result T → Result T
abort condition >> next = abort condition
ok _ >> next = next

-- The run ends in `usfstl_abort`.
abbrev pub Aborts {ℓ} : {A : Type ℓ} → Result A → Type 0
Aborts (ok a) = ⊥
Aborts (abort e) = Unit {0}

-- The run does not abort, and its result satisfies `P`.
abbrev pub Returns {ℓ} : {A : Type ℓ} → Result A → (A → Type 0) → Type 0
Returns (ok a) P = P a
Returns (abort e) P = ⊥

-- A run aborts if its first part does, and if what follows does in any case.
pub Aborts-first {ℓ ℓ'} :
    {S : Type ℓ} {T : Type ℓ'} (m : Result S) (next : S → Result T) → Aborts m → Aborts (m >>= next)
Aborts-first (abort condition) next h = tt
Aborts-first (ok s) next h = elim h [ ]

pub Aborts-next {ℓ ℓ'} :
    {S : Type ℓ} {T : Type ℓ'} (m : Result S) (next : S → Result T)
    → ((s : S) → Aborts (next s))
    → Aborts (m >>= next)
Aborts-next (abort condition) next h = tt
Aborts-next (ok s) next h = h s

-- A run aborts if what follows aborts after any result that the first part may have.
pub Aborts-after {ℓ ℓ'} :
    {S : Type ℓ} {T : Type ℓ'} (m : Result S) (next : S → Result T) (P : S → Type 0)
    → Returns m P
    → ((s : S) → P s → Aborts (next s))
    → Aborts (m >>= next)
Aborts-after (ok s) next P h k = k s h
Aborts-after (abort condition) next P h k = tt
