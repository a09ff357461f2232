-- ===== src/Strings.antt =====
-- src/string.c: strcmp and memcpy as the library has them for itself. A string is the list of its
-- bytes, without the NUL that ends it; the memory of a copy is a list of bytes.
pub mod Compare
pub mod Copy
mod Tests
use usfstl.Base.{
  ℕ, zero, suc, ◌+◌, ◌-◌, ◌*◌, ◌/◌, ◌%◌, Bool, ◌&&◌, not, List, [], ◌∷◌, ltb, ◌==◌, if◌then◌else◌,
}
use usfstl.Base.Int.{ℤ, pos, negsuc}

-- (*s1 == *s2) ? 0 : (*s1 < *s2) ? -1 : 1
abbrev pub cmp_byte : ℕ → ℕ → ℤ
cmp_byte a b = if a == b then pos 0 else if ltb a b then negsuc 0 else pos 1

-- The loop stops at a NUL of the first string and at the first difference.
unfoldable pub strcmp : List ℕ → List ℕ → ℤ
strcmp [] [] = cmp_byte 0 0
strcmp [] (b ∷ bs) = cmp_byte 0 b
strcmp (a ∷ as') [] = cmp_byte a 0
strcmp (a ∷ as') (b ∷ bs) =
    let rest = strcmp as' bs in if not (a == 0) && a == b then rest else cmp_byte a b

-- An assignment of `len` bytes at the same offset of both memories.
unfoldable pub copy_block : ℕ → ℕ → List ℕ → List ℕ → List ℕ
copy_block off len [] src = []
copy_block off len (d ∷ dest) [] = d ∷ dest
copy_block zero zero (d ∷ dest) (s ∷ src) = d ∷ dest
copy_block zero (suc len) (d ∷ dest) (s ∷ src) = s ∷ copy_block zero len dest src
copy_block (suc off) len (d ∷ dest) (s ∷ src) = d ∷ copy_block off len dest src

-- for (i = 0; i < qword_sz; i++) d[i] = s[i];
unfoldable pub copy_qwords : ℕ → List ℕ → List ℕ → List ℕ
copy_qwords zero dest src = dest
copy_qwords (suc i) dest src = copy_block (8 * i) 8 (copy_qwords i dest src) src

-- The copy of one remaining piece of `bit` bytes, if that bit of `n` is set: `n & ~(2 * bit - 1)` is
-- its offset.
unfoldable pub copy_piece : ℕ → ℕ → List ℕ → List ℕ → List ℕ
copy_piece n bit dest src =
    if n / bit % 2 == 1 then copy_block (n - n % (2 * bit)) bit dest src else dest

unfoldable pub memcpy : List ℕ → List ℕ → ℕ → List ℕ
memcpy dest src n =
    let words = copy_qwords (n / 8) dest src in
    let fours = copy_piece n 4 words src in
    let twos = copy_piece n 2 fours src in copy_piece n 1 twos src
