-- ===== src/Strings/Copy.antt =====
-- memcpy, word by word and then in pieces, copies exactly the first n bytes.
use usfstl.Base.{
  ℕ, zero, suc, ◌+◌, ◌-◌, ◌*◌, ◌/◌, ◌%◌, ◌≤◌, ◌⊎◌, ◌≡◌, refl, ap, ◌∙◌, inl, inr, true, false, List,
  [], ◌∷◌, ◌++◌, arith, length, take, drop, Bool-cases, ◌==◌,
}
use usfstl.Strings.{copy_block, copy_qwords, copy_piece, memcpy}

-- The memory when the first k bytes have been copied.
abbrev pub copied : ℕ → List ℕ → List ℕ → List ℕ
copied k dest src = take k src ++ drop k dest

copied_at : (a b : ℕ) (dest src : List ℕ) → a ≡ b → copied a dest src ≡ copied b dest src
copied_at a b dest src e = ap (λ (o : ℕ). copied o dest src) e

zero_left : (a b : ℕ) → a + b ≤ 0 → a ≡ 0
zero_left a b h = omega arith

zero_right : (a b : ℕ) → a + b ≤ 0 → b ≡ 0
zero_right a b h = omega arith

-- A block that starts where the copy has come to carries it on.
copy_block-copied :
    (off len : ℕ) (dest src : List ℕ)
    → off + len ≤ length dest
    → off + len ≤ length src
    → copy_block off len (copied off dest src) src ≡ copied (off + len) dest src
unfolding copy_block
copy_block-copied off len [] src h k = rw (zero_left off len h, zero_right off len h) refl
copy_block-copied off len (d ∷ dest) [] h k = rw (zero_left off len k, zero_right off len k) refl
copy_block-copied zero zero (d ∷ dest) (s ∷ src) h k = refl
copy_block-copied zero (suc len) (d ∷ dest) (s ∷ src) h k =
    ap (λ (l : List ℕ). s ∷ l) (copy_block-copied 0 len dest src (omega arith) (omega arith))
    ∙ copied_at (suc (0 + len)) (0 + suc len) (d ∷ dest) (s ∷ src) (omega arith)
copy_block-copied (suc off) len (d ∷ dest) (s ∷ src) h k =
    ap (λ (l : List ℕ). s ∷ l) (copy_block-copied off len dest src (omega arith) (omega arith))
    ∙ copied_at (suc (off + len)) (suc off + len) (d ∷ dest) (s ∷ src) (omega arith)

copy_qwords-copied :
    (i : ℕ) (dest src : List ℕ)
    → 8 * i ≤ length dest
    → 8 * i ≤ length src
    → copy_qwords i dest src ≡ copied (8 * i) dest src
unfolding copy_qwords
copy_qwords-copied zero dest src h k = refl
copy_qwords-copied (suc i) dest src h k =
    ap (λ (l : List ℕ). copy_block (8 * i) 8 l src)
      (copy_qwords-copied i dest src (omega arith) (omega arith))
    ∙ copy_block-copied (8 * i) 8 dest src (omega arith) (omega arith)
    ∙ copied_at (8 * i + 8) (8 * suc i) dest src (omega arith)

piece_step :
    (n b : ℕ) (dest src : List ℕ)
    → n ≤ length dest
    → n ≤ length src
    → ((n / b % 2 == 1) ≡ true → n - n % (2 * b) + b ≡ n - n % b)
    → ((n / b % 2 == 1) ≡ false → n - n % (2 * b) ≡ n - n % b)
    → copy_piece n b (copied (n - n % (2 * b)) dest src) src ≡ copied (n - n % b) dest src
unfolding copy_piece
piece_step n b dest src h k e f = elim (Bool-cases (n / b % 2 == 1)) [
  | inl t ↦ rw t (
      copy_block-copied (n - n % (2 * b)) b dest src (ground (arith, e t)) (ground (arith, e t))
      ∙ copied_at (n - n % (2 * b) + b) (n - n % b) dest src (e t))
  | inr t ↦ rw t (copied_at (n - n % (2 * b)) (n - n % b) dest src (f t))
]

-- One piece carries the copy on from the part of n above the piece's bit to the part from it.
copy_piece-copied :
    (n b : ℕ) (dest src : List ℕ)
    → n ≤ length dest
    → n ≤ length src
    → (b ≡ 1) ⊎ (b ≡ 2) ⊎ (b ≡ 4)
    → copy_piece n b (copied (n - n % (2 * b)) dest src) src ≡ copied (n - n % b) dest src
unfolding copy_piece
copy_piece-copied n b dest src h k (inl e) =
    rw e
      (piece_step n 1 dest src (omega arith) (omega arith) (λ t. ground arith) (λ f. ground arith))
copy_piece-copied n b dest src h k (inr (inl e)) =
    rw e
      (piece_step n 2 dest src (omega arith) (omega arith) (λ t. ground arith) (λ f. ground arith))
copy_piece-copied n b dest src h k (inr (inr e)) =
    rw e
      (piece_step n 4 dest src (omega arith) (omega arith) (λ t. ground arith) (λ f. ground arith))

-- When n bytes of both memories are there, exactly the first n bytes are copied, whatever n is.
pub memcpy-copied :
    (dest src : List ℕ) (n : ℕ)
    → n ≤ length dest
    → n ≤ length src
    → memcpy dest src n ≡ copied n dest src
unfolding memcpy
memcpy-copied dest src n h k =
    ap (λ (l : List ℕ). copy_piece n 1 (copy_piece n 2 (copy_piece n 4 l src) src) src)
      (copy_qwords-copied (n / 8) dest src (omega arith) (omega arith)
        ∙ copied_at (8 * (n / 8)) (n - n % (2 * 4)) dest src (omega arith))
    ∙ ap (λ (l : List ℕ). copy_piece n 1 (copy_piece n 2 l src) src)
        (copy_piece-copied n 4 dest src h k (inr (inr refl)))
    ∙ ap (λ (l : List ℕ). copy_piece n 1 l src)
        (copy_piece-copied n 2 dest src h k (inr (inl refl)))
    ∙ copy_piece-copied n 1 dest src h k (inl refl)
    ∙ copied_at (n - n % 1) n dest src (omega arith)
