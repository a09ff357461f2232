-- ===== src/Vhost/Iov/Copies.antt =====
-- The copies meet the view of a scatter-gather list as the one sequence of its bytes.
use usfstl.Base.{
  ℕ, zero, suc, ◌-◌, ◌≤◌, ◌<◌, ◌≡◌, refl, sym, ◌∙◌, arith, inl, inr, List, [], ◌∷◌, ◌++◌, length,
  take, drop, length-append, take-append, drop-append, take_all, drop_all, take_nil, take_add,
  length-drop, ◌⊎◌, false, ◌==◌,
}
use mathlib.Core.List.{append_assoc, append-nil}
use usfstl.Vhost.Iov.{min, iov_len, iov_fill, iov_read}

-- The bytes of all elements in a row.
abbrev pub bytes_of : List (List ℕ) → List ℕ
bytes_of [] = []
bytes_of (sg ∷ sgs) = sg ++ bytes_of sgs

min_lem : (a b : ℕ) → (min a b ≡ a) × (a ≤ b) ⊎ ((min a b ≡ b) × (b ≤ a))
min_lem a b = ground arith

nonzero : (n : ℕ) → (n == 0) ≡ false → 0 < n
nonzero n h = ground arith

positive : (n : ℕ) → (suc n == 0) ≡ false
positive n = ground arith

take-min : (n : ℕ) (xs : List ℕ) → take (min n (length xs)) xs ≡ take n xs
take-min n xs = elim (min_lem n (length xs)) [
  | inl h ↦ rw h.0 refl
  | inr h ↦ rw h.0 (take_all (length xs) xs (omega arith) ∙ sym (take_all n xs h.1))
]

drop-min : (n : ℕ) (xs : List ℕ) → drop (min n (length xs)) xs ≡ drop n xs
drop-min n xs = elim (min_lem n (length xs)) [
  | inl h ↦ rw h.0 refl
  | inr h ↦ rw h.0 (drop_all (length xs) xs (omega arith) ∙ sym (drop_all n xs h.1))
]

less_min : (n m : ℕ) → n - min n m ≡ n - m
less_min n m = ground arith

-- Reading gives the first bytes of the row, as many as there are.
iov_read_lem : (n : ℕ) (sgs : List (List ℕ)) → iov_read n sgs ≡ take n (bytes_of sgs)
unfolding iov_read
iov_read_lem zero [] = refl
iov_read_lem (suc n) [] = refl
iov_read_lem zero (sg ∷ sgs) = refl
iov_read_lem (suc n) (sg ∷ sgs) =
    rw
      (
        positive n,
        take-min (suc n) sg,
        less_min (suc n) (length sg),
        iov_read_lem (suc n - length sg) sgs,
      )
      (sym (take-append (suc n) sg (bytes_of sgs)))

iov_len_lem : (sgs : List (List ℕ)) → iov_len sgs ≡ length (bytes_of sgs)
unfolding iov_len
iov_len_lem [] = refl
iov_len_lem (sg ∷ sgs) = omega (arith, iov_len_lem sgs, length-append sg (bytes_of sgs))

none_left : (n m : ℕ) → n ≤ m → n - m ≡ 0
none_left n m h = omega arith

fill_step :
    (sg buf row filled : List ℕ)
    → filled
      ≡ take (length row) (drop (min (length buf) (length sg)) buf)
        ++ drop (length (drop (min (length buf) (length sg)) buf)) row
    → (take (min (length buf) (length sg)) buf ++ drop (min (length buf) (length sg)) sg) ++ filled
      ≡ take (length (sg ++ row)) buf ++ drop (length buf) (sg ++ row)
fill_step sg buf row filled e = elim (min_lem (length buf) (length sg)) [
  | inl h ↦
      rw
        (
          e,
          h.0,
          take_all (length buf) buf (omega arith),
          drop_all (length buf) buf (omega arith),
          take_nil (length row),
          take_all (length (sg ++ row)) buf (omega (arith, length-append sg row)),
          drop-append (length buf) sg row,
          none_left (length buf) (length sg) h.1,
        )
        (append_assoc buf (drop (length buf) sg) row)
  | inr h ↦
      rw
        (
          e,
          h.0,
          drop_all (length sg) sg (omega arith),
          append-nil (take (length sg) buf),
          length-drop (length sg) buf,
          length-append sg row,
          take_add (length sg) (length row) buf,
          drop-append (length buf) sg row,
          drop_all (length buf) sg h.1,
        )
        (sym (
          append_assoc (take (length sg) buf) (take (length row) (drop (length sg) buf))
            (drop (length buf - length sg) row)))
]

-- Filling writes the buffer over the first bytes of the row and leaves the others.
abbrev pub Filled : List (List ℕ) → List ℕ → List (List ℕ) × ℕ → Type 0
Filled sgs buf r =
    (bytes_of r.0 ≡ take (length (bytes_of sgs)) buf ++ drop (length buf) (bytes_of sgs))
    × (r.1 ≡ min (length buf) (iov_len sgs))

iov_fill_lem : (sgs : List (List ℕ)) (buf : List ℕ) → Filled sgs buf (iov_fill sgs buf)
unfolding iov_fill iov_len
iov_fill_lem [] [] = (refl, refl)
iov_fill_lem [] (b ∷ buf) = (refl, ground arith)
iov_fill_lem (sg ∷ sgs) [] = (rw (take_nil (length (sg ++ bytes_of sgs))) refl, ground arith)
iov_fill_lem (sg ∷ sgs) (b ∷ buf) =
    let ih = iov_fill_lem sgs (drop (min (length (b ∷ buf)) (length sg)) (b ∷ buf)) in
    rw (positive (length buf)) (
      fill_step sg (b ∷ buf) (bytes_of sgs) _ ih.0,
      ground (arith, ih.1, length-drop (min (length (b ∷ buf)) (length sg)) (b ∷ buf)),
    )

-- What was filled in can be read back, and the elements keep their total size.
pub iov_read-iov_fill :
    (sgs : List (List ℕ)) (buf : List ℕ) (n : ℕ)
    → length buf ≤ iov_len sgs
    → n ≤ length buf
    → (iov_read n (iov_fill sgs buf).0 ≡ take n buf)
      × ((iov_fill sgs buf).1 ≡ length buf)
      × (drop (length buf) (bytes_of (iov_fill sgs buf).0) ≡ drop (length buf) (bytes_of sgs))
iov_read-iov_fill sgs buf n h k =
    let f = iov_fill_lem sgs buf in
    let all = take_all (length (bytes_of sgs)) buf (omega (arith, iov_len_lem sgs)) in
    (
      iov_read_lem n (iov_fill sgs buf).0
          ∙ rw
              (
                f.0,
                all,
                take-append n buf (drop (length buf) (bytes_of sgs)),
                none_left n (length buf) k,
              )
              (append-nil (take n buf)),
      ground (arith, f.1),
      rw
          (
            f.0,
            all,
            drop-append (length buf) buf (drop (length buf) (bytes_of sgs)),
            drop_all (length buf) buf (omega arith),
            none_left (length buf) (length buf) (omega arith),
          )
          refl,
    )
