-- ===== src/Links/Segments.antt =====
-- Segments of a ring of entries, and how the writes of an insertion and a removal change them.
use usfstl.Base.{
  ℕ, ◌≡◌, refl, ◌∙◌, arith, true, false, some, List, [], ◌∷◌, ◌++◌, mem, Distinct, ◌==◌, ==_refl,
}
use usfstl.Links.{Heap, link_in, link_out}

-- The entries `xs` lead from `a` to `b`, both ways.
abbrev pub Segment : Heap → ℕ → List ℕ → ℕ → Type 0
Segment h a [] b = (h.next a ≡ some b) × (h.prev b ≡ some a)
Segment h a (x ∷ xs) b = (h.next a ≡ some x) × (h.prev x ≡ some a) × Segment h x xs b

abbrev pub last_of : ℕ → List ℕ → ℕ
last_of a [] = a
last_of a (x ∷ xs) = last_of x xs

abbrev pub first_of : List ℕ → ℕ → ℕ
first_of [] b = b
first_of (x ∷ xs) b = x

pub mem-last_of : (a : ℕ) (xs : List ℕ) → mem (last_of a xs) (a ∷ xs) ≡ true
mem-last_of a [] = rw (==_refl a) refl
mem-last_of a (x ∷ xs) = ground (arith, mem-last_of x xs)

module _ (h : Heap) where
  pub prev_last : (a : ℕ) (xs : List ℕ) (b : ℕ) → Segment h a xs b → h.prev b ≡ some (last_of a xs)
  prev_last a [] b s = s.1
  prev_last a (x ∷ xs) b s = prev_last x xs b s.2

  pub next_first :
      (a : ℕ) (xs : List ℕ) (b : ℕ) → Segment h a xs b → h.next a ≡ some (first_of xs b)
  next_first a [] b s = s.0
  next_first a (x ∷ xs) b s = s.0

  pub split :
      (a : ℕ) (xs : List ℕ) (e : ℕ) (ys : List ℕ) (b : ℕ)
      → Segment h a (xs ++ e ∷ ys) b
      → Segment h a xs e × Segment h e ys b
  split a [] e ys b s = ((s.0, s.1), s.2)
  split a (x ∷ xs) e ys b s = let r = split x xs e ys b s.2 in ((s.0, s.1, r.0), r.1)

  pub join :
      (a : ℕ) (xs : List ℕ) (e : ℕ) (ys : List ℕ) (b : ℕ)
      → Segment h a xs e
      → Segment h e ys b
      → Segment h a (xs ++ e ∷ ys) b
  join a [] e ys b s t = (s.0, s.1, t)
  join a (x ∷ xs) e ys b s t = (s.0, s.1, join x xs e ys b s.2 t)

  -- Pointers outside of a segment do not matter to it.
  pub frame :
      (h' : Heap) (a : ℕ) (xs : List ℕ) (b : ℕ)
      → ((c : ℕ) → mem c (a ∷ xs) ≡ true → h'.next c ≡ h.next c)
      → ((c : ℕ) → mem c (xs ++ b ∷ []) ≡ true → h'.prev c ≡ h.prev c)
      → Segment h a xs b
      → Segment h' a xs b
  frame h' a [] b f g s = (f a (rw (==_refl a) refl) ∙ s.0, g b (rw (==_refl b) refl) ∙ s.1)
  frame h' a (x ∷ xs) b f g s = (
    f a (rw (==_refl a) refl) ∙ s.0,
    g x (rw (==_refl x) refl) ∙ s.1,
    frame h' x xs b (λ c m. f c (ground (arith, m))) (λ c m. g c (ground (arith, m))) s.2,
  )

  -- An entry is put at the end of a segment.
  pub Segment-link_in :
      (a : ℕ) (xs : List ℕ) (b new p : ℕ)
      → p ≡ last_of a xs
      → Segment h a xs b
      → Distinct (a ∷ xs)
      → mem new (a ∷ xs) ≡ false
      → (b == new) ≡ false
      → mem b xs ≡ false
      → Segment (link_in h p b new) a (xs ++ new ∷ []) b
  Segment-link_in a [] b new p e s d m n o = ground (arith, e, ==_refl new)
  Segment-link_in a (x ∷ xs) b new p e s d m n o = (
    ground (arith, s.0, e, mem-last_of x xs, d.0),
    ground (arith, s.1),
    Segment-link_in x xs b new p e s.2 d.1 (ground arith) n (ground arith),
  )

  -- The end of a segment is taken out, and `n` is the new end.
  pub Segment-link_out :
      (a : ℕ) (xs : List ℕ) (e n p : ℕ)
      → p ≡ last_of a xs
      → Segment h a xs e
      → Distinct (a ∷ xs)
      → mem e (a ∷ xs) ≡ false
      → (e == n) ≡ false
      → mem n xs ≡ false
      → Segment (link_out h p e n) a xs n
  Segment-link_out a [] e n p q s d m k o = ground (arith, q)
  Segment-link_out a (x ∷ xs) e n p q s d m k o = (
    ground (arith, s.0, q, mem-last_of x xs, d.0),
    ground (arith, s.1),
    Segment-link_out x xs e n p q s.2 d.1 (ground arith) k (ground arith),
  )
