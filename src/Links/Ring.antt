-- ===== src/Links/Ring.antt =====
-- The linked lists in memory implement lists of entries.
use usfstl.Base.{
  ℕ, zero, suc, ◌≡◌, ◌<◌, refl, sym, subst, arith, true, false, none, List, [], ◌∷◌, ◌++◌, length,
  head?, mem, mem-append, Distinct, Distinct-snoc, Distinct-middle, ◌==◌, ==_refl, ==→eq, ok,
  Returns, ◌>>=◌,
}
use mathlib.Core.List.{append_assoc, append-nil}
use usfstl.Links.{
  Heap, deref, link_in, link_out, insert_before, append, item_remove, count_items, next_item,
  list_length,
}
use usfstl.Links.Segments.{
  Segment, last_of, first_of, mem-last_of, prev_last, next_first, split, join, frame,
  Segment-link_in, Segment-link_out,
}

-- The list at `list` has the entries `xs`.
pub record IsRing (h : Heap) (list : ℕ) (xs : List ℕ) : Type 0 where
  pub ring : Segment h list xs list
  pub distinct : Distinct (list ∷ xs)

Distinct-insert :
    (xs : List ℕ) (new : ℕ) (ys : List ℕ)
    → Distinct (xs ++ ys)
    → mem new (xs ++ ys) ≡ false
    → Distinct (xs ++ new ∷ ys)
Distinct-insert [] new ys d m = (m, d)
Distinct-insert (x ∷ xs) new ys d m =
    ground
      (arith, d.0, mem-append x xs ys, mem-append x xs (new ∷ ys), Distinct-insert xs new ys d.1, m)

count_lem :
    (h : Heap) (list a : ℕ) (xs : List ℕ) (fuel : ℕ)
    → Segment h a xs list
    → mem list xs ≡ false
    → length xs < fuel
    → (deref (h.next a) >>= λ n. count_items fuel h list n) ≡ ok (length xs)
unfolding count_items
count_lem h list a xs zero s m k = absurd (omega arith)
count_lem h list a [] (suc fuel) s m k = rw (s.0, ==_refl list) refl
count_lem h list a (x ∷ xs) (suc fuel) s m k =
    let e : (x == list) ≡ false = ground arith in
    rw (s.0, e, count_lem h list x xs fuel s.2 (ground arith) (omega arith)) refl

apart :
    (xs : List ℕ) (e : ℕ) (ys : List ℕ) (c : ℕ)
    → Distinct (xs ++ e ∷ ys)
    → mem c (e ∷ ys) ≡ true
    → mem c xs ≡ false
apart [] e ys c d m = refl
apart (x ∷ xs) e ys c d m =
    ground (arith, apart xs e ys c d.1 m, d.0, mem-append x xs (e ∷ ys), ==→eq x c)

Distinct-prefix : (xs ys : List ℕ) → Distinct (xs ++ ys) → Distinct xs
Distinct-prefix [] ys d = tt
Distinct-prefix (x ∷ xs) ys d = ground (arith, Distinct-prefix xs ys d.1, mem-append x xs ys)

append-IsRing :
    (h : Heap) (list : ℕ) (zs : List ℕ)
    → IsRing h list zs
    → (new : ℕ) → mem new (list ∷ zs) ≡ false
    → Returns (append h list new) (λ h'. IsRing h' list (zs ++ new ∷ []))
unfolding append
append-IsRing h list zs r new m = rw (prev_last h list zs list r.ring) (record {
  ring =
      Segment-link_in h list zs list new (last_of list zs) refl r.ring r.distinct m
        (ground (arith, m)) r.distinct.0;
  distinct = Distinct-snoc new (list ∷ zs) m r.distinct;
})

first_item_lem :
    (h : Heap) (list : ℕ) (zs : List ℕ) → IsRing h list zs → next_item h list list ≡ ok (head? zs)
unfolding next_item
first_item_lem h list [] r = rw (r.ring.0, ==_refl list) refl
first_item_lem h list (z ∷ zs) r =
    let e : (z == list) ≡ false = ground (arith, r.distinct.0) in rw (r.ring.0, e) refl

removed_ring :
    (h : Heap) (list : ℕ) (xs : List ℕ) (entry : ℕ) (ys : List ℕ)
    → Segment h list xs entry
    → Segment h entry ys list
    → Distinct (list ∷ (xs ++ entry ∷ ys))
    → Segment (link_out h (last_of list xs) entry (first_of ys list)) list (xs ++ ys) list
removed_ring h list xs entry [] s t d =
    let m = Distinct-middle (list ∷ xs) entry [] d in
    let h' = link_out h (last_of list xs) entry list in
    subst (λ zs. Segment h' list zs list) (sym (append-nil xs))
      (Segment-link_out h list xs entry list (last_of list xs) refl s
        (Distinct-prefix (list ∷ xs) (entry ∷ []) d) m.0 (ground (arith, m.0))
        (ground (arith, d.0, mem-append list xs (entry ∷ []))))
removed_ring h list xs entry (y ∷ ys) s t d =
    let m = Distinct-middle (list ∷ xs) entry (y ∷ ys) d in
    let k = Distinct-middle (list ∷ xs) y ys m.2 in
    let p = last_of list xs in
    let h' = link_out h p entry y in
    join h' list xs y ys list
      (Segment-link_out h list xs entry y p refl s (Distinct-prefix (list ∷ xs) (entry ∷ y ∷ ys) d)
        m.0 (ground (arith, m.1)) (ground (arith, k.0)))
      (frame h h' y ys list
        (λ c l. ground (
          arith,
          l,
          m.1,
          apart (list ∷ xs) y ys c m.2 l,
          mem-last_of list xs,
          ==→eq p c,
          ==→eq entry c,
        ))
        (λ c l.
          ground
            (arith, l, m.0, m.1, k.0, k.1, mem-append c ys (list ∷ []), ==→eq entry c, ==→eq y c))
        t.2)

module _ (h : Heap) (list : ℕ) (xs : List ℕ) (entry : ℕ) (ys : List ℕ)
    (r : IsRing h list (xs ++ entry ∷ ys)) where
  parts : Segment h list xs entry × Segment h entry ys list
  parts = split h list xs entry ys list r.ring

  middle : (mem entry (list ∷ xs) ≡ false) × (mem entry ys ≡ false) × Distinct (list ∷ (xs ++ ys))
  middle = Distinct-middle (list ∷ xs) entry ys r.distinct

  before : Distinct (list ∷ xs)
  before = Distinct-prefix (list ∷ xs) (entry ∷ ys) r.distinct

  inserted :
      (new : ℕ)
      → mem new (list ∷ (xs ++ entry ∷ ys)) ≡ false
      → Returns (insert_before h entry new) (λ h'. IsRing h' list (xs ++ new ∷ entry ∷ ys))
  unfolding insert_before
  inserted new m =
      let p = last_of list xs in
      let h' = link_in h p entry new in
      let n = mem-append new xs (entry ∷ ys) in
      rw (prev_last h list xs entry parts.0) (record {
        ring =
            subst (λ zs. Segment h' list zs list) (append_assoc xs (new ∷ []) (entry ∷ ys))
              (join h' list (xs ++ new ∷ []) entry ys list
                (Segment-link_in h list xs entry new p refl parts.0 before (ground (arith, n, m))
                  (ground (arith, n, m)) (ground (arith, middle.0)))
                (frame h h' entry ys list
                  (λ c k. ground (
                    arith,
                    n,
                    m,
                    k,
                    apart (list ∷ xs) entry ys c r.distinct k,
                    mem-last_of list xs,
                    ==→eq p c,
                    ==→eq new c,
                  ))
                  (λ c k. ground (
                    arith,
                    n,
                    m,
                    k,
                    mem-append c ys (list ∷ []),
                    middle.0,
                    middle.1,
                    ==→eq entry c,
                    ==→eq new c,
                  ))
                  parts.1));
        distinct = Distinct-insert (list ∷ xs) new (entry ∷ ys) r.distinct m;
      })

  removed :
      Returns
        (item_remove h entry)
        (λ h'. IsRing h' list (xs ++ ys) × (h'.next entry ≡ none) × (h'.prev entry ≡ none))
  unfolding item_remove
  removed =
      rw (next_first h entry ys list parts.1, prev_last h list xs entry parts.0)
        (
          record {
            ring = removed_ring h list xs entry ys parts.0 parts.1 r.distinct;
            distinct = middle.2;
          },
          rw (==_refl entry) refl,
          rw (==_refl entry) refl,
        )

  -- On a list in memory that has the entries `xs`, then `entry`, then `ys`, and for an address that is
  -- none of them: inserting it before `entry` and appending it change the entries just so; removing
  -- `entry` leaves the others in their order and clears its pointers; the first item is the first entry,
  -- and for more fuel than entries the length is their number.
  pub list_refines :
      (new fuel : ℕ)
      → mem new (list ∷ (xs ++ entry ∷ ys)) ≡ false
      → length (xs ++ entry ∷ ys) < fuel
      → Returns (insert_before h entry new) (λ h'. IsRing h' list (xs ++ new ∷ entry ∷ ys))
        × Returns (append h list new) (λ h'. IsRing h' list ((xs ++ entry ∷ ys) ++ new ∷ []))
        × Returns
            (item_remove h entry)
            (λ h'. IsRing h' list (xs ++ ys) × (h'.next entry ≡ none) × (h'.prev entry ≡ none))
        × (next_item h list list ≡ ok (head? (xs ++ entry ∷ ys)))
        × (list_length fuel h list ≡ ok (length (xs ++ entry ∷ ys)))
  unfolding list_length
  list_refines new fuel m k = (
    inserted new m,
    append-IsRing h list (xs ++ entry ∷ ys) r new m,
    removed,
    first_item_lem h list (xs ++ entry ∷ ys) r,
    count_lem h list list (xs ++ entry ∷ ys) fuel r.ring r.distinct.0 k,
  )
