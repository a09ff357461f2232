-- ===== src/Sched/Advance/Rebase.antt =====
-- The view from a later instant: what lies behind it keeps its place.
use usfstl.Base.{ℕ, ◌+◌, ◌≤◌, ◌<◌, ◌≡◌, List, [], ◌∷◌, arith, All, All-map}
use usfstl.Time.{two64, sub64}
use usfstl.Time.Window.{IsWithin}
use usfstl.Sched.{Job}
use usfstl.Sched.Order.{Ahead, IsOrdered, IsNear}
use usfstl.Sched.Sound.{View, IsSound}

module _ (lo t : ℕ) (w : lo < two64) (ht : IsWithin lo t) where
  -- Distances shrink by the distance that the clock has gone.
  rebase : (x : ℕ) → IsWithin lo x → sub64 t lo ≤ sub64 x lo → sub64 x t + sub64 t lo ≡ sub64 x lo
  rebase x hx h = omega arith

  rebase-IsWithin : (x : ℕ) → IsWithin lo x → sub64 t lo ≤ sub64 x lo → IsWithin t x
  rebase-IsWithin x hx h = omega arith

  abbrev pub IsLater : Job → Type 0
  IsLater x = IsWithin lo x.start × (sub64 t lo ≤ sub64 x.start lo)

  rebase-Ahead : (a b : Job) → IsLater a → IsLater b → Ahead lo a b → Ahead t a b
  rebase-Ahead a b ha hb h = ground (arith, rebase a.start ha.0 ha.1, rebase b.start hb.0 hb.1)

  rebase-All :
      (js : ℕ → Job) (a : Job) (xs : List ℕ)
      → IsLater a
      → All (λ x. IsLater (js x)) xs
      → All (λ x. Ahead lo a (js x)) xs
      → All (λ x. Ahead t a (js x)) xs
  rebase-All js a [] ha l h = tt
  rebase-All js a (x ∷ xs) ha l h =
      (rebase-Ahead a (js x) ha l.0 h.0, rebase-All js a xs ha l.1 h.1)

  rebase-IsOrdered :
      (js : ℕ → Job) (xs : List ℕ)
      → All (λ x. IsLater (js x)) xs
      → IsOrdered lo js xs
      → IsOrdered t js xs
  rebase-IsOrdered js [] l h = tt
  rebase-IsOrdered js (x ∷ xs) l h =
      (rebase-All js (js x) xs l.0 l.1 h.0, rebase-IsOrdered js xs l.1 h.1)

  -- A scheduler whose jobs are all due at `t` or later is sound as seen from `t`.
  pub rebase-IsSound :
      (v : View) → All (λ x. IsLater (v.jobs x)) v.joblist → IsSound lo v → IsSound t v
  rebase-IsSound v l h = record {
    linked = record {
      distinct = h.linked.distinct;
      distinct_pending = h.linked.distinct_pending;
      apart = h.linked.apart;
      near = All-map _ _ v.joblist (λ x k. rebase-IsWithin (v.jobs x).start k.0 k.1) l;
      ordered = rebase-IsOrdered v.jobs v.joblist l h.linked.ordered;
      free = h.linked.free;
      free_pending = h.linked.free_pending;
    };
    unheld = h.unheld;
  }

-- All jobs behind the first of an ordered list are later than it.
pub IsLater-than_first :
    (lo : ℕ) (js : ℕ → Job) (w : lo < two64) (j : ℕ) (xs : List ℕ)
    → (n : IsNear lo js (j ∷ xs)) → All (λ x. Ahead lo (js j) (js x)) xs
    → All (λ x. IsLater lo (js j).start w n.0 (js x)) xs
IsLater-than_first lo js w j [] n o = tt
IsLater-than_first lo js w j (x ∷ xs) n o =
    ((n.1.0, ground (arith, o.0)), IsLater-than_first lo js w j xs (n.0, n.1.1) o.1)
