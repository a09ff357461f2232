-- ===== src/Links.antt =====
-- include/usfstl/list.h: lists whose entries are linked in memory, in a ring through the list itself.
pub mod Segments
pub mod Ring
mod Tests
use usfstl.Base.{
  ℕ, zero, suc, ◌+◌, Bool, Option, none, some, ◌==◌, if◌then◌else◌, Result, ok, abort, ◌>>=◌,
}

-- The pointers of all entries, by their addresses; `none` is NULL.
pub record Heap : Type 0 where
  pub next : ℕ → Option ℕ
  pub prev : ℕ → Option ℕ

abbrev pub store : (ℕ → Option ℕ) → ℕ → Option ℕ → ℕ → Option ℕ
store f a v b = if a == b then v else f b

abbrev pub deref : Option ℕ → Result ℕ
deref none = abort "NULL"
deref (some a) = ok a

unfoldable pub list_init : Heap → ℕ → Heap
list_init h list = record {
  next = store h.next list (some list);
  prev = store h.prev list (some list);
}

-- The four writes of an insertion, `p` being existing->prev.
abbrev pub link_in : Heap → ℕ → ℕ → ℕ → Heap
link_in h p existing new = record {
  next = store (store h.next p (some new)) new (some existing);
  prev = store (store h.prev new (some p)) existing (some new);
}

unfoldable pub insert_before : Heap → ℕ → ℕ → Result Heap
insert_before h existing new = deref (h.prev existing) >>= λ p. ok (link_in h p existing new)

unfoldable pub append : Heap → ℕ → ℕ → Result Heap
unfolding insert_before
append h list new = insert_before h list new

abbrev pub list_empty : Heap → ℕ → Result Bool
list_empty h list = deref (h.next list) >>= λ n. ok (n == list)

-- usfstl_next_item; for the list itself it is usfstl_list_first_item.
unfoldable pub next_item : Heap → ℕ → ℕ → Result (Option ℕ)
next_item h list item = deref (h.next item) >>= λ n. ok (if n == list then none else some n)

-- The four writes of a removal, `p` and `n` being the neighbours.
abbrev pub link_out : Heap → ℕ → ℕ → ℕ → Heap
link_out h p entry n = record {
  next = store (store h.next p (some n)) entry none;
  prev = store (store h.prev n (some p)) entry none;
}

unfoldable pub item_remove : Heap → ℕ → Result Heap
item_remove h entry =
    deref (h.next entry) >>= λ n. deref (h.prev entry) >>= λ p. ok (link_out h p entry n)

-- The loop of usfstl_list_length, from an item on.
unfoldable pub count_items : ℕ → Heap → ℕ → ℕ → Result ℕ
count_items zero h list item = abort "out of fuel"
count_items (suc fuel) h list item =
    let rest = deref (h.next item) >>= λ n. count_items fuel h list n in
    if item == list then ok 0 else (rest >>= λ k. ok (suc k))

unfoldable pub list_length : ℕ → Heap → ℕ → Result ℕ
unfolding count_items
list_length fuel h list = deref (h.next list) >>= λ n. count_items fuel h list n
