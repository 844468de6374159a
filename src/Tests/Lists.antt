-- ===== src/Tests/Lists.antt =====
-- lib/clist.c at a ring of three nodes.
use tinu.Prelude.{ℕ, ◌≡◌, refl, ◌≢◌, [], ◌∷◌, some, none, Bool, true, ok, arith, ◌+◌, ltb}
use tinu.CList.{clist_append, clist_remove, clist_destroy}
use tinu.CList.Heap.{Ptr, node, Store, write}
use tinu.CList.Ring.{Cells, IsRing, has}
use tinu.CList.Grow.{Appended, clist_append-ring}
use tinu.CList.Shrink.{Removed, clist_remove-ring, clist_destroy_leaks}

abbrev store : Store
store = record {
  cell =
      write (write (write (λ p. none) 1 (some (node 10 2 3))) 2 (some (node 20 3 1))) 3
        (some (node 30 1 2));
  destroyed = [];
}

abbrev cells : Cells
cells = (1, 10) ∷ (2, 20) ∷ (3, 30) ∷ []

store-IsRing : IsRing store.cell cells
unfolding write
store-IsRing = record {
  linked = (omega arith, refl, (omega arith, refl, (omega arith, refl, tt)));
  apart = (refl, (refl, (refl, tt)));
}

clist_append-ring_example :
    (s : Store) × (clist_append 4 1 40 store ≡ ok (1, s)) × Appended store s cells 4 40
clist_append-ring_example = clist_append-ring store 4 40 cells (omega arith) refl store-IsRing

clist_remove-ring_example :
    (s : Store) × (clist_remove 1 true store ≡ ok (2, s))
    × Removed store s 1 10 ((2, 20) ∷ (3, 30) ∷ []) true
clist_remove-ring_example = clist_remove-ring store 1 10 ((2, 20) ∷ (3, 30) ∷ []) true store-IsRing

clist_destroy_leaks_example :
    (s : Store) × (clist_destroy 9 1 true store ≡ ok (tt, s))
    × (s.destroyed ≡ 10 ∷ [])
    × (s.cell 1 ≡ none)
    × ((a : Ptr)
        → has a ((2, 20) ∷ (3, 30) ∷ []) ≡ true
        → (s.cell a ≡ store.cell a) × (s.cell a ≢ none))
clist_destroy_leaks_example =
    clist_destroy_leaks store 8 1 10 ((2, 20) ∷ (3, 30) ∷ []) true store-IsRing

-- Adds the data up, and stops after the first that exceeds 15.
abbrev adding : ℕ → ℕ → ℕ × Bool
adding v w = (w + v, ltb v 15)
