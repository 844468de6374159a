-- ===== src/Leaks/Tracing.antt =====
-- Calls of the allocator keep the counts of the backtraces (lib/leakwatch.c).
use tinu.Prelude.{
  ℕ, ◌+◌, ◌^◌, ◌<◌, ◌≡◌, ◌≢◌, refl, ap, ◌∙◌, Bool-cases, Option-cases, inl, inr, some, ◌==◌, ok,
  ◌>>=◌, bind_cong, arith,
}
use tinu.Leaks.{LeakwatchOperation, malloc, realloc, free}
use tinu.Leaks.Origins.{
  Memory, reference, unreference, TracedEntry, weight, TracedTable, insert_entry, remove_entry,
  traced_callback,
}
use tinu.Leaks.Held.{
  at, at_null, at_self, holds, IsCounted-cast, reference-Gives, unreference-Gives,
}
use tinu.Leaks.Keeping.{
  orphan, IsKept, Ends, insert_entry-Ends, remove_entry-Ends, found_origin, found_held, Ends-after,
  Ends-below,
}

module _ {T : Type 0} (table : TracedTable T) where
  malloc-Ends :
      (ptr size p : ℕ) (t : T) (memory : Memory) (n : ℕ)
      → p ≢ 0
      → n + 2 < 2 ^ 32
      → IsKept table t memory (at p) n
      → Ends table (traced_callback table (malloc ptr size) p (t, memory)) (at p) (n + 2)
  unfolding traced_callback
  malloc-Ends ptr size p t memory n nonzero small h =
      let e : TracedEntry = record { ptr = ptr; size = size; origin = p; last = 0 } in
      let (memory', run, h') =
        reference-Gives p memory _ n nonzero (omega (arith, at_self p nonzero)) (omega arith)
          h.counted in
      Ends-after table (reference p memory) _ (at p) (n + 2) run (
        Ends-below table _ (at p) (n + 1) (n + 2) (omega arith) (
          insert_entry-Ends table ptr e t memory' (at p) (n + 1) (ground (arith, nonzero))
            (omega arith)
            (record {
              counted = IsCounted-cast h' (λ q. omega (arith, at_null q)) (omega arith);
              origins = h.origins;
            })))

  -- A block that stays where it is.
  stay-Ends :
      (ptr size p : ℕ) (old : TracedEntry) (t : T) (memory : Memory) (n : ℕ)
      → p ≢ 0
      → n + 2 < 2 ^ 32
      → table.lookup t ptr ≡ some old
      → IsKept table t memory (at p) n
      → Ends table
          (do
            memory ← unreference old.last memory
            memory ← reference p memory
            ok (table.insert t ptr (record old { last = p; size = size }), memory))
          (at p)
          (n + 2)
  stay-Ends ptr size p old t memory n nonzero small there h =
      let new : TracedEntry = record old { last = p; size = size } in
      let (memory', run, h') =
        unreference-Gives old.last memory _ n
          (omega (arith, found_held table t ptr old old.last there)) (omega arith) h.counted in
      let (memory'', run', h'') =
        reference-Gives p memory' _ n nonzero
          (omega (arith, at_self p nonzero, found_held table t ptr old p there)) (omega arith) h' in
      Ends-after table (unreference old.last memory) _ (at p) (n + 2) run (
        Ends-after table (reference p memory') _ (at p) (n + 2) run' (
          table.insert t ptr new,
          memory'',
          refl,
          record {
            counted =
                IsCounted-cast h''
                  (λ q. omega (
                    arith,
                    found_held table t ptr old q there,
                    table.total-insert (holds q) t ptr new,
                  ))
                  (omega arith);
            origins = omega (
              arith,
              h.origins,
              ap (weight orphan) there,
              table.total-remove orphan t ptr,
              table.total-insert orphan t ptr new,
            );
          },
        ))

  -- A block that moves.
  move-Ends :
      (oldptr ptr size p : ℕ) (old : TracedEntry) (t : T) (memory : Memory) (n : ℕ)
      → p ≢ 0
      → n + 2 < 2 ^ 32
      → table.lookup t oldptr ≡ some old
      → IsKept table t memory (at p) n
      → Ends table
          (do
            memory ← reference old.origin memory
            memory ← reference p memory
            (t, memory) ← remove_entry table oldptr (t, memory)
            insert_entry table ptr
                (record { ptr = ptr; size = size; origin = old.origin; last = p })
                (t, memory))
          (at p)
          (n + 2)
  move-Ends oldptr ptr size p old t memory n nonzero small there h =
      let new : TracedEntry = record { ptr = ptr; size = size; origin = old.origin; last = p } in
      let alive = found_origin table t oldptr old there h.origins in
      let has : orphan new ≡ 0 = ground (arith, alive) in
      let (memory', run, h') =
        reference-Gives old.origin memory _ n alive
          (omega (arith, at_self old.origin alive, found_held table t oldptr old old.origin there))
          (omega arith) h.counted in
      let (memory'', run', h'') =
        reference-Gives p memory' _ (n + 1) nonzero (omega (arith, at_self p nonzero)) (omega arith)
          h' in
      let (t', memory3, run3, h3) =
        remove_entry-Ends table oldptr t memory'' (λ q. at p q + holds q new) (n + 1 + 1)
          (omega arith)
          (record {
            counted = IsCounted-cast h'' (λ q. omega arith) (omega arith);
            origins = h.origins;
          }) in
      let (t4, memory4, run4, h4) =
        insert_entry-Ends table ptr new t' memory3 (at p) (n + 1 + 1) has (omega arith) h3 in
      Ends-after table (reference old.origin memory) _ (at p) (n + 2) run (
        Ends-after table (reference p memory') _ (at p) (n + 2) run' (
          Ends-below table _ (at p) (n + 1 + 1) (n + 2) (omega arith)
            (t4, memory4, bind_cong run3 (λ q. refl) ∙ run4, h4)))

  pub callback-Ends :
      (op : LeakwatchOperation) (p : ℕ) (t : T) (memory : Memory) (n : ℕ)
      → p ≢ 0
      → n + 2 < 2 ^ 32
      → IsKept table t memory (at p) n
      → Ends table (traced_callback table op p (t, memory)) (at p) (n + 2)
  unfolding traced_callback
  callback-Ends (malloc ptr size) p t memory n nonzero small h =
      malloc-Ends ptr size p t memory n nonzero small h
  callback-Ends (free oldptr) p t memory n nonzero small h =
      Ends-below table _ (at p) n (n + 2) (omega arith)
        (remove_entry-Ends table oldptr t memory (at p) n (omega arith) h)
  callback-Ends (realloc oldptr ptr size) p t memory n nonzero small h =
      elim (Option-cases (table.lookup t oldptr)) [
        | inl gone ↦
            rw (gone, traced_callback)
              (Ends-below table (ok (t, memory)) (at p) n (n + 2) (omega arith)
                (t, memory, refl, h))
        | inr (old, there) ↦
            rw (there, traced_callback)
              (elim (Bool-cases (ptr == oldptr)) [
                | inl stays ↦
                    rw stays (stay-Ends oldptr size p old t memory n nonzero small there h)
                | inr moves ↦
                    rw moves (move-Ends oldptr ptr size p old t memory n nonzero small there h)
              ])
      ]
