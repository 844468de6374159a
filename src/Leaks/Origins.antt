-- ===== src/Leaks/Origins.antt =====
-- The backtraces that the entries of a watch's table hold (lib/leakwatch.c). A pointer to a
-- backtrace is its address, 0 for NULL; the memory has `none` where no backtrace lives.
use tinu.Prelude.{
  ℕ, ◌+◌, ◌≡◌, Option, none, some, List, [], ◌∷◌, ◌==◌, if◌then◌else◌, Outcome, ok, crash, ◌>>=◌,
}
use tinu.Backtrace.{Backtrace, backtrace_reference, backtrace_unreference}
use tinu.Leaks.{LeakwatchOperation, malloc, realloc, free}

-- What was written, newest first.
abbrev pub Memory : Type 0
Memory = List (ℕ × Option Backtrace)

unfoldable pub load : Memory → ℕ → Option Backtrace
load [] q = none
load (cell ∷ memory) q = if cell.0 == q then cell.1 else load memory q

unfoldable pub store : ℕ → Option Backtrace → Memory → Memory
store p cell memory = (p, cell) ∷ memory

unfoldable pub reference : ℕ → Memory → Outcome Memory
unfolding load store
reference p memory =
    if p == 0
    then crash
    else (do cell ← backtrace_reference (load memory p); ok (store p cell memory))

unfoldable pub unreference : ℕ → Memory → Outcome Memory
unfolding load store
unreference p memory =
    if p == 0
    then ok memory
    else (do cell ← backtrace_unreference (load memory p); ok (store p cell memory))

-- MemoryEntry, with its backtraces.
pub record TracedEntry : Type 0 where
  pub ptr : ℕ
  pub size : ℕ
  pub origin : ℕ
  pub last : ℕ

unfoldable pub total : {A : Type 0} → (A → ℕ) → List A → ℕ
total f [] = 0
total f (x ∷ xs) = f x + total f xs

abbrev pub weight : {A : Type 0} → (A → ℕ) → Option A → ℕ
weight f none = 0
weight f (some x) = f x

-- GLib's hash table from pointers to entries, as its documentation describes it: the loop over the
-- table (`entries`) meets the entry of each key once, so that removing a key takes its entry out
-- of every sum, and inserting under a key puts the new one in.
pub record TracedTable (T : Type 0) : Type 0 where
  pub empty : T
  pub insert : T → ℕ → TracedEntry → T
  pub remove : T → ℕ → T
  pub lookup : T → ℕ → Option TracedEntry
  pub entries : T → List TracedEntry
  pub entries-empty : entries empty ≡ []
  pub total-remove :
      (f : TracedEntry → ℕ) (t : T) (p : ℕ)
      → total f (entries t) ≡ weight f (lookup t p) + total f (entries (remove t p))
  pub total-insert :
      (f : TracedEntry → ℕ) (t : T) (p : ℕ) (e : TracedEntry)
      → total f (entries (insert t p e)) ≡ f e + total f (entries (remove t p))

-- `_memory_entry_destroy`
unfoldable pub memory_entry_destroy : TracedEntry → Memory → Outcome Memory
unfolding unreference
memory_entry_destroy self memory = do
  memory ← unreference self.origin memory
  unreference self.last memory

-- The destroy function of the table for an entry that a key loses.
unfoldable pub drop_entry : Option TracedEntry → Memory → Outcome Memory
unfolding memory_entry_destroy
drop_entry none memory = ok memory
drop_entry (some entry) memory = memory_entry_destroy entry memory

module _ {T : Type 0} (table : TracedTable T) where
  -- `g_hash_table_insert` and `g_hash_table_remove` with that destroy function.
  unfoldable pub insert_entry : ℕ → TracedEntry → T × Memory → Outcome (T × Memory)
  unfolding drop_entry
  insert_entry p entry (self, memory) = do
    memory ← drop_entry (table.lookup self p) memory
    ok (table.insert self p entry, memory)

  unfoldable pub remove_entry : ℕ → T × Memory → Outcome (T × Memory)
  unfolding drop_entry
  remove_entry p (self, memory) = do
    memory ← drop_entry (table.lookup self p) memory
    ok (table.remove self p, memory)

  -- `_tinu_leakwatch_simple_callback` with the backtrace at `trace`; t_new clears what it
  -- allocates.
  unfoldable pub traced_callback : LeakwatchOperation → ℕ → T × Memory → Outcome (T × Memory)
  unfolding insert_entry remove_entry reference unreference
  traced_callback (malloc ptr size) trace (self, memory) = do
    memory ← reference trace memory
    insert_entry ptr (record { ptr = ptr; size = size; origin = trace; last = 0 }) (self, memory)
  traced_callback (realloc oldptr ptr size) trace (self, memory) = elim (table.lookup self oldptr) [
    | none ↦ ok (self, memory)
    | some oldentry ↦
        if ptr == oldptr
        then (do
          memory ← unreference oldentry.last memory
          memory ← reference trace memory
          ok (table.insert self oldptr (record oldentry { last = trace; size = size }), memory))
        else (do
          memory ← reference oldentry.origin memory
          memory ← reference trace memory
          (self, memory) ← remove_entry oldptr (self, memory)
          insert_entry ptr
              (record { ptr = ptr; size = size; origin = oldentry.origin; last = trace })
              (self, memory))
  ]
  traced_callback (free oldptr) trace (self, memory) = remove_entry oldptr (self, memory)

  -- `_leakwatch_alert` for the watch of the table; `alloc` is the address that t_new gives the
  -- backtrace `trace`, with a count of 1.
  module _ (alloc : Memory → ℕ) where
    unfoldable pub traced_alert : LeakwatchOperation → Backtrace → T × Memory → Outcome (T × Memory)
    unfolding traced_callback store unreference
    traced_alert op trace (self, memory) = do
      let p = alloc memory
      (self, memory) ←
          traced_callback op p (self, store p (some (record trace { refcnt = 1 })) memory)
      memory ← unreference p memory
      ok (self, memory)

    unfoldable pub traced_alerts :
        List (LeakwatchOperation × Backtrace) → T × Memory → Outcome (T × Memory)
    unfolding traced_alert
    traced_alerts [] state = ok state
    traced_alerts (call ∷ calls) state = do
      state ← traced_alert call.0 call.1 state
      traced_alerts calls state
