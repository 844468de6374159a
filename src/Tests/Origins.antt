-- ===== src/Tests/Origins.antt =====
-- The backtraces of a table that is a list, in a memory whose addresses are counted up.
use tinu.Prelude.{
  ℕ, ◌+◌, ◌≤◌, ◌<◌, ◌≡◌, refl, Bool-cases, inl, inr, Option, none, some, List, [], ◌∷◌, ◌==◌,
  if◌then◌else◌, ok, arith,
}
use tinu.Backtrace.{Backtrace}
use tinu.Leaks.{LeakwatchOperation, malloc, realloc, free}
use tinu.Leaks.Origins.{Memory, load, TracedEntry, total, weight, TracedTable, traced_alerts}
use tinu.Leaks.Keeping.{IsHeld}
use tinu.Leaks.Alerts.{IsFresh, IsBalanced, traced_alerts-IsBalanced}

abbrev Table : Type 0
Table = List (ℕ × TracedEntry)

-- The first entry of a key, the table without it, and all entries.
abbrev find_entry : Table → ℕ → Option TracedEntry
find_entry [] p = none
find_entry (e ∷ t) p = if e.0 == p then some e.1 else find_entry t p

abbrev without : Table → ℕ → Table
without [] p = []
without (e ∷ t) p = if e.0 == p then t else e ∷ without t p

abbrev all_entries : Table → List TracedEntry
all_entries [] = []
all_entries (e ∷ t) = e.1 ∷ all_entries t

total-without :
    (f : TracedEntry → ℕ) (t : Table) (p : ℕ)
    → total f (all_entries t) ≡ weight f (find_entry t p) + total f (all_entries (without t p))
unfolding total
total-without f [] p = omega arith
total-without f (e ∷ t) p = elim (Bool-cases (e.0 == p)) [
  | inl hit ↦ rw hit refl
  | inr miss ↦ rw miss (omega (arith, total-without f t p))
]

abbrev table : TracedTable Table
table = record {
  empty = [];
  insert = λ t p e. (p, e) ∷ without t p;
  remove = without;
  lookup = find_entry;
  entries = all_entries;
  entries-empty = refl;
  total-remove = total-without;
  total-insert = λ f t p e. unfold total in refl;
}

-- An address above all that were written.
abbrev above : Memory → ℕ
above [] = 1
above (cell ∷ memory) = cell.0 + above memory + 1

above-positive : (memory : Memory) → 0 < above memory
above-positive [] = omega arith
above-positive (cell ∷ memory) = omega arith

load-above : (memory : Memory) (p : ℕ) → above memory ≤ p → load memory p ≡ none
unfolding load
load-above [] p le = refl
load-above (cell ∷ memory) p le = ground (arith, load-above memory p)

above-IsFresh : IsFresh above
above-IsFresh = record {
  nonzero = λ memory null. omega (arith, above-positive memory, null);
  fresh = λ memory. load-above memory (above memory) (omega arith);
}

abbrev trace : Backtrace
trace = record { refcnt = 1; length_ = 0; symbols = [] }

abbrev calls : List (LeakwatchOperation × Backtrace)
calls =
    (malloc 10 1, trace)
    ∷ (realloc 10 10 4, trace)
    ∷ (realloc 10 30 5, trace)
    ∷ (free 30, trace)
    ∷ (malloc 40 2, trace)
    ∷ []

empty-IsBalanced : IsBalanced table [] [] 0
empty-IsBalanced = record {
  counted = record {
    cells = λ q nonzero. unfold load total in refl;
    small = λ q. unfold total in omega arith;
  };
  origins = unfold total in refl;
}

traced_alerts-IsBalanced_example :
    (t' : Table) × (memory' : Memory) × (traced_alerts table above calls ([], [])
      ≡ ok (t', memory'))
    × IsBalanced table t' memory' 15
    × ((p : ℕ) (e : TracedEntry) → find_entry t' p ≡ some e → IsHeld memory' e)
traced_alerts-IsBalanced_example =
    traced_alerts-IsBalanced table above above-IsFresh calls [] [] 0 (omega arith) empty-IsBalanced
