-- ===== src/Tests/Watches.antt =====
-- lib/leakwatch.c with a hash table that is a function.
use tinu.Prelude.{
  ℕ, ◌≡◌, refl, true, false, inr, Option, none, some, List, [], ◌∷◌, ◌==◌, if◌then◌else◌, ok, arith,
}
use mathlib.Core.Option
use tinu.Leaks.{
  MemoryEntry, LeakwatchOperation, malloc, realloc, free, HashTable, watch, unset, other_hook,
  Leakwatch, tinu_register_watch,
}
use tinu.Leaks.Live.{Shows, AreFree, perform_all, perform, assign, made}
use tinu.Leaks.Calls.{IsOn, simple, serve_all, serve_all-Shows}
use tinu.Leaks.Watching.{
  IsWatching, WatchCall, register, unregister, run_calls, run_calls-IsWatching,
}

abbrev table : HashTable (ℕ → Option MemoryEntry)
table = record {
  empty = λ p. none;
  insert = λ t p e q. if p == q then some e else t q;
  remove = λ t p q. if p == q then none else t q;
  lookup = λ t p. t p;
  lookup-empty = λ p. refl;
  lookup-insert = λ t p e q. refl;
  lookup-remove = λ t p q. refl;
}

-- A block that moves, one that is freed, one that was there before, and one made of NULL.
abbrev operations : List LeakwatchOperation
operations =
    malloc 10 1 ∷ malloc 20 2 ∷ realloc 10 30 5 ∷ free 20 ∷ realloc 40 50 9 ∷ realloc 0 60 7 ∷ []

moved : perform_all operations (λ p. none) 30 ≡ some (record { size = 5; by_malloc = true })
unfolding perform_all perform assign made
moved = refl

-- The blocks at 50 and 60 live, but the table does not hold them.
missed :
    (perform_all operations (λ p. none) 60 ≡ some (record { size = 7; by_malloc = false }))
    × (table.lookup (watch table operations table.empty) 60 ≡ none)
unfolding perform_all perform assign made watch
missed = (refl, refl)

last_size_kept :
    Option.map (λ e. e.size) (table.lookup (watch table operations table.empty) 30) ≡ some 5
unfolding watch
last_size_kept = refl

abbrev start : Leakwatch
start = record { list = []; count = 0; init = false; hook = other_hook 1; saved = unset }

abbrev calls : List WatchCall
calls = register 7 ∷ register 8 ∷ unregister 9 ∷ unregister 8 ∷ unregister 7 ∷ []

run_calls-IsWatching_example :
    (self' : Leakwatch) × (run_calls calls start ≡ ok self') × IsWatching self' (other_hook 1)
run_calls-IsWatching_example =
    run_calls-IsWatching calls start (other_hook 1)
      (record { count = refl; init = refl; hook = refl; saved = refl })

-- The first watch is on.
registered-IsOn : IsOn (tinu_register_watch 7 start) 7
registered-IsOn = record {
  counted = unfold tinu_register_watch in omega arith;
  hooked = unfold tinu_register_watch in refl;
  only = unfold tinu_register_watch in refl;
}

operations-AreFree : AreFree operations (λ p. none)
unfolding perform assign
operations-AreFree = (tt, (tt, (inr refl, (tt, (inr refl, (inr refl, tt))))))

serve_all-Shows_example :
    (t : ℕ → Option MemoryEntry) × (serve_all
        (simple table)
        operations
        (tinu_register_watch 7 start)
        table.empty
      ≡ (tinu_register_watch 7 start, t))
    × Shows table t (perform_all operations (λ p. none))
serve_all-Shows_example =
    serve_all-Shows table (tinu_register_watch 7 start) 7 operations registered-IsOn
      (refl, (refl, (refl, (tt, (refl, (refl, tt)))))) operations-AreFree
