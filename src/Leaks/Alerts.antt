-- ===== src/Leaks/Alerts.antt =====
-- The backtraces behind a list of calls of the allocator (lib/leakwatch.c).
use tinu.Prelude.{
  ℕ, ◌+◌, ◌*◌, ◌^◌, ◌<◌, ◌≡◌, ◌≢◌, refl, subst, ◌∙◌, none, some, List, [], ◌∷◌, length, ok,
  bind_cong, arith,
}
use tinu.Backtrace.{Backtrace}
use tinu.Leaks.{LeakwatchOperation}
use tinu.Leaks.Origins.{Memory, load, store, TracedTable, TracedEntry, traced_alert, traced_alerts}
use tinu.Leaks.Held.{
  at, at_self, at_le, at_other, Cell, IsCounted-cast, store-IsCounted, unreference-Gives,
}
use tinu.Leaks.Keeping.{held, IsKept, IsHeld, found-IsHeld}
use tinu.Leaks.Tracing.{callback-Ends}

-- What the allocator of backtraces returns: an address that is not NULL, where nothing lives.
pub record IsFresh (alloc : Memory → ℕ) : Type 0 where
  pub nonzero : (memory : Memory) → alloc memory ≢ 0
  pub fresh : (memory : Memory) → load memory (alloc memory) ≡ none

-- Every backtrace that lives is held, by entries of the table alone, as often as its count says,
-- no count is above `n`, and every entry has an origin.
abbrev pub IsBalanced : {T : Type 0} → TracedTable T → T → Memory → ℕ → Type 0
IsBalanced table t memory n = IsKept table t memory (λ q. 0) n

module _ {T : Type 0} (table : TracedTable T) (alloc : Memory → ℕ)
    (free_memory : IsFresh alloc) where
  fresh-IsKept :
      (t : T) (memory : Memory) (trace : Backtrace) (n : ℕ)
      → IsBalanced table t memory n
      → let p = alloc memory in
        IsKept table t (store p (some (record trace { refcnt = 1 })) memory) (at p) (n + 1)
  fresh-IsKept t memory trace n h =
      let p = alloc memory in
      let nonzero = free_memory.nonzero memory in
      let unheld : 0 + held table t p ≡ 0 =
        subst (λ cell. Cell cell (0 + held table t p)) (free_memory.fresh memory)
          (h.counted.cells p nonzero) in
      record {
        counted =
            store-IsCounted memory (λ q. 0 + held table t q) (λ q. at p q + held table t q) n
              (n + 1) p _ h.counted
              (λ _. (omega (arith, at_self p nonzero, unheld), omega (arith, at_self p nonzero)))
              (λ q miss. omega (arith, at_other p q miss))
              (λ q. omega (arith, at_le p q, h.counted.small q));
        origins = h.origins;
      }

  traced_alert-IsBalanced :
      (op : LeakwatchOperation) (trace : Backtrace) (t : T) (memory : Memory) (n : ℕ)
      → n + 3 < 2 ^ 32
      → IsBalanced table t memory n
      → (t' : T) × (memory' : Memory) × (traced_alert table alloc op trace (t, memory)
          ≡ ok (t', memory'))
        × IsBalanced table t' memory' (n + 3)
  unfolding traced_alert
  traced_alert-IsBalanced op trace t memory n small h =
      let p = alloc memory in
      let nonzero = free_memory.nonzero memory in
      let started = fresh-IsKept t memory trace n h in
      let (t', memory', run, h') =
        callback-Ends table op p t (store p (some (record trace { refcnt = 1 })) memory) (n + 1)
          nonzero (omega arith) started in
      let (memory'', run', h'') =
        unreference-Gives p memory' _ (n + 1 + 2) (omega (arith, at_self p nonzero)) (omega arith)
          h'.counted in
      (
        t',
        memory'',
        bind_cong run (λ q. refl) ∙ bind_cong run' (λ q. refl),
        record {
          counted = IsCounted-cast h'' (λ q. omega arith) (omega arith);
          origins = h'.origins;
        },
      )

  alerts-IsBalanced :
      (calls : List (LeakwatchOperation × Backtrace)) (t : T) (memory : Memory) (n : ℕ)
      → n + 3 * length calls < 2 ^ 32
      → IsBalanced table t memory n
      → (t' : T) × (memory' : Memory) × (traced_alerts table alloc calls (t, memory)
          ≡ ok (t', memory'))
        × IsBalanced table t' memory' (n + 3 * length calls)
  unfolding traced_alerts
  alerts-IsBalanced [] t memory n small h = (
    t,
    memory,
    refl,
    record { counted = IsCounted-cast h.counted (λ q. refl) (omega arith); origins = h.origins },
  )
  alerts-IsBalanced (call ∷ calls) t memory n small h =
      let (t', memory', run, h') =
        traced_alert-IsBalanced call.0 call.1 t memory n (omega arith) h in
      let (t'', memory'', run', h'') =
        alerts-IsBalanced calls t' memory' (n + 3) (omega arith) h' in
      (
        t'',
        memory'',
        bind_cong run (λ q. refl) ∙ run',
        record {
          counted = IsCounted-cast h''.counted (λ q. refl) (omega arith);
          origins = h''.origins;
        },
      )

  -- Telling the table of a list of calls of the allocator always succeeds and never goes through a
  -- freed backtrace. If before it every live backtrace is held by entries of the table alone, as
  -- often as its count says, this is so behind it: no backtrace leaks, and none that an entry
  -- holds is freed, so that for every entry that is then looked up the backtrace of its origin
  -- lives, and the last one unless it is NULL. This is for an allocator that returns memory where
  -- no backtrace lives, and for so few calls that no count can reach 2 ^ 32.
  pub traced_alerts-IsBalanced :
      (calls : List (LeakwatchOperation × Backtrace)) (t : T) (memory : Memory) (n : ℕ)
      → n + 3 * length calls < 2 ^ 32
      → IsBalanced table t memory n
      → (t' : T) × (memory' : Memory) × (traced_alerts table alloc calls (t, memory)
          ≡ ok (t', memory'))
        × IsBalanced table t' memory' (n + 3 * length calls)
        × ((p : ℕ) (e : TracedEntry) → table.lookup t' p ≡ some e → IsHeld memory' e)
  traced_alerts-IsBalanced calls t memory n small h =
      let (t', memory', run, h') = alerts-IsBalanced calls t memory n small h in
      (
        t',
        memory',
        run,
        h',
        λ p e there. found-IsHeld table t' memory' (n + 3 * length calls) p e h' there,
      )
