-- ===== src/Leaks/Keeping.antt =====
-- The counts of the backtraces stay right where the table changes (lib/leakwatch.c).
use tinu.Prelude.{
  ℕ, ◌+◌, ◌^◌, ◌≤◌, ◌<◌, ◌≡◌, ◌≢◌, refl, ap, ◌∙◌, some, ◌==◌, if◌then◌else◌, Outcome, ok, ◌>>=◌,
  bind_cong, arith,
}
use tinu.Backtrace.{Backtrace}
use tinu.Leaks.Origins.{
  Memory, load, TracedEntry, total, weight, TracedTable, insert_entry, remove_entry,
}
use tinu.Leaks.Held.{at_self, holds, live, IsCounted, IsCounted-cast, drop_entry-Gives}

-- One if the entry has no backtrace of its origin.
abbrev pub orphan : TracedEntry → ℕ
orphan e = if e.origin == 0 then 1 else 0

-- The backtraces of an entry live; the last one may be NULL.
pub record IsHeld (memory : Memory) (e : TracedEntry) : Type 0 where
  pub origin_lives : (trace : Backtrace) × (load memory e.origin ≡ some trace)
  pub last_lives : e.last ≢ 0 → (trace : Backtrace) × (load memory e.last ≡ some trace)

module _ {T : Type 0} (table : TracedTable T) where
  -- How often the table holds the backtrace at `q`.
  abbrev pub held : T → ℕ → ℕ
  held t q = total (holds q) (table.entries t)

  -- The counts are the holders in the table and those of `x`, and every entry has an origin.
  pub record IsKept (t : T) (memory : Memory) (x : ℕ → ℕ) (n : ℕ) : Type 0 where
    pub counted : IsCounted memory (λ q. x q + held t q) n
    pub origins : total orphan (table.entries t) ≡ 0

  abbrev pub Ends : Outcome (T × Memory) → (ℕ → ℕ) → ℕ → Type 0
  Ends m x n = (t : T) × (memory : Memory) × (m ≡ ok (t, memory)) × IsKept t memory x n

  pub insert_entry-Ends :
      (p : ℕ) (e : TracedEntry) (t : T) (memory : Memory) (x : ℕ → ℕ) (n : ℕ)
      → orphan e ≡ 0
      → n < 2 ^ 32
      → IsKept t memory (λ q. x q + holds q e) n
      → Ends (insert_entry table p e (t, memory)) x n
  unfolding insert_entry
  insert_entry-Ends p e t memory x n has small h =
      let (memory', run, h') =
        drop_entry-Gives (table.lookup t p) memory _ n
          (λ q. omega (arith, table.total-remove (holds q) t p)) small h.counted in
      (
        table.insert t p e,
        memory',
        bind_cong run (λ q. refl),
        record {
          counted =
              IsCounted-cast h'
                (λ q.
                  omega
                    (arith, table.total-remove (holds q) t p, table.total-insert (holds q) t p e))
                (omega arith);
          origins = omega (
            arith,
            has,
            h.origins,
            table.total-remove orphan t p,
            table.total-insert orphan t p e,
          );
        },
      )

  pub remove_entry-Ends :
      (p : ℕ) (t : T) (memory : Memory) (x : ℕ → ℕ) (n : ℕ)
      → n < 2 ^ 32
      → IsKept t memory x n
      → Ends (remove_entry table p (t, memory)) x n
  unfolding remove_entry
  remove_entry-Ends p t memory x n small h =
      let (memory', run, h') =
        drop_entry-Gives (table.lookup t p) memory _ n
          (λ q. omega (arith, table.total-remove (holds q) t p)) small h.counted in
      (
        table.remove t p,
        memory',
        bind_cong run (λ q. refl),
        record {
          counted =
              IsCounted-cast h' (λ q. omega (arith, table.total-remove (holds q) t p))
                (omega arith);
          origins = omega (arith, h.origins, table.total-remove orphan t p);
        },
      )

  -- An entry of the table has an origin, and the table holds what it holds.
  pub found_origin :
      (t : T) (p : ℕ) (old : TracedEntry)
      → table.lookup t p ≡ some old
      → total orphan (table.entries t) ≡ 0
      → old.origin ≢ 0
  found_origin t p old there origins null =
      let mine : weight orphan (table.lookup t p) ≡ orphan old = ap (weight orphan) there in
      let one : orphan old ≡ 1 = ground (arith, null) in
      omega (arith, mine, one, origins, table.total-remove orphan t p)

  pub found_held :
      (t : T) (p : ℕ) (old : TracedEntry) (q : ℕ)
      → table.lookup t p ≡ some old
      → held t q ≡ holds q old + held (table.remove t p) q
  found_held t p old q there =
      table.total-remove (holds q) t p
      ∙ ap (λ o. weight (holds q) o + held (table.remove t p) q) there

  -- What follows a step on the memory, and a bound that is not sharp.
  pub Ends-after :
      (m : Outcome Memory) (f : Memory → Outcome (T × Memory)) (x : ℕ → ℕ) (n : ℕ) {memory : Memory}
      → m ≡ ok memory
      → Ends (f memory) x n
      → Ends (m >>= f) x n
  Ends-after m f x n run (t, memory', run', h) = (t, memory', bind_cong run (λ q. refl) ∙ run', h)

  pub Ends-below :
      (m : Outcome (T × Memory)) (x : ℕ → ℕ) (n k : ℕ) → n ≤ k → Ends m x n → Ends m x k
  Ends-below m x n k le (t, memory, run, h) = (
    t,
    memory,
    run,
    record { counted = IsCounted-cast h.counted (λ q. refl) le; origins = h.origins },
  )

  held_lives :
      (t : T) (memory : Memory) (n p q : ℕ) (e : TracedEntry)
      → IsKept t memory (λ r. 0) n
      → table.lookup t p ≡ some e
      → q ≢ 0
      → holds q e ≢ 0
      → (trace : Backtrace) × (load memory q ≡ some trace)
  held_lives t memory n p q e h there nonzero mine =
      let (trace, lives, _) =
        live (load memory q) (0 + held t q) (h.counted.cells q nonzero)
          (omega (arith, mine, found_held t p e q there)) in
      (trace, lives)

  pub found-IsHeld :
      (t : T) (memory : Memory) (n p : ℕ) (e : TracedEntry)
      → IsKept t memory (λ r. 0) n
      → table.lookup t p ≡ some e
      → IsHeld memory e
  found-IsHeld t memory n p e h there =
      let origin = found_origin t p e there h.origins in
      record {
        origin_lives =
            held_lives t memory n p e.origin e h there origin
              (omega (arith, at_self e.origin origin));
        last_lives = λ last.
            held_lives t memory n p e.last e h there last (omega (arith, at_self e.last last));
      }
