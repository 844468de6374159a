-- ===== src/Leaks/Held.antt =====
-- The counts of the backtraces against the entries of a watch's table (lib/leakwatch.c).
use tinu.Prelude.{
  ℕ, ◌+◌, ◌-◌, ◌%◌, ◌^◌, ◌≤◌, ◌<◌, ◌≡◌, ◌≢◌, refl, sym, ap, subst, ◌∙◌, true, false, Bool-cases,
  inl, inr, Option, none, some, ◌==◌, ==_iff, if◌then◌else◌, Outcome, ok, bind_cong, arith,
}
use tinu.Backtrace.{Backtrace, backtrace_reference, backtrace_unreference}
use tinu.Leaks.Origins.{
  Memory, load, store, reference, unreference, TracedEntry, memory_entry_destroy, drop_entry,
  weight,
}

-- One if the pointer is that of `q`, which is not NULL.
unfoldable pub at : ℕ → ℕ → ℕ
at p q = if q == 0 then 0 else if p == q then 1 else 0

pub at_le : (p q : ℕ) → at p q ≤ 1
unfolding at
at_le p q = ground arith

pub at_null : (q : ℕ) → at 0 q ≡ 0
unfolding at
at_null q = ground arith

pub at_self : (p : ℕ) → p ≢ 0 → at p p ≡ 1
unfolding at
at_self p h = ground arith

at_same : (p q : ℕ) → q ≢ 0 → (p == q) ≡ true → at p q ≡ 1
unfolding at
at_same p q h e = ground arith

pub at_other : (p q : ℕ) → (p == q) ≡ false → at p q ≡ 0
unfolding at
at_other p q e = ground arith

-- How often an entry holds the backtrace at `q`.
abbrev pub holds : ℕ → TracedEntry → ℕ
holds q e = at e.origin q + at e.last q

-- A backtrace that nobody holds is freed, and another one has the number of its holders as count.
abbrev pub Cell : Option Backtrace → ℕ → Type 0
Cell none n = n ≡ 0
Cell (some trace) n = (trace.refcnt ≡ n) × (n ≢ 0)

pub record IsCounted (memory : Memory) (c : ℕ → ℕ) (n : ℕ) : Type 0 where
  pub cells : (q : ℕ) → q ≢ 0 → Cell (load memory q) (c q)
  pub small : (q : ℕ) → c q ≤ n

abbrev pub Gives : Outcome Memory → (ℕ → ℕ) → ℕ → Type 0
Gives m c n = (memory : Memory) × (m ≡ ok memory) × IsCounted memory c n

pub IsCounted-cast :
    {memory : Memory} {c d : ℕ → ℕ} {n k : ℕ}
    → IsCounted memory c n
    → ((q : ℕ) → c q ≡ d q)
    → n ≤ k
    → IsCounted memory d k
IsCounted-cast {memory} {c} {d} h same le = record {
  cells = λ q nonzero. subst (Cell (load memory q)) (same q) (h.cells q nonzero);
  small = λ q. omega (arith, same q, h.small q);
}

pub live :
    (cell : Option Backtrace) (n : ℕ)
    → Cell cell n
    → n ≢ 0
    → (trace : Backtrace) × (cell ≡ some trace) × (trace.refcnt ≡ n)
live none n h some_hold = absurd (some_hold h)
live (some trace) n h some_hold = (trace, refl, h.0)

Cell_of : (cell : Option Backtrace) (n k : ℕ) → Cell cell n → n ≡ k → Cell cell k
Cell_of cell n k h same = subst (Cell cell) same h

pub store-IsCounted :
    (memory : Memory) (c d : ℕ → ℕ) (n k p : ℕ) (cell : Option Backtrace)
    → IsCounted memory c n
    → (p ≢ 0 → Cell cell (d p))
    → ((q : ℕ) → (p == q) ≡ false → c q ≡ d q)
    → ((q : ℕ) → d q ≤ k)
    → IsCounted (store p cell memory) d k
unfolding store load
store-IsCounted memory c d n k p cell h new old le = record {
  cells = λ q nonzero. elim (Bool-cases (p == q)) [
    | inl hit ↦
        let same : p ≡ q = (==_iff p q).0 hit in
        rw hit (subst (λ r. Cell cell (d r)) same (new (λ null. nonzero (sym same ∙ null))))
    | inr miss ↦ rw miss (Cell_of (load memory q) (c q) (d q) (h.cells q nonzero) (old q miss))
  ];
  small = le;
}

reference_runs :
    (p : ℕ) (memory : Memory) (trace : Backtrace) (cell : Option Backtrace)
    → (p == 0) ≡ false
    → load memory p ≡ some trace
    → backtrace_reference (some trace) ≡ ok cell
    → reference p memory ≡ ok (store p cell memory)
unfolding reference
reference_runs p memory trace cell shut there run = rw (shut, there) (bind_cong run (λ q. refl))

unreference_runs :
    (p : ℕ) (memory : Memory) (trace : Backtrace) (cell : Option Backtrace)
    → (p == 0) ≡ false
    → load memory p ≡ some trace
    → backtrace_unreference (some trace) ≡ ok cell
    → unreference p memory ≡ ok (store p cell memory)
unfolding unreference
unreference_runs p memory trace cell shut there run = rw (shut, there) (bind_cong run (λ q. refl))

pub reference-Gives :
    (p : ℕ) (memory : Memory) (c : ℕ → ℕ) (n : ℕ)
    → p ≢ 0
    → c p ≢ 0
    → n + 1 < 2 ^ 32
    → IsCounted memory c n
    → Gives (reference p memory) (λ q. at p q + c q) (n + 1)
unfolding backtrace_reference
reference-Gives p memory c n nonzero held small h =
    let (trace, there, count) = live (load memory p) (c p) (h.cells p nonzero) held in
    let shut : (p == 0) ≡ false = ground arith in
    (
      store p (some (record trace { refcnt = (trace.refcnt + 1) % 2 ^ 32 })) memory,
      reference_runs p memory trace _ shut there refl,
      store-IsCounted memory c (λ q. at p q + c q) n (n + 1) p _ h
          (λ _.
            (omega (arith, count, at_self p nonzero, h.small p), omega (arith, at_self p nonzero)))
          (λ q miss. omega (arith, at_other p q miss)) (λ q. omega (arith, at_le p q, h.small q)),
    )

-- One holder less.
released :
    (trace : Backtrace) (n : ℕ)
    → (trace.refcnt + (2 ^ 32 - 1)) % 2 ^ 32 ≡ n
    → (cell : Option Backtrace) × (backtrace_unreference (some trace) ≡ ok cell) × Cell cell n
unfolding backtrace_unreference
released trace n fewer = elim (Bool-cases (n == 0)) [
  | inl gone ↦ (none, rw (fewer, gone) refl, (==_iff n 0).0 gone)
  | inr held ↦ (some (record trace { refcnt = n }), rw (fewer, held) refl, (refl, ground arith))
]

pub unreference-Gives :
    (p : ℕ) (memory : Memory) (c : ℕ → ℕ) (n : ℕ)
    → at p p ≤ c p
    → n < 2 ^ 32
    → IsCounted memory c n
    → Gives (unreference p memory) (λ q. c q - at p q) n
unfolding unreference
unreference-Gives p memory c n held small h = elim (Bool-cases (p == 0)) [
  | inl null ↦
      let zero_ : p ≡ 0 = (==_iff p 0).0 null in
      (
        memory,
        rw null refl,
        IsCounted-cast h (λ q. omega (arith, ap (λ r. at r q) zero_, at_null q)) (omega arith),
      )
  | inr shut ↦
      let nonzero : p ≢ 0 = ground arith in
      let one = at_self p nonzero in
      let (trace, there, count) = live (load memory p) (c p) (h.cells p nonzero) (omega arith) in
      let fewer : (trace.refcnt + (2 ^ 32 - 1)) % 2 ^ 32 ≡ c p - at p p =
        omega (arith, count, h.small p) in
      let (cell, run, left) = released trace (c p - at p p) fewer in
      (
        store p cell memory,
        unreference_runs p memory trace cell shut there run,
        store-IsCounted memory c (λ q. c q - at p q) n n p cell h (λ _. left)
            (λ q miss. omega (arith, at_other p q miss)) (λ q. omega (arith, h.small q)),
      )
]

pub memory_entry_destroy-Gives :
    (entry : TracedEntry) (memory : Memory) (c : ℕ → ℕ) (n : ℕ)
    → ((q : ℕ) → holds q entry ≤ c q)
    → n < 2 ^ 32
    → IsCounted memory c n
    → Gives (memory_entry_destroy entry memory) (λ q. c q - holds q entry) n
unfolding memory_entry_destroy
memory_entry_destroy-Gives entry memory c n held small h =
    let (memory', run, h') =
      unreference-Gives entry.origin memory c n (omega (arith, held entry.origin)) small h in
    let (memory'', run', h'') =
      unreference-Gives entry.last memory' (λ q. c q - at entry.origin q) n
        (omega (arith, held entry.last)) small h' in
    (
      memory'',
      bind_cong run (λ q. refl) ∙ run',
      IsCounted-cast h'' (λ q. omega arith) (omega arith),
    )

pub drop_entry-Gives :
    (entry : Option TracedEntry) (memory : Memory) (c : ℕ → ℕ) (n : ℕ)
    → ((q : ℕ) → weight (holds q) entry ≤ c q)
    → n < 2 ^ 32
    → IsCounted memory c n
    → Gives (drop_entry entry memory) (λ q. c q - weight (holds q) entry) n
unfolding drop_entry
drop_entry-Gives none memory c n held small h =
    (memory, refl, IsCounted-cast h (λ q. omega arith) (omega arith))
drop_entry-Gives (some entry) memory c n held small h =
    memory_entry_destroy-Gives entry memory c n held small h
