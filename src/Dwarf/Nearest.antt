-- ===== src/Dwarf/Nearest.antt =====
-- The entry that the lookup of lib/dwarf.c returns.
use tinu.Prelude.{
  ℕ, ◌≤◌, ◌<◌, ◌≡◌, refl, ap, true, false, Option, none, some, List, [], ◌∷◌, ◌++◌, ltb, ltb→lt,
  All, ◌⊎◌, inl, inr, Bool-cases, arith, Outcome, ok, crash, ◌>>=◌,
}
use tinu.Dwarf.{DwarfEntry, DwarfCompUnit, DwarfHandle, contains, find_unit, find_entry, dw_lookup}

-- The entry stands in the list, none before it is above the address, and it is either the first
-- that is or the last of all.
pub record Nearest (ptr : ℕ) (entries : List DwarfEntry) (e : DwarfEntry) : Type 0 where
  pub before : List DwarfEntry
  pub after : List DwarfEntry
  pub split : entries ≡ before ++ e ∷ after
  pub below : All (λ b. b.pointer ≤ ptr) before
  pub stop : (ptr < e.pointer) ⊎ (after ≡ [])

find_entry-Nearest :
    (ptr : ℕ) (e : DwarfEntry) (entries : List DwarfEntry) (entry : Outcome DwarfEntry)
    → (r : DwarfEntry) × (find_entry ptr (e ∷ entries) entry ≡ ok r) × Nearest ptr (e ∷ entries) r
unfolding find_entry
find_entry-Nearest ptr e [] entry = elim (Bool-cases (ltb ptr e.pointer)) [
  | inl above ↦ (
    e,
    rw above refl,
    record { before = []; after = []; split = refl; below = tt; stop = inr refl },
  )
  | inr below ↦ (
    e,
    rw below refl,
    record { before = []; after = []; split = refl; below = tt; stop = inr refl },
  )
]
find_entry-Nearest ptr e (f ∷ entries) entry = elim (Bool-cases (ltb ptr e.pointer)) [
  | inl above ↦ (
    e,
    rw above refl,
    record {
      before = [];
      after = f ∷ entries;
      split = refl;
      below = tt;
      stop = inl (ltb→lt ptr e.pointer above);
    },
  )
  | inr below ↦
      let (r, found, near) = find_entry-Nearest ptr f entries (ok e) in
      (
        r,
        rw below found,
        record {
          before = e ∷ near.before;
          after = near.after;
          split = ap (◌∷◌ e) near.split;
          below = (ground (arith, below), near.below);
          stop = near.stop;
        },
      )
]

-- The first unit whose range holds the address.
pub record Holds (ptr : ℕ) (units : List DwarfCompUnit) (unit : DwarfCompUnit) : Type 0 where
  pub before : List DwarfCompUnit
  pub after : List DwarfCompUnit
  pub split : units ≡ before ++ unit ∷ after
  pub missed : All (λ u. contains ptr u ≡ false) before
  pub held : contains ptr unit ≡ true

find_unit-Holds :
    (ptr : ℕ) (units : List DwarfCompUnit)
    → ((find_unit ptr units ≡ none) × All (λ u. contains ptr u ≡ false) units)
      ⊎ ((unit : DwarfCompUnit) × (find_unit ptr units ≡ some unit) × Holds ptr units unit)
unfolding find_unit
find_unit-Holds ptr [] = inl (refl, tt)
find_unit-Holds ptr (u ∷ units) = elim (Bool-cases (contains ptr u)) [
  | inl here ↦ inr (
    u,
    rw here refl,
    record { before = []; after = units; split = refl; missed = tt; held = here },
  )
  | inr other ↦ elim (find_unit-Holds ptr units) [
    | inl (missing, missed) ↦ inl (rw other missing, (other, missed))
    | inr (unit, found, holds) ↦ inr (
      unit,
      rw other found,
      record {
        before = u ∷ holds.before;
        after = holds.after;
        split = ap (◌∷◌ u) holds.split;
        missed = (other, holds.missed);
        held = holds.held;
      },
    )
  ]
]

in_unit :
    (ptr : ℕ) (entries : List DwarfEntry)
    → ((find_entry ptr entries crash ≡ crash) × (entries ≡ []))
      ⊎ ((e : DwarfEntry) × (find_entry ptr entries crash ≡ ok e) × Nearest ptr entries e)
in_unit ptr [] = inl (unfold find_entry in refl, refl)
in_unit ptr (e ∷ entries) = inr (find_entry-Nearest ptr e entries crash)

-- What the lookup of an address comes to.
abbrev pub LooksUp : DwarfHandle → ℕ → Outcome (Option DwarfEntry) → Type 0
LooksUp self ptr r =
    ((r ≡ ok none) × All (λ u. contains ptr u ≡ false) self.entries)
    ⊎ ((unit : DwarfCompUnit) × Holds ptr self.entries unit
        × (((r ≡ crash) × (unit.entries ≡ []))
            ⊎ ((e : DwarfEntry) × (r ≡ ok (some e)) × Nearest ptr unit.entries e)))

-- The lookup returns NULL exactly for an address that no unit holds. Otherwise it reads the first
-- unit that holds it: of a unit without lines it returns a pointer that was never written, of any
-- other the first line above the address, or the last line of all. The tolerance does not matter.
pub dw_lookup-Nearest :
    (self : DwarfHandle) (ptr tolerance : ℕ) → LooksUp self ptr (dw_lookup self ptr tolerance)
unfolding dw_lookup
dw_lookup-Nearest self ptr tolerance = elim (find_unit-Holds ptr self.entries) [
  | inl (missing, missed) ↦ inl (rw (missing, dw_lookup) refl, missed)
  | inr (unit, found, holds) ↦ inr (
    unit,
    holds,
    elim (in_unit ptr unit.entries) [
      | inl (bad, empty) ↦ inl (rw (found, dw_lookup) (ap (λ m. m >>= λ e. ok (some e)) bad), empty)
      | inr (e, good, near) ↦
          inr (e, rw (found, dw_lookup) (ap (λ m. m >>= λ e'. ok (some e')) good), near)
    ],
  )
]
