-- ===== src/Main/Ranges.antt =====
-- The levels that the options of lib/main.c can set.
use tinu.Prelude.{
  ℕ, ◌≤◌, ◌≡◌, refl, Bool, true, false, ◌&&◌, not, Bool-cases, inl, inr, Option, none, some, [],
  ◌∷◌, ℤ, pos, negsuc, ◌==◌, ==_iff, int_eq, int_leb, Str, strn_eq, if◌then◌else◌, All, arith,
}
use tinu.Names.{NameTable, effective_length, length_differs, lookup_name_from, tinu_lookup_name}
use tinu.Message.Priority.{msg_get_priority_value, message_priority_names}
use tinu.Reporting.{statistics_verbosity_names}
use tinu.Main.Callbacks.{is_end, strtoul, to_signed, opt_priority, opt_stat_verb}

-- A level up to `top`.
abbrev IsLevel : ℕ → ℤ → Type 0
IsLevel top (pos n) = n ≤ top
IsLevel top (negsuc n) = n ≡ 0

lookup_name_from-IsLevel :
    (top : ℕ) (table : NameTable) (name : Str) (rlen : ℕ)
    → All (λ e. IsLevel top e.key) table
    → IsLevel top (lookup_name_from table name rlen (negsuc 0))
unfolding lookup_name_from
lookup_name_from-IsLevel top [] name rlen levels = refl
lookup_name_from-IsLevel top (e ∷ table) name rlen levels =
    elim (Bool-cases (not (length_differs e.len rlen) && strn_eq rlen e.name name)) [
      | inl hit ↦ rw (hit, lookup_name_from) levels.0
      | inr miss ↦
          rw (miss, lookup_name_from) (lookup_name_from-IsLevel top table name rlen levels.1)
    ]

-- What a callback sets: the level of the name, the number behind its test, or nothing.
abbrev pub IsTaken : ℕ → Option ℤ → Type 0
IsTaken top none = Unit
IsTaken top (some z) = (n : ℕ) × (z ≡ pos n) × (n ≤ top)

level-IsTaken :
    (top : ℕ) (z : ℤ) → IsLevel top z → IsTaken top (if int_eq z (negsuc 0) then none else some z)
level-IsTaken top (pos n) h = (n, refl, h)
level-IsTaken top (negsuc n) h = let hit : (n == 0) ≡ true = (==_iff n 0).1 h in rw hit tt

in_range :
    (top : ℕ) (ended : Bool) (z : ℤ)
    → (ended && int_leb (pos 0) z && int_leb z (pos top)) ≡ true
    → IsLevel top z
in_range top true (pos n) h = ground arith
in_range top true (negsuc n) h = ground arith
in_range top false z h = ground arith

number-IsLevel :
    (top : ℕ) (ended : Bool) (z : ℤ)
    → IsLevel top (if ended && int_leb (pos 0) z && int_leb z (pos top) then z else negsuc 0)
number-IsLevel top ended z = elim (Bool-cases (ended && int_leb (pos 0) z && int_leb z (pos top))) [
  | inl good ↦ rw good (in_range top ended z good)
  | inr bad ↦ rw bad refl
]

-- What both callbacks do with the level of the name and with the number.
chosen-IsTaken :
    (top : ℕ) (ended : Bool) (named numbered : ℤ)
    → IsLevel top named
    → IsTaken top (
        let level =
          if int_eq named (negsuc 0)
          then if ended && int_leb (pos 0) numbered && int_leb numbered (pos top)
            then numbered
            else negsuc 0
          else named in
        if int_eq level (negsuc 0) then none else some level)
chosen-IsTaken top ended (pos n) numbered h = (n, refl, h)
chosen-IsTaken top ended (negsuc n) numbered h =
    let hit : (n == 0) ≡ true = (==_iff n 0).1 h in
    rw hit (level-IsTaken top _ (number-IsLevel top ended numbered))

pub opt_priority-IsTaken : (value : Str) → IsTaken 7 (opt_priority value)
unfolding opt_priority msg_get_priority_value tinu_lookup_name message_priority_names
opt_priority-IsTaken value =
    let levels : All (λ e. IsLevel 7 e.key) message_priority_names = (
      omega arith,
      (
        omega arith,
        (
          omega arith,
          (omega arith, (omega arith, (omega arith, (omega arith, (omega arith, tt))))),
        ),
      ),
    ) in
    chosen-IsTaken 7 (is_end (strtoul value).1) (msg_get_priority_value value)
      (to_signed 31 (strtoul value).0)
      (lookup_name_from-IsLevel 7 message_priority_names value (effective_length (negsuc 0) value)
        levels)

pub opt_stat_verb-IsTaken : (value : Str) → IsTaken 4 (opt_stat_verb value)
unfolding opt_stat_verb tinu_lookup_name statistics_verbosity_names
opt_stat_verb-IsTaken value =
    let levels : All (λ e. IsLevel 4 e.key) statistics_verbosity_names =
      (omega arith, (omega arith, (omega arith, (omega arith, (omega arith, tt))))) in
    chosen-IsTaken 4 (is_end (strtoul value).1)
      (tinu_lookup_name statistics_verbosity_names value (negsuc 0) (negsuc 0))
      (to_signed 63 (strtoul value).0)
      (lookup_name_from-IsLevel 4 statistics_verbosity_names value
        (effective_length (negsuc 0) value) levels)
