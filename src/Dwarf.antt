-- ===== src/Dwarf.antt =====
-- lib/dwarf.c and lib/tinu/dwarf.h: the line numbers of a running binary. What libdwarf returns
-- for the file is an argument.
pub mod Nearest
use tinu.Prelude.{
  ℕ, zero, suc, ◌+◌, ◌-◌, ◌*◌, ◌%◌, ◌^◌, Bool, true, false, ◌&&◌, not, Option, none, some, List, [],
  ◌∷◌, ◌++◌, Str, ltb, leb, ◌==◌, if◌then◌else◌, Outcome, ok, crash, ◌>>=◌,
}
use mathlib.Core.Option

pub record DwarfEntry : Type 0 where
  pub source : Str
  pub pointer : ℕ
  pub lineno : ℕ

pub record DwarfCompUnit : Type 0 where
  pub entries : List DwarfEntry
  pub lowpc : ℕ
  pub highpc : ℕ

pub record DwarfHandle : Type 0 where
  pub filename : Str
  pub entries : List DwarfCompUnit

-- DW_DLV_OK with what is stored, DW_DLV_NO_ENTRY and DW_DLV_ERROR.
pub data DwResult (A : Type 0) : Type 0 where
  dlv_ok : A → DwResult A
  dlv_no_entry : DwResult A
  dlv_error : DwResult A

-- What libdwarf tells of one line, and of one compilation unit.
pub record LineData : Type 0 where
  pub linesrc : DwResult Str
  pub lineaddr : DwResult ℕ
  pub lineno : DwResult ℕ

pub record UnitData : Type 0 where
  pub srclines : DwResult (List LineData)
  pub lowpc : DwResult ℕ
  pub highpc : DwResult ℕ

-- `DWARF_ADDR_TO_GPOINTER`: through an int, whose sign is extended to 64 bits.
unfoldable pub addr_to_gpointer : ℕ → ℕ
addr_to_gpointer addr =
    let low = addr % 2 ^ 32 in if ltb low (2 ^ 31) then low else low + (2 ^ 64 - 2 ^ 32)

abbrev pub dlv_get : {A : Type 0} → DwResult A → Option A
dlv_get (dlv_ok a) = some a
dlv_get dlv_no_entry = none
dlv_get dlv_error = none

-- One round of the loop over the lines.
unfoldable pub line_entry : LineData → Option DwarfEntry
unfolding addr_to_gpointer
line_entry line = elim (dlv_get line.linesrc) [
  | none ↦ none
  | some filename ↦ elim (dlv_get line.lineaddr) [
    | none ↦ none
    | some addr ↦ elim (dlv_get line.lineno) [
      | none ↦ none
      | some number ↦
          some (record {
            source = filename;
            pointer = addr_to_gpointer addr;
            lineno = number % 2 ^ 32;
          })
    ]
  ]
]

-- The loop, with the list it has built.
unfoldable pub line_loop : List LineData → List DwarfEntry → Option (List DwarfEntry)
unfolding line_entry
line_loop [] built = some built
line_loop (line ∷ lines) built = elim (line_entry line) [
  | none ↦ none
  | some entry ↦ line_loop lines (built ++ entry ∷ [])
]

-- `_dw_process_unit`: whether it succeeds, and the unit it stores.
unfoldable pub dw_process_unit : UnitData → Bool × Option DwarfCompUnit
unfolding line_loop
dw_process_unit data_ = elim data_.srclines [
  | dlv_no_entry ↦ (true, none)
  | dlv_error ↦ (false, none)
  | dlv_ok lines ↦ elim data_.lowpc [
    | dlv_error ↦ (false, none)
    | dlv_no_entry ↦ (true, none)
    | dlv_ok low ↦ elim data_.highpc [
      | dlv_error ↦ (false, none)
      | dlv_no_entry ↦ (true, none)
      | dlv_ok high ↦ elim (line_loop lines []) [
        | none ↦ (false, none)
        | some entries ↦ (
          true,
          some (record {
            entries = entries;
            lowpc = addr_to_gpointer low;
            highpc = addr_to_gpointer high;
          }),
        )
      ]
    ]
  ]
]

-- The file: whether it opens, what dwarf_init returns (`none` is a failure without an error), each
-- unit with the result of dwarf_siblingof, and whether the last header is an error.
pub record Binary : Type 0 where
  pub opens : Bool
  pub init : DwResult (Unit {0})
  pub units : List (Option UnitData)
  pub ends_in_error : Bool

-- The loop of `dw_new` over the units, with the list it has built.
unfoldable pub unit_loop : List (Option UnitData) → List DwarfCompUnit → Option (List DwarfCompUnit)
unfolding dw_process_unit
unit_loop [] built = some built
unit_loop (none ∷ units) built = none
unit_loop (some data_ ∷ units) built =
    let (success, result) = dw_process_unit data_ in
    elim success [
      | false ↦ none
      | true ↦ elim result [
        | none ↦ unit_loop units built
        | some unit ↦ unit_loop units (built ++ unit ∷ [])
      ]
    ]

unfoldable pub dw_new : Str → Binary → Option DwarfHandle
unfolding unit_loop
dw_new name binary = if not binary.opens then none else elim binary.init [
  | dlv_error ↦ none
  | dlv_no_entry ↦ some (record { filename = name; entries = [] })
  | dlv_ok u ↦ elim (unit_loop binary.units []) [
    | none ↦ none
    | some entries ↦
        if binary.ends_in_error then none else some (record { filename = name; entries = entries })
  ]
]

unfoldable pub contains : ℕ → DwarfCompUnit → Bool
contains ptr unit = leb unit.lowpc ptr && leb ptr unit.highpc

-- The first loop of `dw_lookup`.
unfoldable pub find_unit : ℕ → List DwarfCompUnit → Option DwarfCompUnit
unfolding contains
find_unit ptr [] = none
find_unit ptr (unit ∷ units) =
    let rest = find_unit ptr units in if contains ptr unit then some unit else rest

-- The second loop, with `entry`, which is not written before the first round.
unfoldable pub find_entry : ℕ → List DwarfEntry → Outcome DwarfEntry → Outcome DwarfEntry
find_entry ptr [] entry = entry
find_entry ptr (e ∷ entries) entry =
    let rest = find_entry ptr entries (ok e) in if ltb ptr e.pointer then ok e else rest

unfoldable pub dw_lookup : DwarfHandle → ℕ → ℕ → Outcome (Option DwarfEntry)
unfolding find_unit find_entry
dw_lookup self ptr tolerance = elim (find_unit ptr self.entries) [
  | none ↦ ok none
  | some unit ↦ do entry ← find_entry ptr unit.entries crash; ok (some entry)
]
