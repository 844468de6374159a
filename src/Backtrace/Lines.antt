-- ===== src/Backtrace/Lines.antt =====
-- The debug information of the program (lib/backtrace.c and lib/dwarf.c): it is opened with the
-- first backtrace and freed when the program exits.
use tinu.Prelude.{
  ℕ, zero, suc, ◌+◌, ◌≡◌, refl, ap, ◌∙◌, Bool, true, false, Option, none, some, List, [], ◌∷◌, ◌++◌,
  Str, if◌then◌else◌, Outcome, ok, crash, ◌>>=◌, deref,
}
use mathlib.Core.List.{foldr}
use tinu.Dwarf.{DwarfEntry, DwarfCompUnit, DwarfHandle, Binary, dw_new}

-- `_dw_clean_handle` on each unit: the entries that are freed.
unfoldable pub clean_units : List DwarfCompUnit → List DwarfEntry
clean_units [] = []
clean_units (unit ∷ units) = unit.entries ++ clean_units units

-- `dw_destroy` on a pointer that may be NULL: the entries that are freed.
unfoldable pub dw_destroy : Option DwarfHandle → Outcome (List DwarfEntry)
unfolding clean_units
dw_destroy handle = do self ← deref handle; ok (clean_units self.entries)

-- `g_backtrace_init` and `g_backtrace_dwarf`, with the number of calls of `dw_new` and of those
-- that gave `_backtrace_cleanup` to atexit.
pub record DebugInfo : Type 0 where
  pub init : Bool
  pub dwarf : Option DwarfHandle
  pub opened : ℕ
  pub at_exit : ℕ

-- `_backtrace_init`; `runtime_name` is `g_runtime_name` and `binary` what libdwarf finds in it.
unfoldable pub backtrace_init : Str → Binary → DebugInfo → DebugInfo
unfolding dw_new
backtrace_init runtime_name binary self = if self.init then self else record {
  init = true;
  dwarf = dw_new runtime_name binary;
  opened = self.opened + 1;
  at_exit = self.at_exit + 1;
}

unfoldable pub backtrace_cleanup : DebugInfo → Outcome (List DwarfEntry)
unfolding dw_destroy
backtrace_cleanup self = dw_destroy self.dwarf

-- What exit does with the calls of `_backtrace_cleanup`; a second one frees what is freed.
unfoldable pub exit_handlers : ℕ → DebugInfo → Outcome (List DwarfEntry)
unfolding backtrace_cleanup
exit_handlers zero self = ok []
exit_handlers (suc zero) self = backtrace_cleanup self
exit_handlers (suc (suc n)) self = do freed ← backtrace_cleanup self; crash

-- The globals before the program makes a backtrace, and after `n` of them.
abbrev pub unopened : DebugInfo
unopened = record { init = false; dwarf = none; opened = 0; at_exit = 0 }

unfoldable pub after_backtraces : ℕ → Str → Binary → DebugInfo → DebugInfo
unfolding backtrace_init
after_backtraces zero runtime_name binary self = self
after_backtraces (suc n) runtime_name binary self =
    after_backtraces n runtime_name binary (backtrace_init runtime_name binary self)

once_open :
    (n : ℕ) (runtime_name : Str) (binary : Binary) (self : DebugInfo)
    → self.init ≡ true
    → after_backtraces n runtime_name binary self ≡ self
unfolding after_backtraces backtrace_init
once_open zero runtime_name binary self opened = refl
once_open (suc n) runtime_name binary self opened =
    ap (after_backtraces n runtime_name binary) (rw opened refl)
    ∙ once_open n runtime_name binary self opened

-- The entries of a unit, and of each unit behind it.
abbrev pub lines_of : DwarfHandle → List DwarfEntry
lines_of handle = foldr (λ (unit : DwarfCompUnit) lines. unit.entries ++ lines) [] handle.entries

clean_units-foldr :
    (units : List DwarfCompUnit)
    → clean_units units ≡ foldr (λ (unit : DwarfCompUnit) lines. unit.entries ++ lines) [] units
unfolding clean_units
clean_units-foldr [] = refl
clean_units-foldr (unit ∷ units) = ap (λ lines. unit.entries ++ lines) (clean_units-foldr units)

freed :
    (handle : Option DwarfHandle)
    → dw_destroy handle ≡ elim handle [ none ↦ crash | some h ↦ ok (lines_of h) ]
unfolding dw_destroy
freed none = refl
freed (some h) = ap ok (clean_units-foldr h.entries)

-- However many backtraces a program makes, one at least, its debug information is opened once, by
-- the first of them, and one call at the exit frees it: the lines of every unit, in order; but
-- where it cannot be opened the exit goes through NULL.
pub exit_handlers-dw_new :
    (n : ℕ) (runtime_name : Str) (binary : Binary)
    → let self = after_backtraces (suc n) runtime_name binary unopened in
      (self.opened ≡ 1)
      × (self.at_exit ≡ 1)
      × (exit_handlers self.at_exit self
          ≡ elim (dw_new runtime_name binary) [ none ↦ crash | some handle ↦ ok (lines_of handle) ])
unfolding after_backtraces backtrace_init exit_handlers dw_destroy
exit_handlers-dw_new n runtime_name binary =
    let opened : DebugInfo = record {
      init = true;
      dwarf = dw_new runtime_name binary;
      opened = 1;
      at_exit = 1;
    } in
    let same = once_open n runtime_name binary opened refl in
    (
      ap (λ (self : DebugInfo). self.opened) same,
      ap (λ (self : DebugInfo). self.at_exit) same,
      ap (λ (self : DebugInfo). exit_handlers self.at_exit self) same
          ∙ freed (dw_new runtime_name binary),
    )
