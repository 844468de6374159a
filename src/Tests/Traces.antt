-- ===== src/Tests/Traces.antt =====
-- A stack of three frames, with the line numbers of one unit.
use tinu.Prelude.{
  ℕ, ◌+◌, ◌-◌, ◌^◌, ◌≤◌, ◌<◌, ◌≡◌, refl, false, Option, none, some, List, [], ◌∷◌, Str, bytes,
  length, get_elem?, ltb, if◌then◌else◌, ok, crash, arith, ◌>>=◌, deref,
}
use tinu.External.Replace.{join}
use tinu.Backtrace.Lines.{unopened, after_backtraces, exit_handlers, exit_handlers-dw_new}
use tinu.Backtrace.{
  Backtrace, DlInfo, max_depth, backtrace_create_depth, backtrace_depth, backtrace_reference,
  backtrace_unreference, backtrace_resolve_info, backtrace_line, function_name, msg_tag_trace,
}
use tinu.Backtrace.Counting.{Step, reference, unreference, run, holders, held, run-holders}
use tinu.Backtrace.Frames.{backtrace_line-create_depth}
use tinu.Backtrace.Trace.{named, frame_name, msg_tag_trace-named}
use tinu.Dwarf.{DwarfEntry, DwarfHandle, dw_lookup, Binary, dlv_error, dw_new}
use tinu.Dwarf.Nearest.{LooksUp, dw_lookup-Nearest}

abbrev dladdr : ℕ → Option DlInfo
dladdr addr = some (record { fname = none; sname = some (bytes "main"); saddr = 64 })

abbrev dladdr_info : DlInfo
dladdr_info = record { fname = none; sname = some (bytes "main"); saddr = 64 }

abbrev demangler : Str → Option Str
demangler name = some name

abbrev frames : List ℕ
frames = 100 ∷ 0 ∷ 80 ∷ []

-- The depth of one is not looked at.
backtrace_line-create_depth_example :
    (trace : Backtrace) × ((backtrace_create_depth (some frames) 1 1).0 ≡ some trace)
    × (backtrace_depth trace ≡ length frames - 1)
    × (backtrace_depth trace ≤ max_depth)
    × ((index : ℕ)
        → backtrace_line dladdr demangler trace index ≡ (
            if ltb index (length frames - 1)
            then deref (get_elem? frames (1 + index)) >>= backtrace_resolve_info dladdr demangler
            else ok none))
backtrace_line-create_depth_example =
    backtrace_line-create_depth dladdr demangler frames 1 1 (omega arith)

abbrev trace : Backtrace
trace = record { refcnt = 1; length_ = 3; symbols = frames }

abbrev steps : List Step
steps = reference ∷ unreference ∷ unreference ∷ []

run-holders_example :
    run steps (held trace 1) ≡ elim (holders steps 1) [ none ↦ crash | some k ↦ ok (held trace k) ]
run-holders_example = run-holders steps 1 trace (omega arith)

freed_at_the_end : run steps (held trace 1) ≡ ok none
unfolding run backtrace_reference backtrace_unreference
freed_at_the_end = refl

named_frames : named dladdr demangler 100 (0 ∷ 80 ∷ []) ≡ bytes "main, ???, main"
unfolding named frame_name function_name join
named_frames = refl

short_names : length (named dladdr demangler 100 (0 ∷ 80 ∷ [])) + 2 < 2 ^ 64
short_names = rw named_frames (omega arith)

msg_tag_trace-named_example :
    msg_tag_trace dladdr demangler (bytes "trace") trace
    ≡ ok (record { tag = bytes "trace"; value = named dladdr demangler 100 (0 ∷ 80 ∷ []) })
msg_tag_trace-named_example =
    msg_tag_trace-named dladdr demangler (bytes "trace") trace 100 (0 ∷ 80 ∷ []) refl refl
      (
        (λ frame. (dladdr_info, refl)),
        ((λ frame. (dladdr_info, refl)), ((λ frame. (dladdr_info, refl)), tt)),
      )
      short_names

abbrev line : ℕ → ℕ → DwarfEntry
line pointer lineno = record { source = bytes "main.c"; pointer = pointer; lineno = lineno }

abbrev handle : DwarfHandle
handle = record {
  filename = bytes "a.out";
  entries =
      record { entries = line 64 1 ∷ line 90 2 ∷ line 110 3 ∷ []; lowpc = 64; highpc = 128 } ∷ [];
}

dw_lookup-Nearest_example : LooksUp handle 100 (dw_lookup handle 100 48)
dw_lookup-Nearest_example = dw_lookup-Nearest handle 100 48

-- Address 100 belongs to line 2, whose code begins at 90; line 3 begins at 110.
line_above : dw_lookup handle 100 48 ≡ ok (some (line 110 3))
unfolding dw_lookup
line_above = refl

-- A file without debug information.
abbrev bare : Binary
bare = record { opens = false; init = dlv_error; units = []; ends_in_error = false }

exit_handlers-dw_new_example :
    ((after_backtraces 3 (bytes "prog") bare unopened).opened ≡ 1)
    × ((after_backtraces 3 (bytes "prog") bare unopened).at_exit ≡ 1)
    × (exit_handlers
          (after_backtraces 3 (bytes "prog") bare unopened).at_exit
          (after_backtraces 3 (bytes "prog") bare unopened)
        ≡ crash)
unfolding dw_new
exit_handlers-dw_new_example = exit_handlers-dw_new 2 (bytes "prog") bare
