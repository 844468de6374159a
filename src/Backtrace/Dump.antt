-- ===== src/Backtrace/Dump.antt =====
-- Writing a backtrace (lib/backtrace.c): the lines for a file and the messages for the log, with
-- the line numbers of lib/dwarf.c. `name` is a pointer that may be NULL, which glibc prints.
use tinu.Prelude.{
  ℕ, Option, none, some, List, [], ◌∷◌, ◌++◌, Str, bytes, pad_left, show_int32, Outcome, ok, ◌>>=◌,
}
use tinu.Message.{MessageTag}
use tinu.Message.Priority.{msg_tag_str}
use tinu.Message.Values.{msg_tag_hex, msg_tag_ptr, msg_generate_tag}
use tinu.Dwarf.{DwarfHandle, dw_lookup}
use tinu.Backtrace.{BacktraceEntry, Backtrace, DlInfo, backtrace_dump}

-- `_backtrace_get_lineinfo`; `none` is the result FALSE.
unfoldable pub get_lineinfo : Option DwarfHandle → BacktraceEntry → Outcome (Option (Str × ℕ))
get_lineinfo handle entry = elim handle [
  | none ↦ ok none
  | some dwarf ↦ do
    found ← dw_lookup dwarf entry.ptr 48
    ok (elim found [ none ↦ none | some line ↦ some (line.source, line.lineno) ])
]

abbrev or_null : Option Str → Str
or_null none = bytes "(null)"
or_null (some s) = s

-- `_backtrace_dump_file_callback`: what is written; `%*c` pads a space. The
-- name of the function is never NULL.
unfoldable pub dump_file_callback : Option DwarfHandle → ℕ → Option BacktraceEntry → Outcome Str
unfolding get_lineinfo
dump_file_callback handle indent entry =
    let margin = pad_left indent (b' ' ∷ []) in
    elim entry [
      | none ↦ ok (margin ++ (bytes "<invalid frame>" ++ b'\n' ∷ []))
      | some frame ↦ do
        line ← get_lineinfo handle frame
        ok (
            margin
            ++ (frame.function
                ++ (b'\n' ∷ elim line [
                  | none ↦ []
                  | some (source, number) ↦
                      b'\t' ∷ bytes "location: "
                      ++ (source ++ (b':' ∷ show_int32 number ++ b'\n' ∷ []))
                ])))
    ]

-- `_backtrace_dump_log_callback`: the tags of the message.
unfoldable pub dump_log_callback :
    Option DwarfHandle → Option BacktraceEntry → Outcome (List MessageTag)
unfolding get_lineinfo
dump_log_callback handle entry = elim entry [
  | none ↦ ok (msg_tag_str (bytes "error") (bytes "invalid frame") ∷ [])
  | some frame ↦ do
    line ← get_lineinfo handle frame
    let location : Str = elim line [
      | none ↦ or_null none ++ (b':' ∷ show_int32 0)
      | some (source, number) ↦ source ++ (b':' ∷ show_int32 number)
    ]
    ok (
        msg_tag_str (bytes "function") frame.function
        ∷ msg_tag_str (bytes "file") (or_null frame.file)
        ∷ msg_tag_hex (bytes "offset") frame.offset
        ∷ msg_tag_ptr (bytes "ptr") frame.ptr
        ∷ msg_generate_tag (bytes "location") location
        ∷ [])
]

-- `backtrace_dump_file`: what is written, each frame behind those before it.
unfoldable pub backtrace_dump_file :
    (ℕ → Option DlInfo) → (Str → Option Str) → Option DwarfHandle → Backtrace → ℕ → Outcome Str
unfolding dump_file_callback
backtrace_dump_file dladdr demangler handle self indent = do
  written ←
      backtrace_dump dladdr demangler
        (λ entry written. do
          before ← written
          here ← dump_file_callback handle indent entry
          ok (before ++ here))
        self (ok [])
  written

-- `backtrace_dump_log`: the tags of each message, in order; every message has the same text and
-- priority.
unfoldable pub backtrace_dump_log :
    (ℕ → Option DlInfo)
    → (Str → Option Str)
    → Option DwarfHandle
    → Backtrace
    → Outcome (List (List MessageTag))
unfolding dump_log_callback
backtrace_dump_log dladdr demangler handle self = do
  logged ←
      backtrace_dump dladdr demangler
        (λ entry logged. do
          before ← logged
          here ← dump_log_callback handle entry
          ok (before ++ here ∷ []))
        self (ok [])
  logged
