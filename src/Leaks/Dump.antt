-- ===== src/Leaks/Dump.antt =====
-- The dump of a leak with its backtraces (lib/leakwatch.c).
use tinu.Prelude.{
  ℕ, Option, List, [], ◌∷◌, ◌++◌, map, Str, bytes, ◌==◌, if◌then◌else◌, Outcome, ok, ◌>>=◌, deref,
}
use tinu.Dwarf.{DwarfHandle}
use tinu.Backtrace.{DlInfo, Logged}
use tinu.Backtrace.Dump.{backtrace_dump_log}
use tinu.Leaks.Calls.{simple_dump}
use tinu.Leaks.Origins.{Memory, load, TracedEntry}

module _ (dladdr : ℕ → Option DlInfo) (demangler : Str → Option Str) (dwarf : Option DwarfHandle)
    (memory : Memory) where
  -- A title and the frames of the backtrace, unless the pointer is NULL.
  unfoldable pub dump_trace : Str → ℕ → Outcome (List Logged)
  unfolding backtrace_dump_log load
  dump_trace title p = if p == 0 then ok [] else (do
    trace ← deref (load memory p)
    frames ← backtrace_dump_log dladdr demangler dwarf trace
    ok ((title, []) ∷ map (λ tags. (bytes "    ", tags)) frames))

  -- `_tinu_leakwatch_simple_dump`: the messages, each with its tags.
  unfoldable pub traced_dump : TracedEntry → Outcome (List Logged)
  unfolding dump_trace simple_dump
  traced_dump self = do
    origin ← dump_trace (bytes "  Original allocator") self.origin
    last ← dump_trace (bytes "  Last (re)allocator") self.last
    ok (simple_dump (record { ptr = self.ptr; size = self.size }) ∷ origin ++ last)
