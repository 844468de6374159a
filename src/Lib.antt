-- ===== src/Lib.antt =====
-- tinu, a unit test library for C: its data structures, its log, the registry and the runner of
-- tests, their statistics and reports, the watch for leaks, backtraces, and the main program.
--
-- Test programs add cases to the suites of a context (lib/test.c), which runs them and calls
-- hooks; the hooks stand in circular lists (lib/clist.c). All parts report by messages with tags
-- (lib/message.c), which the log (lib/log.c) hands to the handlers that are registered;
-- priorities and results get their names from name tables (lib/names.c). The statistics
-- (lib/statistics.c) count what the hooks tell; a watch (lib/leakwatch.c) keeps a table of the
-- blocks that are live. tinu_main (lib/main.c) runs what the options select and hands the
-- statistics to a report (lib/report-standard.c, lib/report-external.c); messages name the
-- frames of a stack (lib/backtrace.c), with the lines of lib/dwarf.c.
--
-- Files:
-- - Prelude: the names that the modules share. An `Outcome` is what a call comes to: a value, an
--   abort (a failed g_assert or a refused allocation) or a crash (an access through NULL or out
--   of an array). A `Str` is the list of the bytes of a C string. Numbers are the native ones; a
--   C integer that may be negative is a ℤ of the library's names over them.
-- - Names: lib/names.c. A table is a list of entries; a length of -1 is left to the function.
-- - Message: lib/message.c. A message keeps the array of slots of the C struct with the number
--   of tags in use; `limit` is the largest array that GLib grants. The gint sizes wrap at 2 ^
--   32, and a size of 2 ^ 31 or more, negative as a gint, is never granted.
-- - Log: lib/log.c. The globals are the record `Log`; a handler is a function on a world, of any
--   type, that says whether it propagates. An entry is known by its address, an argument of the
--   function that registers it. log_wrap is the macro behind log_error and the others.
-- - CList: lib/clist.c. A list is the address of its head in a store from addresses to nodes
--   (CList/Heap); CList/Ring says when addresses and data form a ring. Loops run on fuel; the
--   theorems about them say what fuel is enough. A callback that frees data is modelled by the
--   list of the data it was called with, newest first.
-- - Suites: lib/test.c, the suites and cases of a context. A pointer to a suite or a case is its
--   position; a function pointer is a number.
-- - Runner: lib/test.c, running cases, suites and all suites. What the code of a test does is a
--   finite list of assertions and signals, an argument, so that a test that never ends, calls
--   exit or gets another signal is not covered; a signal that is handled leaves the test at
--   once, one that is not ends the program. A hook is a function on a world, of any type.
--   Runner/Hooks registers and unregisters them; the loop that removes entries of a hook
--   (Runner/Unregister) goes on for at most as many further rounds as there are entries, which
--   is enough since each of them has an entry less. Runner/Simple has the tests without a
--   context argument, whose functions stand on a heap.
-- - Statistics: lib/statistics.c. Pointers into the arrays of suites and tests are positions;
--   the readings of the clock are an argument; the counters have 32 bits. A hook that goes
--   through NULL leaves the world `crash`. Statistics/Expected says what a run should leave in
--   them. Statistics/Life starts, stops and destroys them on a context and the log.
-- - Leaks: lib/leakwatch.c, the table of live blocks over a hash table that is an argument with
--   laws, the watches with the hooks of the allocator, which always change together and are one
--   here, and (Leaks/Calls) what the hooks do on a call of the allocator, whose results are
--   arguments. Leaks/Live has the live blocks to compare the table with, and whether malloc made
--   them. Leaks/Origins has the table again, with the backtraces that its entries hold in a
--   memory of backtraces.
-- - External: lib/report-external.c. External/Entries says what a report holds, External/Reader
--   is the program that reads it. A time is printed by an argument. The prefix has 4096 bytes; a
--   longer one is a crash.
-- - Reporting and Standard: lib/reporting.c and lib/report-standard.c. A format is the list of
--   its pieces (Standard/Printing); Standard/Strip leaves the escape sequences of a text out.
-- - Backtrace: lib/backtrace.c. The stack, dladdr and the demangler are arguments; a backtrace
--   that is freed is `none`. Backtrace/Counting counts its holders, Backtrace/Lines opens the
--   debug information and frees it at the exit.
-- - Dwarf: lib/dwarf.c. What libdwarf returns for a file is an argument.
-- - Main: lib/main.c and lib/meta.c, with the callbacks of options in Main/Callbacks, the table
--   of the options in Main/Settings and what reading it comes to in Main/Read, the handlers of
--   messages in Main/Logging and the report modules of the framework in Main/Modules; Main/Filed
--   follows a run from the suites to the file that is read back. What GOption makes of the
--   command line is an argument, and so is a report module, from statistics to any result.
-- - CxxWrap: lib/cxxwrap.cc and lib/tinu/cxxwrap.h. CxxWrap/Tags keeps the pointers to the names
--   and values of the tags beside the message, since the map compares pointers; CxxWrap/Cases
--   has a method as what it does up to its end, which may be an exception.
-- - Utils: lib/utils.c. Which sizes the allocator grants is an argument, and a block is the list
--   of its bytes.
-- - Tests: the theorems at concrete inputs, and runs of the definitions.
--
-- Not modelled: parsing the command line (GLib), the allocator itself, running the command of
-- the program report, opening and closing files and the system log, which are calls of other
-- libraries; coredumper/, a copy of another project; the scripts and the examples. Memory that
-- is freed twice or read after it is freed is visible only in CList, whose store loses a node
-- that is released, in the counts of Backtrace and in the memory of Leaks/Origins; allocation of
-- single nodes and structs always succeeds, at an address that is an argument.
pub mod Prelude
pub mod Names
pub mod Message
pub mod Log
pub mod CList
pub mod Suites
pub mod Runner
pub mod Statistics
pub mod Leaks
pub mod External
pub mod Reporting
pub mod Standard
pub mod Backtrace
pub mod Dwarf
pub mod Main
pub mod CxxWrap
pub mod Utils
pub mod Tests
