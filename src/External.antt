-- ===== src/External.antt =====
-- lib/report-external.c: the report that is written for another program to read. Times are
-- printed by an argument, since they are floating-point numbers of seconds.
pub mod Replace
pub mod Entries
pub mod Written
pub mod Reader
pub mod Reading
pub mod Fitting
use tinu.Prelude.{
  ℕ, zero, suc, ◌+◌, ◌-◌, Bool, true, false, ◌&&◌, not, Option, none, some, List, [], ◌∷◌, ◌++◌,
  pos, Str, bytes, length, get_elem?, take, drop, ◌==◌, ltb, if◌then◌else◌, show_int32, Outcome, ok,
  abort, crash, ◌>>=◌, deref,
}
use mathlib.Core.Option
use tinu.Suites.{TestCase, TestSuite, Suites}
use tinu.Runner.{CasePtr}
use tinu.Runner.Labels.{result_number, test_result_name}
use tinu.Message.Priority.{msg_format_priority}
use tinu.Statistics.{StatTestInfo, StatSuiteInfo, TestStatistics}

-- Whether a text begins with the two bytes of "%s".
unfoldable pub at_percent_s : Str → Bool
at_percent_s [] = false
at_percent_s (c ∷ []) = false
at_percent_s (c ∷ d ∷ s) = c == b'%' && d == b's'

-- `strstr(template, "%s")`: what stands before the first occurrence, and what stands behind it.
unfoldable pub find_percent_s : Str → Option (Str × Str)
unfolding at_percent_s
find_percent_s [] = none
find_percent_s (c ∷ s) =
    if at_percent_s (c ∷ s)
    then some ([], drop 1 s)
    else Option.map (λ r. (c ∷ r.0, r.1)) (find_percent_s s)

-- The loop of `_prg_report_replace` with its GString.
unfoldable pub replace_loop : ℕ → Str → Str → Str → Option Str
unfolding find_percent_s
replace_loop zero pos0 argument string = none
replace_loop (suc fuel) pos0 argument string = elim (find_percent_s pos0) [
  | none ↦ some (string ++ pos0)
  | some (before, behind) ↦ replace_loop fuel behind argument (string ++ (before ++ argument))
]

unfoldable pub report_replace : Str → Str → Option Str
unfolding replace_loop
report_replace template argument = replace_loop (suc (length template)) template argument []

-- `_prg_report_set`: the text goes into `g_prg_prefix`, of 4096 bytes.
unfoldable pub report_set : Str → Outcome Str
report_set prefix = if ltb (length prefix) 4096 then ok prefix else crash

-- `_prg_report_print`
unfoldable pub report_print : Str → Str → Str → Str
report_print prefix text file = file ++ (prefix ++ (b'.' ∷ (text ++ b'\n' ∷ [])))

-- `key=%d` of 32 bits
abbrev pub counted : Str → ℕ → Str
counted key n = key ++ (b'=' ∷ show_int32 n)

abbrev pub texted : Str → Str → Str
texted key s = key ++ (b'=' ∷ s)

-- A `%s` of `NULL` is not modelled as text.
unfoldable pub result_text : StatTestInfo → Outcome Str
result_text test = do name ← test_result_name (result_number test.result); deref name

unfoldable pub priority_text : ℕ → Outcome Str
priority_text i = do name ← msg_format_priority (pos i); deref name

-- `show_time` prints the time from the first to the second reading of the clock.
module _ (show_time : ℕ → ℕ → Str) (suites : Suites) where
  unfoldable pub put_case : TestSuite → StatTestInfo → Str → Outcome Str
  unfolding report_set report_print result_text
  put_case suite test file = do
    case ← deref (get_elem? suite.tests test.test.case)
    prefix ← report_set (bytes "suite." ++ (suite.name ++ (bytes ".test." ++ case.name)))
    result ← result_text test
    let file = report_print prefix (texted (bytes "result") result) file
    let file = report_print prefix (counted (bytes "asserts.passed") test.assertions_passed) file
    let file = report_print prefix (counted (bytes "asserts.total") test.assertions) file
    ok (report_print prefix (texted (bytes "time") (show_time test.start test.end_time)) file)

  unfoldable pub put_cases : TestSuite → List StatTestInfo → Str → Outcome Str
  unfolding put_case
  put_cases suite [] file = ok file
  put_cases suite (test ∷ tests) file = do
    file ← put_case suite test file
    put_cases suite tests file

  unfoldable pub put_suite : StatSuiteInfo → Str → Outcome Str
  unfolding put_cases
  put_suite info file = do
    suite ← deref (get_elem? suites info.suite)
    prefix ← report_set (bytes "suite." ++ suite.name)
    let file = report_print prefix (counted (bytes "result") (if info.result then 1 else 0)) file
    let file = report_print prefix (counted (bytes "asserts.passed") info.assertions_passed) file
    let file = report_print prefix (counted (bytes "asserts.total") info.assertions) file
    let file = report_print prefix (texted (bytes "time") (show_time info.start info.end_time)) file
    put_cases suite info.test_info_list file

  unfoldable pub put_suites : List StatSuiteInfo → Str → Outcome Str
  unfolding put_suite
  put_suites [] file = ok file
  put_suites (info ∷ infos) file = do file ← put_suite info file; put_suites infos file

  -- The loop over the priorities from `i`, `n` rounds before its end.
  unfoldable pub put_messages : ℕ → ℕ → List ℕ → Str → Str → Outcome Str
  unfolding priority_text report_print
  put_messages zero i messages prefix file = ok file
  put_messages (suc n) i messages prefix file = do
    name ← priority_text i
    count ← deref (get_elem? messages i)
    put_messages n (suc i) messages prefix (report_print prefix (counted name count) file)

  -- `_test_report_put_file`; LOG_CRIT is 2 and LOG_DEBUG 7.
  unfoldable pub put_file : TestStatistics → Str → Outcome Str
  unfolding report_set report_print put_suites put_messages
  put_file stat file = do
    prefix ← report_set (bytes "summary")
    let file = report_print prefix (counted (bytes "passed") stat.passed) file
    let file = report_print prefix (counted (bytes "failed") stat.failed) file
    let file = report_print prefix (counted (bytes "segfault") stat.sigsegv) file
    file ← put_suites stat.suite_info_list file
    prefix ← report_set (bytes "message")
    put_messages 6 2 stat.messages prefix file

-- The command that `test_report_program` runs on the file that it wrote.
unfoldable pub program_command : Option Str → Str → Str → Option Str
unfolding report_replace
program_command program_name template fname = elim program_name [
  | some name ↦ some (name ++ (b' ' ∷ fname))
  | none ↦ report_replace template fname
]

-- `_prg_report_passfile`: the name of the temporary file; `made` is what g_mkstemp makes, if it
-- does.
unfoldable pub report_passfile : Option Str → Outcome Str
report_passfile none = abort
report_passfile (some name) = ok name

-- `test_report_program`: the text of the file, and the command.
unfoldable pub test_report_program :
    (ℕ → ℕ → Str)
    → Suites
    → TestStatistics
    → Option Str
    → Str
    → Option Str
    → Outcome (Str × Option Str)
unfolding put_file program_command report_passfile
test_report_program show_time suites stat program_name template made = do
  fname ← report_passfile made
  file ← put_file show_time suites stat []
  ok (file, program_command program_name template fname)

-- It takes every verbosity, with or without colours.
unfoldable pub test_report_program_check : ℕ → Bool → Bool
test_report_program_check verbosity enable_colour = true

-- `test_report_file_check`: whether it succeeds, and the name of the file that is open.
-- `can_create` says which files fopen creates.
unfoldable pub test_report_file_check : (Str → Bool) → Option Str → Bool × Option Str
test_report_file_check can_create filename = elim filename [
  | none ↦ (false, none)
  | some name ↦ if can_create name then (true, some name) else (false, none)
]

-- `test_report_file`: the text of the open file; without one fprintf goes through `NULL`.
unfoldable pub test_report_file : (ℕ → ℕ → Str) → Suites → TestStatistics → Option Str → Outcome Str
unfolding put_file
test_report_file show_time suites stat file = do
  name ← deref file
  put_file show_time suites stat []
