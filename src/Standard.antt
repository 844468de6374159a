-- ===== src/Standard.antt =====
-- lib/report-standard.c: the report for people, with colours if they are wanted. What a call
-- prints is its result. `%.2lf` is an argument that prints the quotient of two numbers.
pub mod Printing
pub mod Strip
pub mod Agreeing
pub mod Parts
pub mod Titles
pub mod Colours
use tinu.Prelude.{
  ℕ, zero, suc, ◌-◌, ◌*◌, Bool, true, false, not, Option, none, some, List, [], ◌∷◌, ◌++◌, pos, Str,
  bytes, length, get_elem?, take, ◌==◌, leb, ltb, if◌then◌else◌, show_nat, Outcome, ok, abort,
  crash, ◌>>=◌, deref,
}
use tinu.Suites.{TestSuite, Suites}
use tinu.Runner.{
  TestCaseResult, test_none, test_passed, test_failed, test_abort, test_segfault, test_internal,
}
use tinu.Runner.Labels.{result_number, test_result_name}
use tinu.Message.Priority.{msg_format_priority}
use tinu.Statistics.{StatTestInfo, StatSuiteInfo, TestStatistics}
use tinu.Reporting.{stat_verb_summary, stat_verb_suites, stat_verb_full, stat_verb_verbose}
use tinu.Standard.Printing.{
  Piece, text, number, string, left_string, right_number, Arg, int, str, vfprintf, report_printf,
}

-- `SIZE_1MB` is `SIZE_1KB * 1024` without parentheses: dividing by it multiplies by 1024.
module _ (show_quotient : ℕ → ℕ → Str) where
  unfoldable pub humanly_readable_size : ℕ → ℕ → Str
  humanly_readable_size max_size size = take (max_size - 1) (
      if leb (1024 * 1024) size
      then show_quotient (size * 1024) 1024 ++ bytes " MB"
      else if leb 1024 size
      then show_quotient size 1024 ++ bytes " kB"
      else show_nat size ++ bytes " B")

-- The macros `COL_*`: a format between two escape sequences.
unfoldable pub coloured : Str → Bool → List Piece → List Piece
coloured code colour format =
    if colour then text (27 ∷ code) ∷ format ++ text (27 ∷ bytes "[0m") ∷ [] else format

abbrev pub col_ok : Bool → List Piece → List Piece
col_ok = coloured (bytes "[32m")

abbrev pub col_fail : Bool → List Piece → List Piece
col_fail = coloured (bytes "[31m")

abbrev pub col_fatal : Bool → List Piece → List Piece
col_fatal = coloured (bytes "[1;41m")

abbrev pub col_entry : Bool → List Piece → List Piece
col_entry = coloured (bytes "[35m")

abbrev pub summary_formats : TestStatistics → Bool → List (List Piece)
summary_formats stat colour =
    (text (bytes "Summary: ") ∷ [])
    ∷ col_ok colour (text (bytes "passed: ") ∷ number ∷ text (bytes " ") ∷ [])
    ∷ col_fail colour (text (bytes "failed: ") ∷ number ∷ text (bytes " ") ∷ [])
    ∷ (if stat.sigsegv == 0
        then []
        else col_fatal colour (text (bytes "segmentation faults: ") ∷ number ∷ []))
    ∷ (text (b'\n' ∷ []) ∷ [])
    ∷ []

-- `_std_report_show_summary`
unfoldable pub show_summary : TestStatistics → Bool → Outcome Str
unfolding coloured report_printf
show_summary stat colour =
    report_printf (summary_formats stat colour)
      (int stat.passed ∷ int stat.failed ∷ int stat.sigsegv ∷ [])

-- The same macros around a plain string.
unfoldable pub coloured_text : Str → Bool → Str → Str
coloured_text code colour s = if colour then (27 ∷ code) ++ (s ++ (27 ∷ bytes "[0m")) else s

unfoldable pub verdict : Bool → Bool → Str
unfolding coloured_text
verdict result colour =
    if result
    then coloured_text (bytes "[32m") colour (bytes "passed")
    else coloured_text (bytes "[31m") colour (bytes "failed")

abbrev pub assertions_format : List Piece
assertions_format = text (bytes " assertions passed: ") ∷ number ∷ text (bytes "/") ∷ number ∷ []

unfoldable pub show_assertions : ℕ → ℕ → ℕ → Outcome Str
unfolding vfprintf
show_assertions verbosity passed total =
    if verbosity == stat_verb_verbose
    then vfprintf assertions_format (int passed ∷ int total ∷ [])
    else ok []

abbrev pub suite_formats : Bool → List (List Piece)
suite_formats colour =
    (text (bytes "Suite  ") ∷ [])
    ∷ col_entry colour (left_string ∷ [])
    ∷ (text (bytes " ") ∷ string ∷ [])
    ∷ []

-- `_std_report_show_suite`
unfoldable pub show_suite : Suites → StatSuiteInfo → ℕ → Bool → Outcome Str
unfolding coloured report_printf verdict show_assertions
show_suite suites info verbosity colour = do
  suite ← deref (get_elem? suites info.suite)
  line ←
      report_printf (suite_formats colour)
        (int 30 ∷ str suite.name ∷ str (verdict info.result colour) ∷ [])
  more ← show_assertions verbosity info.assertions_passed info.assertions
  ok (line ++ (more ++ b'\n' ∷ []))

-- The colour of a result; `none` is `g_assert_not_reached`.
unfoldable pub result_format : TestCaseResult → Bool → Option (List Piece)
unfolding coloured
result_format test_passed colour = some (col_ok colour (string ∷ []))
result_format test_failed colour = some (col_fail colour (string ∷ []))
result_format test_segfault colour = some (col_fatal colour (string ∷ []))
result_format test_abort colour = some (col_fatal colour (string ∷ []))
result_format test_internal colour = some (col_fatal colour (string ∷ []))
result_format test_none colour = none

unfoldable pub show_result : TestCaseResult → Str → Bool → Outcome Str
unfolding result_format report_printf
show_result result name colour = elim (result_format result colour) [
  | some format ↦ report_printf (format ∷ []) (str name ∷ [])
  | none ↦ abort
]

abbrev pub priority_format : List Piece
priority_format =
    text (bytes "    ") ∷ left_string ∷ text (bytes " ") ∷ right_number ∷ text (b'\n' ∷ []) ∷ []

unfoldable pub priority_line : ℕ → ℕ → Outcome Str
unfolding vfprintf
priority_line i count = do
  name ← msg_format_priority (pos i)
  name ← deref name
  vfprintf priority_format (int 25 ∷ str name ∷ int 10 ∷ int count ∷ [])

-- The loop over the priorities from `i`, `n` rounds before its end.
unfoldable pub show_messages : ℕ → ℕ → List ℕ → Outcome Str
unfolding priority_line
show_messages zero i messages = ok []
show_messages (suc n) i messages = do
  count ← deref (get_elem? messages i)
  line ← priority_line i count
  rest ← show_messages n (suc i) messages
  ok (line ++ rest)

abbrev pub case_formats : Bool → List (List Piece)
case_formats colour = (text (bytes "   Case ") ∷ []) ∷ col_entry colour (left_string ∷ []) ∷ []

module _ (show_quotient : ℕ → ℕ → Str) where
  unfoldable pub show_leaked : ℕ → Str
  unfolding humanly_readable_size
  show_leaked leaked =
      if leaked == 0
      then []
      else bytes " leaked: " ++ humanly_readable_size show_quotient 128 leaked

  -- `_std_report_show_case`
  unfoldable pub show_case : TestSuite → StatTestInfo → ℕ → Bool → Outcome Str
  unfolding coloured report_printf show_result show_assertions show_leaked
  show_case suite test verbosity colour = do
    result_name ← test_result_name (result_number test.result)
    result_name ← deref result_name
    case ← deref (get_elem? suite.tests test.test.case)
    line ← report_printf (case_formats colour) (int 33 ∷ str case.name ∷ [])
    result ← show_result test.result result_name colour
    more ← show_assertions verbosity test.assertions_passed test.assertions
    ok (line ++ (result ++ (more ++ (show_leaked test.leaked_bytes ++ b'\n' ∷ []))))

  unfoldable pub show_cases : TestSuite → List StatTestInfo → ℕ → Bool → Outcome Str
  unfolding show_case
  show_cases suite [] verbosity colour = ok []
  show_cases suite (test ∷ tests) verbosity colour = do
    case ← show_case suite test verbosity colour
    rest ← show_cases suite tests verbosity colour
    ok (case ++ rest)

  module _ (suites : Suites) where
    -- The cases of a suite, if they are wanted, with an empty line behind them.
    unfoldable pub cases_of : StatSuiteInfo → ℕ → Bool → Outcome Str
    unfolding show_cases
    cases_of info verbosity colour = if leb verbosity stat_verb_suites then ok [] else do
      suite ← deref (get_elem? suites info.suite)
      cases ← show_cases suite info.test_info_list verbosity colour
      ok (cases ++ b'\n' ∷ [])

    unfoldable pub show_suites : List StatSuiteInfo → ℕ → Bool → Outcome Str
    unfolding show_suite cases_of
    show_suites [] verbosity colour = ok []
    show_suites (info ∷ infos) verbosity colour = do
      line ← show_suite suites info verbosity colour
      cases ← cases_of info verbosity colour
      rest ← show_suites infos verbosity colour
      ok (line ++ (cases ++ rest))

    -- `test_report_print`; LOG_CRIT is 2 and LOG_DEBUG 7.
    unfoldable pub test_report_print : TestStatistics → ℕ → Bool → Outcome Str
    unfolding show_summary show_suites show_messages
    test_report_print stat verbosity colour = do
      summary ← show_summary stat colour
      if verbosity == stat_verb_summary then ok summary else do
        suites ← show_suites stat.suite_info_list verbosity colour
        if leb verbosity stat_verb_full then ok (summary ++ suites) else do
          messages ← show_messages 6 2 stat.messages
          ok (summary ++ (suites ++ (bytes "Messages received:" ++ b'\n' ∷ messages)))

-- `test_report_print_check`: it succeeds, and whether the report goes to stderr.
unfoldable pub test_report_print_check : Bool → Bool × Bool
test_report_print_check opt_stderr = (true, opt_stderr)
