-- ===== src/External/Entries.antt =====
-- What the report file holds: a list of entries, a path of names and a value each.
use tinu.Prelude.{
  ℕ, ◌<◌, ◌≡◌, ap, true, none, some, List, [], ◌∷◌, ◌++◌, Str, bytes, length, map, get_elem?, All,
  if◌then◌else◌, show_int32,
}
use tinu.Suites.{TestCase, TestSuite, Suites, test_validate_name}
use tinu.Runner.{
  TestCaseResult, test_none, test_passed, test_failed, test_abort, test_segfault, test_internal,
  expected,
}
use tinu.Statistics.{StatTestInfo, StatSuiteInfo, TestStatistics}
use tinu.External.Replace.{join}

pub record Entry : Type 0 where
  pub head : Str
  pub tail : List Str
  pub value : Str

abbrev pub entry : Str → List Str → Str → Entry
entry h t v = record { head = h; tail = t; value = v }

-- "a.b.c=value" and the end of the line.
unfoldable pub render : Entry → Str
unfolding join
render e = join (bytes ".") e.head e.tail ++ (b'=' ∷ (e.value ++ b'\n' ∷ []))

unfoldable pub render_all : List Entry → Str
unfolding render
render_all [] = []
render_all (e ∷ es) = render e ++ render_all es

unfoldable pub label : TestCaseResult → Str
label test_none = bytes "none"
label test_passed = bytes "passed"
label test_failed = bytes "failed"
label test_abort = bytes "abort"
label test_segfault = bytes "segfault"
label test_internal = bytes "internal"

abbrev pub case_name : TestSuite → StatTestInfo → Str
case_name suite test = elim (get_elem? suite.tests test.test.case) [
  | none ↦ []
  | some case ↦ case.name
]

abbrev pub suite_of : Suites → StatSuiteInfo → TestSuite
suite_of suites info = elim (get_elem? suites info.suite) [
  | none ↦ record { name = []; tests = [] }
  | some suite ↦ suite
]

pub case_name_lem :
    (suite : TestSuite) (test : StatTestInfo) {case : TestCase}
    → get_elem? suite.tests test.test.case ≡ some case
    → case_name suite test ≡ case.name
case_name_lem suite test e = ap (λ o. elim o [ none ↦ [] | some case ↦ case.name ]) e

pub suite_of_lem :
    (suites : Suites) (info : StatSuiteInfo) {suite : TestSuite}
    → get_elem? suites info.suite ≡ some suite
    → suite_of suites info ≡ suite
suite_of_lem suites info e =
    ap (λ o. elim o [ none ↦ record { name = []; tests = [] } | some suite ↦ suite ]) e

-- The case is one of the suite and has a result, its name is one that a context takes, and its
-- prefix fits the buffer.
pub record CaseFits (suite : TestSuite) (test : StatTestInfo) : Type 0 where
  pub case : TestCase
  pub found : get_elem? suite.tests test.test.case ≡ some case
  pub ran : expected test.result ≡ true
  pub valid : test_validate_name case.name ≡ true
  pub short : length (bytes "suite." ++ (suite.name ++ (bytes ".test." ++ case.name))) < 4096

pub record SuiteFits (suites : Suites) (info : StatSuiteInfo) : Type 0 where
  pub suite : TestSuite
  pub found : get_elem? suites info.suite ≡ some suite
  pub valid : test_validate_name suite.name ≡ true
  pub short : length (bytes "suite." ++ suite.name) < 4096
  pub cases : All (CaseFits suite) info.test_info_list

module _ (show_time : ℕ → ℕ → Str) (suites : Suites) where
  unfoldable pub case_entries : TestSuite → StatTestInfo → List Entry
  unfolding label
  case_entries suite test =
      let name = case_name suite test in
      let at = λ (rest : List Str). suite.name ∷ bytes "test" ∷ name ∷ rest in
      entry (bytes "suite") (at (bytes "result" ∷ [])) (label test.result)
      ∷ entry (bytes "suite") (at (bytes "asserts" ∷ bytes "passed" ∷ []))
          (show_int32 test.assertions_passed)
      ∷ entry (bytes "suite") (at (bytes "asserts" ∷ bytes "total" ∷ []))
          (show_int32 test.assertions)
      ∷ entry (bytes "suite") (at (bytes "time" ∷ [])) (show_time test.start test.end_time)
      ∷ []

  unfoldable pub cases_entries : TestSuite → List StatTestInfo → List Entry
  unfolding case_entries
  cases_entries suite [] = []
  cases_entries suite (test ∷ tests) = case_entries suite test ++ cases_entries suite tests

  unfoldable pub suite_entries : StatSuiteInfo → List Entry
  unfolding cases_entries
  suite_entries info =
      let suite = suite_of suites info in
      let at = λ (rest : List Str). suite.name ∷ rest in
      (entry (bytes "suite") (at (bytes "result" ∷ [])) (show_int32 (if info.result then 1 else 0))
        ∷ entry (bytes "suite") (at (bytes "asserts" ∷ bytes "passed" ∷ []))
            (show_int32 info.assertions_passed)
        ∷ entry (bytes "suite") (at (bytes "asserts" ∷ bytes "total" ∷ []))
            (show_int32 info.assertions)
        ∷ entry (bytes "suite") (at (bytes "time" ∷ [])) (show_time info.start info.end_time)
        ∷ [])
      ++ cases_entries suite info.test_info_list

  unfoldable pub suites_entries : List StatSuiteInfo → List Entry
  unfolding suite_entries
  suites_entries [] = []
  suites_entries (info ∷ infos) = suite_entries info ++ suites_entries infos

-- The priorities that the report counts messages of, with their numbers.
abbrev reported : List (Str × ℕ)
reported =
    (bytes "critical", 2)
    ∷ (bytes "error", 3)
    ∷ (bytes "warning", 4)
    ∷ (bytes "notice", 5)
    ∷ (bytes "info", 6)
    ∷ (bytes "debug", 7)
    ∷ []

abbrev pub message_entries : List ℕ → List Entry
message_entries messages =
    map
      (λ p.
        entry (bytes "message") (p.0 ∷ [])
          (show_int32 (elim (get_elem? messages p.1) [ none ↦ 0 | some n ↦ n ])))
      reported

abbrev pub totals : TestStatistics → List Entry
totals stat =
    entry (bytes "summary") (bytes "passed" ∷ []) (show_int32 stat.passed)
    ∷ entry (bytes "summary") (bytes "failed" ∷ []) (show_int32 stat.failed)
    ∷ entry (bytes "summary") (bytes "segfault" ∷ []) (show_int32 stat.sigsegv)
    ∷ []

module _ (show_time : ℕ → ℕ → Str) (suites : Suites) where
  unfoldable pub stat_entries : TestStatistics → List Entry
  unfolding suites_entries
  stat_entries stat =
      totals stat
      ++ (suites_entries show_time suites stat.suite_info_list ++ message_entries stat.messages)
