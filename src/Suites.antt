-- ===== src/Suites.antt =====
-- lib/test.c and lib/tinu/test.h: the suites and cases of a test context. A function pointer is
-- a number, 0 for `NULL`; a pointer to a suite or a case is its position in the array.
pub mod Lookup
pub mod Adding
pub mod Finding
pub mod Again
use tinu.Prelude.{
  ℕ, zero, suc, ◌+◌, Bool, true, false, ◌||◌, not, Option, none, some, List, [], ◌∷◌, ◌++◌, Str,
  str_eq, length, get_elem?, set, ◌==◌, if◌then◌else◌, Outcome, ok, abort, crash, ◌>>=◌, ◌>>◌,
  assert_that,
}

pub record TestCase : Type 0 where
  pub suite : ℕ
  pub name : Str
  pub setup : ℕ
  pub cleanup : ℕ
  pub test : ℕ
  pub user_data : ℕ
  pub user_data_cleanup : ℕ

pub record TestSuite : Type 0 where
  pub name : Str
  pub tests : List TestCase

-- `m_suites`
abbrev pub Suites : Type 0
Suites = List TestSuite

-- `_test_validate_name`
unfoldable pub test_validate_name : Str → Bool
test_validate_name [] = true
test_validate_name (c ∷ name) = if c == b'.' || c == b'=' then false else test_validate_name name

-- The loop of `_test_suite_lookup` from position `i`: its variable `res` at the end, and whether
-- it left by the `goto`.
unfoldable pub suite_from : Suites → ℕ → Str → Option ℕ → Option ℕ × Bool
suite_from [] i name res = (res, false)
suite_from (s ∷ ss) i name res =
    let rest = suite_from ss (suc i) name (some i) in
    if str_eq s.name name then (some i, true) else rest

unfoldable pub test_suite_lookup : Suites → Str → Bool → Suites × Option ℕ
test_suite_lookup suites name new =
    let (res, found) = suite_from suites 0 name none in
    if found
    then (suites, res)
    else if not new
    then (suites, res)
    else (suites ++ record { name = name; tests = [] } ∷ [], some (length suites))

-- The loop of `_test_lookup_case` from position `i`.
unfoldable pub case_from : List TestCase → ℕ → Str → Option ℕ
case_from [] i name = none
case_from (c ∷ cs) i name = if str_eq c.name name then some i else case_from cs (suc i) name

unfoldable pub test_lookup_case : TestSuite → Str → Option ℕ
unfolding case_from
test_lookup_case suite name = case_from suite.tests 0 name

-- The functions that a test is added with.
pub record TestFunctions : Type 0 where
  pub setup : ℕ
  pub cleanup : ℕ
  pub test : ℕ

unfoldable pub replace_functions : TestFunctions → TestCase → TestCase
replace_functions f c = record c { setup = f.setup; cleanup = f.cleanup; test = f.test }

-- What `test_add_extended` does to the suite at position `i`, once it is found or made.
unfoldable pub add_to_suite : ℕ → TestSuite → Str → TestFunctions → ℕ → ℕ → TestSuite
unfolding test_lookup_case replace_functions
add_to_suite i suite test_name f user_data user_data_cleanup =
    elim (test_lookup_case suite test_name) [
      | some j ↦ elim (get_elem? suite.tests j) [
        | some c ↦ record suite { tests = set suite.tests j (replace_functions f c) }
        | none ↦ suite
      ]
      | none ↦ record suite {
        tests =
            suite.tests
            ++ record {
              suite = i;
              name = test_name;
              setup = f.setup;
              cleanup = f.cleanup;
              test = f.test;
              user_data = user_data;
              user_data_cleanup = user_data_cleanup;
            }
              ∷ [];
      }
    ]

-- A change of the suite behind a pointer.
unfoldable pub update_suite : Suites → Option ℕ → (ℕ → TestSuite → TestSuite) → Outcome Suites
update_suite suites none change = crash
update_suite suites (some i) change = elim (get_elem? suites i) [
  | none ↦ crash
  | some suite ↦ ok (set suites i (change i suite))
]

unfoldable pub test_add_extended : Suites → Str → Str → TestFunctions → ℕ → ℕ → Outcome Suites
test_add_extended suites suite_name test_name f user_data user_data_cleanup = do
  assert_that (test_validate_name suite_name)
  assert_that (test_validate_name test_name)
  let (suites', suite) = test_suite_lookup suites suite_name true
  update_suite suites' suite (λ i s. add_to_suite i s test_name f user_data user_data_cleanup)
