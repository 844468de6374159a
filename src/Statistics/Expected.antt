-- ===== src/Statistics/Expected.antt =====
-- The statistics that a run of all suites should leave, read off the suites and what they do.
use tinu.Prelude.{ℕ, suc, ◌+◌, ◌*◌, ◌%◌, ◌^◌, List, [], ◌∷◌, length, Bool, true, if◌then◌else◌}
use tinu.Suites.{TestCase, TestSuite, Suites}
use tinu.Runner.{CasePtr, Action, assertion, raise}
use tinu.Runner.Trace.{actions}
use tinu.Runner.Verdict.{case_result, all_passed}
use tinu.Statistics.{StatTestInfo, StatSuiteInfo}
use tinu.Statistics.Counted.{tally}

-- How many assertions come before the first signal, and how many of these hold.
unfoldable pub asserts : List Action → ℕ
asserts [] = 0
asserts (assertion c ∷ acts) = 1 + asserts acts
asserts (raise s ∷ acts) = 0

unfoldable pub asserts_passed : List Action → ℕ
asserts_passed [] = 0
asserts_passed (assertion c ∷ acts) = tally c + asserts_passed acts
asserts_passed (raise s ∷ acts) = 0

module _ (code : ℕ → ℕ → List Action) where
  -- The assertions of all cases of a suite.
  unfoldable pub all_asserts : List TestCase → ℕ
  unfolding asserts
  all_asserts [] = 0
  all_asserts (test ∷ tests) = asserts (actions code test) + all_asserts tests

  unfoldable pub all_asserts_passed : List TestCase → ℕ
  unfolding asserts_passed
  all_asserts_passed [] = 0
  all_asserts_passed (test ∷ tests) = asserts_passed (actions code test) + all_asserts_passed tests

module _ (clock : ℕ → ℕ) (code : ℕ → ℕ → List Action) (leaked : CasePtr → ℕ)
    (leakwatch : Bool) where
  -- A case that the clock is read for the `r`th time for.
  abbrev pub case_info : ℕ → CasePtr → TestCase → StatTestInfo
  case_info r t test = record {
    test = t;
    result = case_result code leaked true leakwatch test;
    start = clock r;
    end_time = clock (r + 1);
    assertions = asserts (actions code test) % 2 ^ 32;
    assertions_passed = asserts_passed (actions code test) % 2 ^ 32;
    leaked_bytes = if leakwatch then leaked t else 0;
  }

  unfoldable pub case_infos : ℕ → ℕ → ℕ → List TestCase → List StatTestInfo
  case_infos i j r [] = []
  case_infos i j r (test ∷ tests) =
      case_info r (record { suite = i; case = j }) test ∷ case_infos i (suc j) (r + 1 + 1) tests

  -- The suite at position `i`, which begins at reading `r`; each case takes two readings.
  abbrev pub suite_info : ℕ → ℕ → TestSuite → StatSuiteInfo
  suite_info i r suite = record {
    suite = i;
    result = all_passed code leaked true leakwatch suite.tests;
    start = clock r;
    end_time = clock (r + 1 + 2 * length suite.tests);
    assertions = all_asserts code suite.tests % 2 ^ 32;
    assertions_passed = all_asserts_passed code suite.tests % 2 ^ 32;
    test_info_list = case_infos i 0 (r + 1) suite.tests;
  }

  unfoldable pub suite_infos : ℕ → ℕ → Suites → List StatSuiteInfo
  unfolding case_infos all_asserts all_asserts_passed
  suite_infos i r [] = []
  suite_infos i r (suite ∷ suites) =
      suite_info i r suite ∷ suite_infos (suc i) (r + 1 + 2 * length suite.tests + 1) suites
