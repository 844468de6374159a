-- ===== src/External/Fitting.antt =====
-- Suites whose names the report of lib/report-external.c can hold, and what a run of them leaves.
use tinu.Prelude.{
  ℕ, suc, ◌+◌, ◌*◌, ◌<◌, ◌≡◌, refl, sym, ◌∙◌, true, Bool, some, List, [], ◌∷◌, ◌++◌, bytes, length,
  get_elem?, get_elem?-append, length-append, All, arith,
}
use mathlib.Core.List.{append_assoc}
use tinu.Suites.{TestCase, TestSuite, Suites, test_validate_name}
use tinu.Runner.{CasePtr, Action}
use tinu.Runner.Verdict.{case_result-expected}
use tinu.Statistics.Expected.{case_infos, suite_infos}
use tinu.External.Entries.{CaseFits, SuiteFits}

-- The name of a case is one that a context takes, and its prefix fits the buffer.
pub record CaseNamed (suite : TestSuite) (test : TestCase) : Type 0 where
  pub valid : test_validate_name test.name ≡ true
  pub short : length (bytes "suite." ++ (suite.name ++ (bytes ".test." ++ test.name))) < 4096

pub record SuiteNamed (suite : TestSuite) : Type 0 where
  pub valid : test_validate_name suite.name ≡ true
  pub short : length (bytes "suite." ++ suite.name) < 4096
  pub cases : All (CaseNamed suite) suite.tests

-- A list is split at the position of the element that follows.
module _ {A : Type 0} where
  found_at :
      (all done rest : List A) (x : A) (k : ℕ)
      → all ≡ done ++ x ∷ rest
      → k ≡ length done
      → get_elem? all k ≡ some x
  found_at all done rest x k same at = rw (same, at) (get_elem?-append done x rest)

  next_at : (done : List A) (x : A) (k : ℕ) → k ≡ length done → suc k ≡ length (done ++ x ∷ [])
  next_at done x k at = omega (arith, at, length-append done (x ∷ []))

module _ (clock : ℕ → ℕ) (code : ℕ → ℕ → List Action) (leaked : CasePtr → ℕ)
    (leakwatch : Bool) where
  case_infos-CaseFits :
      (suite : TestSuite) (i j r : ℕ) (done tests : List TestCase)
      → suite.tests ≡ done ++ tests
      → j ≡ length done
      → All (CaseNamed suite) tests
      → All (CaseFits suite) (case_infos clock code leaked leakwatch i j r tests)
  unfolding case_infos
  case_infos-CaseFits suite i j r done [] same at named = tt
  case_infos-CaseFits suite i j r done (test ∷ tests) same at named = (
    record {
      case = test;
      found = found_at suite.tests done tests test j same at;
      ran = case_result-expected code leaked true leakwatch test;
      valid = named.0.valid;
      short = named.0.short;
    },
    case_infos-CaseFits suite i (suc j) (r + 1 + 1) (done ++ test ∷ []) tests
        (same ∙ sym (append_assoc done (test ∷ []) tests)) (next_at done test j at) named.1,
  )

  pub suite_infos-SuiteFits :
      (all : Suites) (i r : ℕ) (done suites : Suites)
      → all ≡ done ++ suites
      → i ≡ length done
      → All SuiteNamed suites
      → All (SuiteFits all) (suite_infos clock code leaked leakwatch i r suites)
  unfolding suite_infos
  suite_infos-SuiteFits all i r done [] same at named = tt
  suite_infos-SuiteFits all i r done (suite ∷ suites) same at named = (
    record {
      suite = suite;
      found = found_at all done suites suite i same at;
      valid = named.0.valid;
      short = named.0.short;
      cases = case_infos-CaseFits suite i 0 (r + 1) [] suite.tests refl refl named.0.cases;
    },
    suite_infos-SuiteFits all (suc i) (r + 1 + 2 * length suite.tests + 1) (done ++ suite ∷ [])
        suites (same ∙ sym (append_assoc done (suite ∷ []) suites)) (next_at done suite i at)
        named.1,
  )
