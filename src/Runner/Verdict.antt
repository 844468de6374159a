-- ===== src/Runner/Verdict.antt =====
-- What a run of the tests returns, and what its hooks get.
use tinu.Prelude.{
  ℕ, suc, ◌≡◌, refl, ◌∙◌, Bool, true, ◌&&◌, not, List, [], ◌∷◌, ◌++◌, if◌then◌else◌, Outcome, ok,
  abort, bind_cong, arith, Bool-cases, inl, inr,
}
use tinu.Suites.{TestCase, TestSuite, Suites}
use tinu.Runner.{
  TestCaseResult, test_internal, CasePtr, Event, before_test, after_test, before_suite, after_suite,
  leakinfo, Action, TestContext, test_run_hooks, is_passed, expected, test_case_run_intern,
  test_case_run_single_test,
}
use tinu.Runner.Trace.{
  events, verdict_from, verdict, actions, feed, feed-append, test_case_run_intern_lem,
}

module _ (code : ℕ → ℕ → List Action) (leaked : CasePtr → ℕ) (switched leakwatch : Bool) where
  -- The result of a case: the verdict on what its functions do, unless the switch to it failed.
  unfoldable pub case_result : TestCase → TestCaseResult
  case_result test = if switched then verdict (actions code test) else test_internal

  -- What the hooks get of a case.
  unfoldable pub case_events : CasePtr → TestCase → List Event
  unfolding case_result
  case_events ptr test =
      (if switched then before_test ptr ∷ events (actions code test) else [])
      ++ ((if leakwatch then leakinfo ptr (leaked ptr) ∷ [] else [])
          ++ after_test ptr (case_result test) ∷ [])

  unfoldable pub all_passed : List TestCase → Bool
  unfolding case_result
  all_passed [] = true
  all_passed (test ∷ tests) = is_passed (case_result test) && all_passed tests

  unfoldable pub cases_events : ℕ → ℕ → List TestCase → List Event
  unfolding case_events
  cases_events i j [] = []
  cases_events i j (test ∷ tests) =
      case_events (record { suite = i; case = j }) test ++ cases_events i (suc j) tests

  unfoldable pub suite_events : ℕ → TestSuite → List Event
  unfolding cases_events all_passed
  suite_events i suite =
      before_suite i ∷ cases_events i 0 suite.tests ++ after_suite i (all_passed suite.tests) ∷ []

  unfoldable pub suites_passed : Suites → Bool
  unfolding all_passed
  suites_passed [] = true
  suites_passed (suite ∷ suites) = all_passed suite.tests && suites_passed suites

  unfoldable pub suites_events : ℕ → Suites → List Event
  unfolding suite_events
  suites_events i [] = []
  suites_events i (suite ∷ suites) = suite_events i suite ++ suites_events (suc i) suites

  verdict-expected : (acts : List Action) → expected (verdict acts) ≡ true
  unfolding expected verdict_from
  verdict-expected acts = ground arith

  pub case_result-expected : (test : TestCase) → expected (case_result test) ≡ true
  unfolding case_result expected
  case_result-expected test = elim (Bool-cases switched) [
    | inl ran ↦ rw ran (verdict-expected (actions code test))
    | inr not_ran ↦ rw not_ran
  ]

  abbrev begun : CasePtr → TestCase → List Event
  begun ptr test = if switched then before_test ptr ∷ events (actions code test) else []

  abbrev ended : CasePtr → TestCaseResult → List Event
  ended ptr result =
      (if leakwatch then leakinfo ptr (leaked ptr) ∷ [] else []) ++ after_test ptr result ∷ []

  module _ {W : Type 0} (self : TestContext W) where
    started :
        (ptr : CasePtr) (test : TestCase) (w : W)
        → self.sighandle ≡ true
        → (if self.sighandle && not switched
            then ok (w, test_internal)
            else test_case_run_intern code leaked switched self ptr test w)
          ≡ ok (feed self (begun ptr test) w, case_result test)
    unfolding case_result feed
    started ptr test w on = elim (Bool-cases switched) [
      | inl ran ↦
          ground (arith, ran, on, test_case_run_intern_lem code leaked switched self ptr test w on)
      | inr not_ran ↦ ground (arith, not_ran, on)
    ]

    -- What `_test_case_run_single_test` does once the result is there.
    abbrev ending : CasePtr → W → TestCaseResult → Outcome (W × TestCaseResult)
    ending ptr w result =
        let w' = if self.leakwatch then test_run_hooks self (leakinfo ptr (leaked ptr)) w else w in
        if expected result
        then ok (test_run_hooks self (after_test ptr result) w', result)
        else abort

    ending_lem :
        (ptr : CasePtr) (es : List Event) (result : TestCaseResult) (w : W)
        → expected result ≡ true
        → self.leakwatch ≡ leakwatch
        → ending ptr (feed self es w) result ≡ ok (feed self (es ++ ended ptr result) w, result)
    unfolding feed
    ending_lem ptr es result w good watch = ground (arith, feed-append self es (ended ptr result) w)

    -- With the handler for signals on, `_test_case_run_single_test` always returns: the first
    -- signal in setup, test and cleanup decides the result, without one a failed assertion, and
    -- a case without either passed; the hooks get the begin, the assertions and the signal up to
    -- there, the leaked bytes and the end with that result. If the switch to the context of the
    -- case fails, none of its code runs and the result is TEST_INTERNAL.
    pub single_test-verdict :
        (ptr : CasePtr) (test : TestCase) (w : W)
        → self.sighandle ≡ true
        → self.leakwatch ≡ leakwatch
        → test_case_run_single_test code leaked switched self ptr test w
          ≡ ok (feed self (case_events ptr test) w, case_result test)
    unfolding test_case_run_single_test expected case_events case_result feed
    single_test-verdict ptr test w on watch =
        bind_cong (started ptr test w on) (λ q. refl)
        ∙ ending_lem ptr (begun ptr test) (case_result test) w (case_result-expected test) watch
