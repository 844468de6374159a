-- ===== src/Runner/Whole.antt =====
-- Runs of a whole suite and of all suites of a context.
use tinu.Prelude.{
  ℕ, suc, ◌≡◌, refl, ap, ap₂, sym, ◌∙◌, Bool, true, false, ◌&&◌, List, [], ◌∷◌, ok, bind_cong,
  arith,
}
use tinu.Suites.{TestCase, TestSuite, Suites}
use tinu.Runner.{
  CasePtr, Event, before_suite, after_suite, Action, TestContext, test_run_hooks, is_passed,
  run_cases, test_suite_run, run_suites, tinu_test_all_run,
}
use tinu.Runner.Trace.{feed, feed-append}
use tinu.Runner.Verdict.{
  case_result, case_events, all_passed, cases_events, suite_events, suites_passed, suites_events,
  single_test-verdict,
}

module _ {W : Type 0} (code : ℕ → ℕ → List Action) (leaked : CasePtr → ℕ) (switched : Bool)
    (self : TestContext W) (on : self.sighandle ≡ true) where
  abbrev passed : List TestCase → Bool
  passed = all_passed code leaked switched self.leakwatch

  abbrev cases : ℕ → ℕ → List TestCase → List Event
  cases = cases_events code leaked switched self.leakwatch

  abbrev suites_of : ℕ → Suites → List Event
  suites_of = suites_events code leaked switched self.leakwatch

  and_assoc : (a b c : Bool) → ((a && b) && c) ≡ (a && (b && c))
  and_assoc true b c = refl
  and_assoc false b c = refl

  run_cases-events :
      (i j : ℕ) (tests : List TestCase) (res : Bool) (w : W)
      → run_cases code leaked switched self i j tests res w
        ≡ ok (feed self (cases i j tests) w, res && passed tests)
  unfolding run_cases all_passed cases_events feed
  run_cases-events i j [] res w = ground arith
  run_cases-events i j (test ∷ tests) res w =
      let ptr : CasePtr = record { suite = i; case = j } in
      bind_cong (single_test-verdict code leaked switched self.leakwatch self ptr test w on refl)
        (λ q. refl)
      ∙ run_cases-events i (suc j) tests _ _
      ∙ ap₂ (λ w' b. ok (w', b))
          (sym (
            feed-append self (case_events code leaked switched self.leakwatch ptr test)
              (cases i (suc j) tests) w))
          (and_assoc res (is_passed (case_result code leaked switched self.leakwatch test))
            (passed tests))

  test_suite_run-events :
      (i : ℕ) (suite : TestSuite) (w : W)
      → test_suite_run code leaked switched self i suite w
        ≡ ok (
          feed self (suite_events code leaked switched self.leakwatch i suite) w,
          passed suite.tests,
        )
  unfolding test_suite_run suite_events feed
  test_suite_run-events i suite w =
      bind_cong (run_cases-events i 0 suite.tests true _) (λ q. refl)
      ∙ ap (λ w'. ok (w', passed suite.tests))
          (sym (
            feed-append self (cases i 0 suite.tests) (after_suite i (passed suite.tests) ∷ [])
              (test_run_hooks self (before_suite i) w)))

  run_suites-events :
      (i : ℕ) (suites : Suites) (res : Bool) (w : W)
      → run_suites code leaked switched self i suites res w
        ≡ ok (
          feed self (suites_of i suites) w,
          res && suites_passed code leaked switched self.leakwatch suites,
        )
  unfolding run_suites suites_passed suites_events feed
  run_suites-events i [] res w = ground arith
  run_suites-events i (suite ∷ suites) res w =
      bind_cong (test_suite_run-events i suite w) (λ q. refl)
      ∙ run_suites-events (suc i) suites _ _
      ∙ ap₂ (λ w' b. ok (w', b))
          (sym (
            feed-append self (suite_events code leaked switched self.leakwatch i suite)
              (suites_of (suc i) suites) w))
          (and_assoc res (passed suite.tests)
            (suites_passed code leaked switched self.leakwatch suites))

  -- With the handler for signals on, `tinu_test_all_run` always returns: every case of every suite
  -- runs, in order and whatever the ones before it came to; the hooks get the events of each
  -- suite between its begin and its end; and the result is TRUE exactly if every case passed.
  pub all_run-events :
      (w : W)
      → tinu_test_all_run code leaked switched self w
        ≡ ok (
          feed self (suites_of 0 self.suites) w,
          suites_passed code leaked switched self.leakwatch self.suites,
        )
  unfolding tinu_test_all_run
  all_run-events w = run_suites-events 0 self.suites true w
