-- ===== src/Statistics/Totals.antt =====
-- The counters after a run of all suites.
use tinu.Prelude.{
  ℕ, suc, ◌+◌, ◌≡◌, refl, ap, ◌∙◌, Bool, true, false, Bool-cases, inl, inr, none, not, List, [],
  ◌∷◌, Outcome, ok, crash, arith, if◌then◌else◌,
}
use tinu.Suites.{TestCase, TestSuite, Suites}
use tinu.Runner.{
  TestCaseResult, CasePtr, before_test, after_test, before_suite, after_suite, leakinfo, Action,
  TestContext, is_passed, test_run_hooks, test_case_run_single_test, test_internal, hook_after_test,
  run_entries, hook_after_test, tinu_test_all_run,
}
use tinu.Runner.Trace.{events, actions, feed}
use tinu.Runner.Verdict.{
  case_result, case_result-expected, case_events, cases_events, all_passed, suite_events,
  suites_events, suites_passed, single_test-verdict,
}
use tinu.Runner.Whole.{all_run-events}
use tinu.Statistics.{
  TestStatistics, stat_hook, stat_hook_case_begin, stat_hook_case_end, stat_hook_suite_begin,
  stat_hook_suite_end, stat_hook_leakwatch, current_test, stat_hooks,
}
use tinu.Statistics.Counted.{Counted, Counted-refl, tally, is_fault}
use tinu.Statistics.Ready.{InSuite, InTest}
use tinu.Statistics.Hooks.{
  stat_hook_leakwatch-InTest, stat_hook_case_begin-InTest, stat_hook_case_end-InSuite,
  stat_hook_suite_begin-InSuite, stat_hook_suite_end-idle,
}
use tinu.Statistics.Feeding.{Goes, Goes-one, Goes-append, Goes-cast, Goes-events, hooks-stat_hook}

module _ (code : ℕ → ℕ → List Action) (leaked : CasePtr → ℕ) (leakwatch : Bool) where
  abbrev result_of : TestCase → TestCaseResult
  result_of = case_result code leaked true leakwatch

  -- How many cases have a result of a kind.
  unfoldable pub count_cases : (TestCaseResult → Bool) → List TestCase → ℕ
  count_cases kind [] = 0
  count_cases kind (test ∷ tests) = tally (kind (result_of test)) + count_cases kind tests

  unfoldable pub count_suites : (TestCaseResult → Bool) → Suites → ℕ
  unfolding count_cases
  count_suites kind [] = 0
  count_suites kind (suite ∷ suites) = count_cases kind suite.tests + count_suites kind suites

abbrev pub is_failed : TestCaseResult → Bool
is_failed r = not (is_passed r)

module _ (clock : ℕ → ℕ) (self : TestContext (Outcome TestStatistics))
    (hooked : self.hooks ≡ stat_hooks clock) (code : ℕ → ℕ → List Action) (leaked : CasePtr → ℕ)
    (leakwatch : Bool) where
  Goes-leakinfo :
      (s : TestStatistics) (i : ℕ) (t : CasePtr)
      → InTest s i t
      → Goes clock self hooked s
          (if leakwatch then leakinfo t (leaked t) ∷ [] else [])
          (λ s'. InTest s' i t)
          0
          0
          0
  unfolding feed stat_hook stat_hook_leakwatch
  Goes-leakinfo s i t h = elim (Bool-cases leakwatch) [
    | inl on ↦ rw on (
        Goes-one clock self hooked s (leakinfo t (leaked t))
          (stat_hook_leakwatch-InTest clock s i t (leaked t) h))
    | inr off ↦ rw off (s, refl, h, Counted-refl s)
  ]

  Goes-case :
      (s : TestStatistics) (i : ℕ) (t : CasePtr) (test : TestCase)
      → InSuite s i
      → let r = result_of code leaked leakwatch test in
        Goes clock self hooked s
          (case_events code leaked true leakwatch t test)
          (λ s'. InSuite s' i)
          (tally (is_passed r))
          (tally (is_failed r))
          (tally (is_fault r))
  unfolding case_events stat_hook stat_hook_case_begin stat_hook_case_end
  Goes-case s i t test h =
      let r = result_of code leaked leakwatch test in
      let begin =
        Goes-one clock self hooked s (before_test t) (stat_hook_case_begin-InTest clock s i t h) in
      let acts = actions code test in
      Goes-cast clock self hooked s (case_events code leaked true leakwatch t test)
        (Goes-append clock self hooked s (before_test t ∷ events acts) _
          (Goes-append clock self hooked s (before_test t ∷ []) (events acts) begin
            (λ s' h'. Goes-events clock self hooked s' i t acts h'))
          (λ s' h'.
            Goes-append clock self hooked s' _ (after_test t r ∷ []) (Goes-leakinfo s' i t h')
              (λ s'' h''. Goes-one clock self hooked s'' (after_test t r) (
                stat_hook_case_end-InSuite clock s'' i t r
                  (case_result-expected code leaked true leakwatch test) h''))))
        (omega arith) (omega arith) (omega arith)

  Goes-cases :
      (s : TestStatistics) (i j : ℕ) (tests : List TestCase)
      → InSuite s i
      → Goes clock self hooked s
          (cases_events code leaked true leakwatch i j tests)
          (λ s'. InSuite s' i)
          (count_cases code leaked leakwatch is_passed tests)
          (count_cases code leaked leakwatch is_failed tests)
          (count_cases code leaked leakwatch is_fault tests)
  unfolding cases_events count_cases feed
  Goes-cases s i j [] h = (s, refl, h, Counted-refl s)
  Goes-cases s i j (test ∷ tests) h =
      Goes-append clock self hooked s
        (case_events code leaked true leakwatch (record { suite = i; case = j }) test)
        (cases_events code leaked true leakwatch i (suc j) tests)
        (Goes-case s i (record { suite = i; case = j }) test h)
        (λ s' h'. Goes-cases s' i (suc j) tests h')

  Goes-suite :
      (s : TestStatistics) (i : ℕ) (suite : TestSuite)
      → s.test_current ≡ none
      → Goes clock self hooked s
          (suite_events code leaked true leakwatch i suite)
          (λ s'. s'.test_current ≡ none)
          (count_cases code leaked leakwatch is_passed suite.tests)
          (count_cases code leaked leakwatch is_failed suite.tests)
          (count_cases code leaked leakwatch is_fault suite.tests)
  unfolding suite_events stat_hook stat_hook_suite_begin stat_hook_suite_end
  Goes-suite s i suite free =
      let res = all_passed code leaked true leakwatch suite.tests in
      Goes-cast clock self hooked s (suite_events code leaked true leakwatch i suite)
        (Goes-append clock self hooked s (before_suite i ∷ []) _
          (Goes-one clock self hooked s (before_suite i)
            (stat_hook_suite_begin-InSuite clock s i free))
          (λ s' h'.
            Goes-append clock self hooked s'
              (cases_events code leaked true leakwatch i 0 suite.tests) (after_suite i res ∷ [])
              (Goes-cases s' i 0 suite.tests h')
              (λ s'' h''.
                Goes-one clock self hooked s'' (after_suite i res)
                  (stat_hook_suite_end-idle clock s'' i res h''))))
        (omega arith) (omega arith) (omega arith)

  Goes-suites :
      (s : TestStatistics) (i : ℕ) (suites : Suites)
      → s.test_current ≡ none
      → Goes clock self hooked s
          (suites_events code leaked true leakwatch i suites)
          (λ s'. s'.test_current ≡ none)
          (count_suites code leaked leakwatch is_passed suites)
          (count_suites code leaked leakwatch is_failed suites)
          (count_suites code leaked leakwatch is_fault suites)
  unfolding suites_events count_suites feed
  Goes-suites s i [] free = (s, refl, free, Counted-refl s)
  Goes-suites s i (suite ∷ suites) free =
      Goes-append clock self hooked s (suite_events code leaked true leakwatch i suite)
        (suites_events code leaked true leakwatch (suc i) suites) (Goes-suite s i suite free)
        (λ s' h'. Goes-suites s' (suc i) suites h')

-- With the statistics as the only hooks, the handler for signals on, no case running before and
-- every switch to a case succeeding, a run of all suites returns, no hook crashes, and the counters
-- grow by the numbers of cases that passed, that did not, and that faulted, modulo 2 ^ 32.
pub all_run-Counted :
    (code : ℕ → ℕ → List Action) (leaked : CasePtr → ℕ) (clock : ℕ → ℕ)
    (self : TestContext (Outcome TestStatistics)) (s : TestStatistics)
    → self.sighandle ≡ true
    → self.hooks ≡ stat_hooks clock
    → s.test_current ≡ none
    → (s' : TestStatistics) × (tinu_test_all_run code leaked true self (ok s)
        ≡ ok (ok s', suites_passed code leaked true self.leakwatch self.suites))
      × Counted s s'
          (count_suites code leaked self.leakwatch is_passed self.suites)
          (count_suites code leaked self.leakwatch is_failed self.suites)
          (count_suites code leaked self.leakwatch is_fault self.suites)
all_run-Counted code leaked clock self s on hooked free =
    let (s', run, h, n) =
      Goes-suites clock self hooked code leaked self.leakwatch s 0 self.suites free in
    (
      s',
      all_run-events code leaked true self on (ok s)
          ∙ ap (λ m. ok (m, suites_passed code leaked true self.leakwatch self.suites)) run,
      n,
    )

unmatched_end :
    (clock : ℕ → ℕ) (s : TestStatistics) (ptr : CasePtr) (r : TestCaseResult)
    → s.test_current ≡ none
    → stat_hook clock (after_test ptr r) s ≡ crash
unfolding stat_hook stat_hook_case_end current_test
unmatched_end clock s ptr r free = simp free

unmatched_leakinfo :
    (clock : ℕ → ℕ) (s : TestStatistics) (ptr : CasePtr) (n : ℕ)
    → s.test_current ≡ none
    → stat_hook clock (leakinfo ptr n) s ≡ crash
unfolding stat_hook stat_hook_leakwatch current_test
unmatched_leakinfo clock s ptr n free = simp free

crash_stays :
    (clock : ℕ → ℕ) (self : TestContext (Outcome TestStatistics))
    → self.hooks ≡ stat_hooks clock
    → (ptr : CasePtr) (r : TestCaseResult) → test_run_hooks self (after_test ptr r) crash ≡ crash
unfolding test_run_hooks run_entries stat_hooks
crash_stays clock self hooked ptr r =
    ap (λ hs. run_entries (hs hook_after_test) (after_test ptr r) crash) hooked

-- With the statistics as the only hooks, the handler for signals on and no case running before:
-- where the switch to the context of a case fails, which gives TEST_INTERNAL, the hooks crash,
-- since they are told of the end of a case that never began.
pub internal-crash :
    (code : ℕ → ℕ → List Action) (leaked : CasePtr → ℕ) (clock : ℕ → ℕ)
    (self : TestContext (Outcome TestStatistics)) (ptr : CasePtr) (test : TestCase)
    (s : TestStatistics)
    → self.sighandle ≡ true
    → self.hooks ≡ stat_hooks clock
    → s.test_current ≡ none
    → test_case_run_single_test code leaked false self ptr test (ok s) ≡ ok (crash, test_internal)
unfolding case_events case_result feed
internal-crash code leaked clock self ptr test s on hooked free =
    single_test-verdict code leaked false self.leakwatch self ptr test (ok s) on refl
    ∙ ap (λ m. ok (m, test_internal))
        (elim (Bool-cases self.leakwatch) [
          | inl watched ↦ simp watched (
              ap (test_run_hooks self (after_test ptr test_internal)) (
                hooks-stat_hook clock self hooked (leakinfo ptr (leaked ptr)) s
                ∙ unmatched_leakinfo clock s ptr (leaked ptr) free)
              ∙ crash_stays clock self hooked ptr test_internal)
          | inr off ↦ simp off (
              hooks-stat_hook clock self hooked (after_test ptr test_internal) s
              ∙ unmatched_end clock s ptr test_internal free)
        ])
