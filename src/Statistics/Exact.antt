-- ===== src/Statistics/Exact.antt =====
-- What a run of all suites leaves in the statistics, entry by entry.
use tinu.Prelude.{
  ℕ, suc, ◌+◌, ◌*◌, ◌≡◌, refl, sym, ap, ap₂, subst, ◌∙◌, Bool, true, none, List, [], ◌∷◌, ◌++◌,
  length, Outcome, ok, arith,
}
use mathlib.Core.List.{append_assoc, append-nil}
use tinu.Suites.{TestSuite, Suites}
use tinu.Runner.{
  CasePtr, before_suite, after_suite, is_passed, Action, TestContext, tinu_test_all_run,
}
use tinu.Runner.Trace.{feed}
use tinu.Runner.Verdict.{cases_events, all_passed, suite_events, suites_events, suites_passed}
use tinu.Runner.Whole.{all_run-events}
use tinu.Statistics.{StatSuiteInfo, TestStatistics, stat_hook, stat_hooks}
use tinu.Statistics.Counted.{Counted, is_fault}
use tinu.Statistics.Totals.{all_run-Counted, count_suites, is_failed}
use tinu.Statistics.Expected.{suite_info, suite_infos}
use tinu.Statistics.Positions.{stat_hook_suite_begin-in_suite, stat_hook_suite_end-in_suite}
use tinu.Statistics.Cases.{Reads, feed_one, feed_last, feed_then, feed-cases_events}

-- No case runs, and the list of suites has grown by some.
record Listed (s s' : TestStatistics) (infos : List StatSuiteInfo) : Type 0 where
  idle : s'.test_current ≡ none
  listed : s'.suite_info_list ≡ s.suite_info_list ++ infos

module _ (clock : ℕ → ℕ) (self : TestContext (Outcome TestStatistics))
    (hooked : self.hooks ≡ stat_hooks clock) (code : ℕ → ℕ → List Action) (leaked : CasePtr → ℕ)
    (leakwatch : Bool) where
  feed-suite_events :
      (s : TestStatistics) (i : ℕ) (suite : TestSuite)
      → s.test_current ≡ none
      → (s' : TestStatistics) × (feed self (suite_events code leaked true leakwatch i suite) (ok s)
          ≡ ok s')
        × Listed s s' (suite_info clock code leaked leakwatch i s.readings suite ∷ [])
        × Reads s s' (1 + 2 * length suite.tests + 1)
  unfolding suite_events stat_hook
  feed-suite_events s i suite free =
      let begun = record s { readings = s.readings + 1 } in
      let res = all_passed code leaked true leakwatch suite.tests in
      let events = cases_events code leaked true leakwatch i 0 suite.tests in
      let (s', run, reads) =
        feed-cases_events clock self hooked code leaked leakwatch begun s.suite_info_list i 0
          (clock s.readings) 0 0 [] suite.tests in
      (
        _,
        feed_one clock self hooked (before_suite i) _ s
              (stat_hook_suite_begin-in_suite clock s i free)
            ∙ feed_then clock self hooked events (after_suite i res ∷ []) _ run
            ∙ feed_last clock self hooked (after_suite i res) _ (
                stat_hook_suite_end-in_suite clock s' s.suite_info_list i (clock s.readings) _ _ _
                  res),
        record {
          idle = refl;
          listed =
              ap₂
                (λ m (n : ℕ × ℕ).
                  s.suite_info_list
                  ++ record (suite_info clock code leaked leakwatch i s.readings suite) {
                    end_time = clock m;
                    assertions = n.0;
                    assertions_passed = n.1;
                  }
                    ∷ [])
                reads.reads (ap₂ (λ a b. (a, b)) (omega arith) (omega arith));
        },
        record { reads = omega (arith, reads.reads); messages = reads.messages },
      )

  feed-suites_events :
      (s : TestStatistics) (i : ℕ) (suites : Suites)
      → s.test_current ≡ none
      → (s' : TestStatistics) × (feed self
            (suites_events code leaked true leakwatch i suites)
            (ok s)
          ≡ ok s')
        × Listed s s' (suite_infos clock code leaked leakwatch i s.readings suites)
        × (s'.messages ≡ s.messages)
  unfolding suites_events suite_infos feed
  feed-suites_events s i [] free =
      (s, refl, record { idle = free; listed = sym (append-nil s.suite_info_list) }, refl)
  feed-suites_events s i (suite ∷ suites) free =
      let (s', run, now, reads) = feed-suite_events s i suite free in
      let (s'', run', later, kept) = feed-suites_events s' (suc i) suites now.idle in
      let at : s'.readings ≡ s.readings + 1 + 2 * length suite.tests + 1 =
        omega (arith, reads.reads) in
      let info = suite_info clock code leaked leakwatch i s.readings suite in
      (
        s'',
        feed_then clock self hooked (suite_events code leaked true leakwatch i suite) _ _ run
            ∙ run',
        record {
          idle = later.idle;
          listed =
              later.listed
              ∙ ap₂ (◌++◌) now.listed
                  (ap (λ r. suite_infos clock code leaked leakwatch (suc i) r suites) at)
              ∙ append_assoc s.suite_info_list (info ∷ []) _;
        },
        kept ∙ reads.messages,
      )

-- A run has one result.
same_run :
    {m : Outcome (Outcome TestStatistics × Bool)} {s s' : TestStatistics} {b b' : Bool}
    → m ≡ ok (ok s, b)
    → m ≡ ok (ok s', b')
    → s ≡ s'
same_run e f = cc

-- With the statistics as the only hooks, the handler for signals on, no case running before and
-- every switch to a case succeeding, a run of all suites returns, no hook crashes, no message is
-- counted by a hook, the counters grow by the numbers of cases that passed, that did not and that
-- faulted, modulo 2 ^ 32, and the list of suites has grown by one entry for each suite, in order:
-- its verdict, the readings of the clock before and behind it, its assertions before the first
-- signals and how many of them held, modulo 2 ^ 32, and the same of each case, in order, with the
-- result of the case and the bytes it leaked, which are 0 without the watch.
pub all_run-suite_infos :
    (code : ℕ → ℕ → List Action) (leaked : CasePtr → ℕ) (clock : ℕ → ℕ)
    (self : TestContext (Outcome TestStatistics)) (s : TestStatistics)
    → self.sighandle ≡ true
    → self.hooks ≡ stat_hooks clock
    → s.test_current ≡ none
    → (s' : TestStatistics) × (tinu_test_all_run code leaked true self (ok s)
        ≡ ok (ok s', suites_passed code leaked true self.leakwatch self.suites))
      × (s'.suite_info_list
          ≡ s.suite_info_list
            ++ suite_infos clock code leaked self.leakwatch 0 s.readings self.suites)
      × (s'.messages ≡ s.messages)
      × Counted s s'
          (count_suites code leaked self.leakwatch is_passed self.suites)
          (count_suites code leaked self.leakwatch is_failed self.suites)
          (count_suites code leaked self.leakwatch is_fault self.suites)
all_run-suite_infos code leaked clock self s on hooked free =
    let (s', run, after, kept) =
      feed-suites_events clock self hooked code leaked self.leakwatch s 0 self.suites free in
    let whole =
      all_run-events code leaked true self on (ok s)
      ∙ ap (λ m. ok (m, suites_passed code leaked true self.leakwatch self.suites)) run in
    let (_, run', counted) = all_run-Counted code leaked clock self s on hooked free in
    let same = same_run run' whole in
    (
      s',
      whole,
      after.listed,
      kept,
      subst
          (λ q.
            Counted s q (count_suites code leaked self.leakwatch is_passed self.suites)
              (count_suites code leaked self.leakwatch is_failed self.suites)
              (count_suites code leaked self.leakwatch is_fault self.suites))
          same counted,
    )
