-- ===== src/Statistics.antt =====
-- lib/statistics.c: the counters and the timings, fed by the hooks of a run. A pointer into an
-- array is a position in it; the counters are 32 bits wide.
pub mod Counted
pub mod Ready
pub mod Hooks
pub mod Feeding
pub mod Totals
pub mod Life
pub mod Expected
pub mod Positions
pub mod Cases
pub mod Exact
use tinu.Prelude.{
  ℕ, zero, suc, ◌+◌, ◌%◌, ◌^◌, Bool, true, false, ◌&&◌, not, Option, none, some, List, [], ◌∷◌,
  ◌++◌, ℤ, pos, negsuc, ◌==◌, if◌then◌else◌, length, get_elem?, set, replicate, Outcome, ok, abort,
  crash, ◌>>=◌, deref,
}
use tinu.Message.{Message}
use tinu.Runner.{
  TestCaseResult, test_none, test_passed, test_failed, test_abort, test_segfault, test_internal,
  CasePtr, Event, asserted, signal_abort, signal_segfault, before_test, after_test, before_suite,
  after_suite, leakinfo, TestHookId, hook_assert, hook_signal_abort, hook_signal_segfault,
  hook_before_test, hook_after_test, hook_before_suite, hook_after_suite, hook_leakinfo,
  TestHookEntry,
}

pub record StatTestInfo : Type 0 where
  pub test : CasePtr
  pub result : TestCaseResult
  pub start : ℕ
  pub end_time : ℕ
  pub assertions : ℕ
  pub assertions_passed : ℕ
  pub leaked_bytes : ℕ

pub record StatSuiteInfo : Type 0 where
  pub suite : ℕ
  pub result : Bool
  pub start : ℕ
  pub end_time : ℕ
  pub assertions : ℕ
  pub assertions_passed : ℕ
  pub test_info_list : List StatTestInfo

-- `test_current` is the position of the suite with that of the test; `readings` counts the calls
-- of `times`.
pub record TestStatistics : Type 0 where
  pub test_current : Option (ℕ × ℕ)
  pub suite_current : Option ℕ
  pub messages : List ℕ
  pub sigsegv : ℕ
  pub passed : ℕ
  pub failed : ℕ
  pub suite_info_list : List StatSuiteInfo
  pub readings : ℕ

-- `x++` on 32 bits
unfoldable pub increment : ℕ → ℕ
increment n = (n + 1) % 2 ^ 32

unfoldable pub stat_new : TestStatistics
stat_new = record {
  test_current = none;
  suite_current = none;
  messages = replicate 8 0;
  sigsegv = 0;
  passed = 0;
  failed = 0;
  suite_info_list = [];
  readings = 0;
}

-- `_stat_message_counter`
unfoldable pub stat_message_counter : Message → TestStatistics → Outcome TestStatistics
unfolding increment
stat_message_counter msg self = elim msg.priority [
  | pos p ↦ do
    n ← deref (get_elem? self.messages p)
    ok (record self { messages = set self.messages p (increment n) })
  | negsuc p ↦ crash
]

unfoldable pub same_case : CasePtr → CasePtr → Bool
same_case p q = p.suite == q.suite && p.case == q.case

-- A change of the suite behind `m_suite_current`.
unfoldable pub change_suite :
    TestStatistics → (StatSuiteInfo → StatSuiteInfo) → Outcome TestStatistics
change_suite self f = do
  k ← deref self.suite_current
  info ← deref (get_elem? self.suite_info_list k)
  ok (record self { suite_info_list = set self.suite_info_list k (f info) })

-- What stands behind `m_test_current`.
unfoldable pub current_test : TestStatistics → Outcome StatTestInfo
current_test self = do
  (k, j) ← deref self.test_current
  info ← deref (get_elem? self.suite_info_list k)
  deref (get_elem? info.test_info_list j)

-- A change of the test behind `m_test_current`.
unfoldable pub change_test : TestStatistics → (StatTestInfo → StatTestInfo) → Outcome TestStatistics
change_test self f = do
  (k, j) ← deref self.test_current
  info ← deref (get_elem? self.suite_info_list k)
  test ← deref (get_elem? info.test_info_list j)
  ok (record self {
    suite_info_list =
        set self.suite_info_list k
          (record info { test_info_list = set info.test_info_list j (f test) });
  })

-- What `_stat_hook_assert` counts in the suite and in the test.
unfoldable pub count_in_suite : Bool → StatSuiteInfo → StatSuiteInfo
unfolding increment
count_in_suite condition i = record i {
  assertions = increment i.assertions;
  assertions_passed = if condition then increment i.assertions_passed else i.assertions_passed;
}

unfoldable pub count_in_test : Bool → StatTestInfo → StatTestInfo
unfolding increment
count_in_test condition i = record i {
  assertions = increment i.assertions;
  assertions_passed = if condition then increment i.assertions_passed else i.assertions_passed;
}

-- `_stat_hook_assert`
unfoldable pub stat_hook_assert : Bool → TestStatistics → Outcome TestStatistics
unfolding change_suite change_test count_in_suite count_in_test
stat_hook_assert condition self = do
  self ← change_suite self (count_in_suite condition)
  change_test self (count_in_test condition)

-- The switch of `_stat_hook_case_end`.
unfoldable pub count_result : TestCaseResult → TestStatistics → Outcome TestStatistics
unfolding increment
count_result test_passed self = ok (record self { passed = increment self.passed })
count_result test_abort self = ok (record self { failed = increment self.failed })
count_result test_internal self = ok (record self { failed = increment self.failed })
count_result test_failed self = ok (record self { failed = increment self.failed })
count_result test_segfault self =
    ok (record self { sigsegv = increment self.sigsegv; failed = increment self.failed })
count_result test_none self = abort

-- `clock` gives the readings of `times` in order.
module _ (clock : ℕ → ℕ) where
  -- `_stat_hook_case_begin`; the new test info is all zero but for the test and the start, and
  -- TEST_PASSED is 0.
  unfoldable pub stat_hook_case_begin : CasePtr → TestStatistics → Outcome TestStatistics
  stat_hook_case_begin test self = do
    k ← deref self.suite_current
    info ← deref (get_elem? self.suite_info_list k)
    ok (record self {
      suite_info_list = set self.suite_info_list k (record info {
        test_info_list =
            info.test_info_list
            ++ record {
              test = test;
              result = test_passed;
              start = clock self.readings;
              end_time = 0;
              assertions = 0;
              assertions_passed = 0;
              leaked_bytes = 0;
            }
              ∷ [];
      });
      test_current = some (k, length info.test_info_list);
      readings = self.readings + 1;
    })

  -- `_stat_hook_case_end`
  unfoldable pub stat_hook_case_end :
      CasePtr → TestCaseResult → TestStatistics → Outcome TestStatistics
  unfolding current_test change_test count_result same_case
  stat_hook_case_end test result self = do
    current ← current_test self
    if not (same_case current.test test) then ok self else (do
      self' ← change_test self (λ i. record i { end_time = clock self.readings; result = result })
      self'' ← count_result result (record self' { readings = self.readings + 1 })
      ok (record self'' { test_current = none }))

  -- `_stat_hook_suite_begin`
  unfoldable pub stat_hook_suite_begin : ℕ → TestStatistics → Outcome TestStatistics
  stat_hook_suite_begin suite self = ok (record self {
    suite_info_list =
        self.suite_info_list
        ++ record {
          suite = suite;
          result = false;
          start = clock self.readings;
          end_time = 0;
          assertions = 0;
          assertions_passed = 0;
          test_info_list = [];
        }
          ∷ [];
    suite_current = some (length self.suite_info_list);
    readings = self.readings + 1;
  })

  -- `_stat_hook_suite_end`
  unfoldable pub stat_hook_suite_end : ℕ → Bool → TestStatistics → Outcome TestStatistics
  unfolding change_suite
  stat_hook_suite_end suite result self = do
    k ← deref self.suite_current
    info ← deref (get_elem? self.suite_info_list k)
    if not (info.suite == suite) then ok self else (do
      self' ← change_suite self (λ i. record i { end_time = clock self.readings; result = result })
      ok (record self' { suite_current = none; readings = self.readings + 1 }))

  -- `_stat_hook_leakwatch`
  unfoldable pub stat_hook_leakwatch : CasePtr → ℕ → TestStatistics → Outcome TestStatistics
  unfolding current_test change_test same_case
  stat_hook_leakwatch test leaked self = do
    current ← current_test self
    if not (same_case current.test test)
        then ok self
        else change_test self (λ i. record i { leaked_bytes = leaked })

  -- The hook of `g_stat_hooks` for an event; there is none for the signals.
  unfoldable pub stat_hook : Event → TestStatistics → Outcome TestStatistics
  unfolding stat_hook_assert stat_hook_case_begin stat_hook_case_end stat_hook_suite_begin
      stat_hook_suite_end stat_hook_leakwatch
  stat_hook (asserted c) self = stat_hook_assert c self
  stat_hook signal_abort self = ok self
  stat_hook signal_segfault self = ok self
  stat_hook (before_test t) self = stat_hook_case_begin t self
  stat_hook (after_test t r) self = stat_hook_case_end t r self
  stat_hook (before_suite i) self = stat_hook_suite_begin i self
  stat_hook (after_suite i b) self = stat_hook_suite_end i b self
  stat_hook (leakinfo t n) self = stat_hook_leakwatch t n self

  -- The hook lists after `stat_start` on a context without hooks.
  unfoldable pub stat_hooks : TestHookId → List (TestHookEntry (Outcome TestStatistics))
  unfolding stat_hook
  stat_hooks hook_signal_abort = []
  stat_hooks hook_signal_segfault = []
  stat_hooks id =
      record { hook = some (λ event user_data s. s >>= stat_hook event); user_data = 0 } ∷ []
