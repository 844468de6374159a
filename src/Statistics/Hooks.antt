-- ===== src/Statistics/Hooks.antt =====
-- How the hooks of the statistics lead from one state to the next.
use tinu.Prelude.{
  ℕ, ◌+◌, ◌≡◌, refl, Bool, true, false, none, some, [], ◌∷◌, ◌++◌, length, set, get_elem?-append,
  get_elem?-set, arith, ◌==◌, not, ==_iff,
}
use tinu.Runner.{TestCaseResult, test_passed, CasePtr, is_passed, expected}
use tinu.Statistics.{
  StatTestInfo, StatSuiteInfo, TestStatistics, change_suite, stat_hook_case_begin,
  stat_hook_case_end, stat_hook_suite_begin, stat_hook_suite_end, stat_hook_leakwatch,
}
use tinu.Statistics.Counted.{
  tally, is_fault, count_result_lem, counted_state, counted_state-Counted,
}
use tinu.Statistics.Ready.{
  InSuite, InTest, Leads, change_test-InTest, same_case_refl, current_test-InTest,
}

module _ (clock : ℕ → ℕ) where
  pub stat_hook_leakwatch-InTest :
      (s : TestStatistics) (i : ℕ) (t : CasePtr) (n : ℕ)
      → InTest s i t
      → Leads s (stat_hook_leakwatch clock t n s) (λ s'. InTest s' i t) 0 0 0
  unfolding stat_hook_leakwatch
  stat_hook_leakwatch-InTest s i t n h =
      let (s', e, h', counted) =
        change_test-InTest s i t (λ x. record x { leaked_bytes = n }) (λ x. refl) h in
      (s', simp (current_test-InTest s i t h, h.same_case, same_case_refl t) e, h', counted)

  pub stat_hook_case_begin-InTest :
      (s : TestStatistics) (i : ℕ) (t : CasePtr)
      → InSuite s i
      → Leads s (stat_hook_case_begin clock t s) (λ s'. InTest s' i t) 0 0 0
  unfolding stat_hook_case_begin
  stat_hook_case_begin-InTest s i t h =
      let new : StatTestInfo = record {
        test = t;
        result = test_passed;
        start = clock s.readings;
        end_time = 0;
        assertions = 0;
        assertions_passed = 0;
        leaked_bytes = 0;
      } in
      let info : StatSuiteInfo = record h.info {
        test_info_list = h.info.test_info_list ++ new ∷ [];
      } in
      (
        record s {
          suite_info_list = set s.suite_info_list h.k info;
          test_current = some (h.k, length h.info.test_info_list);
          readings = s.readings + 1;
        },
        simp (h.current, h.found),
        record {
          k = h.k;
          j = length h.info.test_info_list;
          info = info;
          case = new;
          current = h.current;
          found = get_elem?-set s.suite_info_list h.k info h.found;
          same = h.same;
          busy = refl;
          found_case = get_elem?-append h.info.test_info_list new [];
          same_case = refl;
        },
        record { passes = omega arith; failures = omega arith; faults = omega arith },
      )

  pub stat_hook_case_end-InSuite :
      (s : TestStatistics) (i : ℕ) (t : CasePtr) (r : TestCaseResult)
      → expected r ≡ true
      → InTest s i t
      → Leads s
          (stat_hook_case_end clock t r s)
          (λ s'. InSuite s' i)
          (tally (is_passed r))
          (tally (not (is_passed r)))
          (tally (is_fault r))
  unfolding stat_hook_case_end
  stat_hook_case_end-InSuite s i t r good h =
      let (s', e, h', counted) =
        change_test-InTest s i t (λ x. record x { end_time = clock s.readings; result = r })
          (λ x. refl) h in
      let timed = record s' { readings = s.readings + 1 } in
      let counted' = counted_state-Counted timed r in
      (
        record (counted_state timed r) { test_current = none },
        simp (
          current_test-InTest s i t h,
          h.same_case,
          same_case_refl t,
          e,
          count_result_lem timed r good,
        ),
        record {
          k = h'.k;
          info = h'.info;
          current = h'.current;
          found = h'.found;
          same = h'.same;
          idle = refl;
        },
        record {
          passes = omega (arith, counted.passes, counted'.passes);
          failures = omega (arith, counted.failures, counted'.failures);
          faults = omega (arith, counted.faults, counted'.faults);
        },
      )

  pub stat_hook_suite_begin-InSuite :
      (s : TestStatistics) (i : ℕ)
      → s.test_current ≡ none
      → Leads s (stat_hook_suite_begin clock i s) (λ s'. InSuite s' i) 0 0 0
  unfolding stat_hook_suite_begin
  stat_hook_suite_begin-InSuite s i free = (
    _,
    refl,
    record {
      k = length s.suite_info_list;
      info = record {
        suite = i;
        result = false;
        start = clock s.readings;
        end_time = 0;
        assertions = 0;
        assertions_passed = 0;
        test_info_list = [];
      };
      current = refl;
      found = get_elem?-append s.suite_info_list _ [];
      same = refl;
      idle = free;
    },
    record { passes = omega arith; failures = omega arith; faults = omega arith },
  )

  pub stat_hook_suite_end-idle :
      (s : TestStatistics) (i : ℕ) (b : Bool)
      → InSuite s i
      → Leads s (stat_hook_suite_end clock i b s) (λ s'. s'.test_current ≡ none) 0 0 0
  unfolding stat_hook_suite_end change_suite
  stat_hook_suite_end-idle s i b h =
      let same : (h.info.suite == i) ≡ true = (==_iff h.info.suite i).1 h.same in
      (
        record s {
          suite_info_list =
              set s.suite_info_list h.k (record h.info { end_time = clock s.readings; result = b });
          suite_current = none;
          readings = s.readings + 1;
        },
        simp (h.current, h.found, same),
        h.idle,
        record { passes = omega arith; failures = omega arith; faults = omega arith },
      )
