-- ===== src/Statistics/Positions.antt =====
-- The hooks of lib/statistics.c on the statistics inside a suite and inside a case.
use tinu.Prelude.{
  ℕ, ◌+◌, ◌%◌, ◌^◌, ◌≡◌, refl, ap, ap₂, ◌∙◌, Bool, true, false, none, some, List, [], ◌∷◌, ◌++◌,
  length, get_elem?-append, set-append, ◌==◌, ==_iff, arith, ok, bind_cong,
}
use tinu.Runner.{TestCaseResult, test_passed, CasePtr, expected}
use tinu.Statistics.{
  StatTestInfo, StatSuiteInfo, TestStatistics, count_in_suite, count_in_test, increment,
  change_suite, current_test, change_test, stat_hook_assert, stat_hook_case_begin,
  stat_hook_case_end, stat_hook_suite_begin, stat_hook_suite_end, stat_hook_leakwatch,
}
use tinu.Statistics.Counted.{tally, count_result_lem, counted_state}
use tinu.Statistics.Ready.{same_case_refl}

-- A suite that runs, after `a` assertions of which `p` held.
abbrev pub open_suite : ℕ → ℕ → ℕ → ℕ → List StatTestInfo → StatSuiteInfo
open_suite i start a p tests = record {
  suite = i;
  result = false;
  start = start;
  end_time = 0;
  assertions = a % 2 ^ 32;
  assertions_passed = p % 2 ^ 32;
  test_info_list = tests;
}

-- A case that runs.
abbrev pub open_case : CasePtr → ℕ → ℕ → ℕ → ℕ → StatTestInfo
open_case t start a p leaked = record {
  test = t;
  result = test_passed;
  start = start;
  end_time = 0;
  assertions = a % 2 ^ 32;
  assertions_passed = p % 2 ^ 32;
  leaked_bytes = leaked;
}

-- The statistics while the last suite runs, and while its last case does.
abbrev pub in_suite : TestStatistics → List StatSuiteInfo → StatSuiteInfo → TestStatistics
in_suite s infos info = record s {
  suite_info_list = infos ++ info ∷ [];
  suite_current = some (length infos);
  test_current = none;
}

abbrev pub in_case :
    TestStatistics
    → List StatSuiteInfo
    → StatSuiteInfo
    → List StatTestInfo
    → StatTestInfo
    → TestStatistics
in_case s infos info cases case = record s {
  suite_info_list = infos ++ record info { test_info_list = cases ++ case ∷ [] } ∷ [];
  suite_current = some (length infos);
  test_current = some (length infos, length cases);
}

change_suite-in_case :
    (s : TestStatistics) (infos : List StatSuiteInfo) (info : StatSuiteInfo)
    (cases : List StatTestInfo) (case : StatTestInfo) (f : StatSuiteInfo → StatSuiteInfo)
    → change_suite (in_case s infos info cases case) f
      ≡ ok (record (in_case s infos info cases case) {
        suite_info_list = infos ++ f (record info { test_info_list = cases ++ case ∷ [] }) ∷ [];
      })
unfolding change_suite
change_suite-in_case s infos info cases case f =
    simp (get_elem?-append infos _ [], set-append infos _ _ [])

change_test-in_case :
    (s : TestStatistics) (infos : List StatSuiteInfo) (info : StatSuiteInfo)
    (cases : List StatTestInfo) (case : StatTestInfo) (f : StatTestInfo → StatTestInfo)
    → change_test (in_case s infos info cases case) f ≡ ok (in_case s infos info cases (f case))
unfolding change_test
change_test-in_case s infos info cases case f = simp (
  get_elem?-append infos _ [],
  set-append infos _ _ [],
  get_elem?-append cases _ [],
  set-append cases _ _ [],
)

current_test-in_case :
    (s : TestStatistics) (infos : List StatSuiteInfo) (info : StatSuiteInfo)
    (cases : List StatTestInfo) (case : StatTestInfo)
    → current_test (in_case s infos info cases case) ≡ ok case
unfolding current_test
current_test-in_case s infos info cases case =
    simp (get_elem?-append infos _ [], get_elem?-append cases _ [])

increment_mod : (n : ℕ) → increment (n % 2 ^ 32) ≡ (n + 1) % 2 ^ 32
unfolding increment
increment_mod n = omega arith

count_in_suite_lem :
    (c : Bool) (i start a p : ℕ) (tests : List StatTestInfo)
    → count_in_suite c (open_suite i start a p tests)
      ≡ open_suite i start (a + 1) (p + tally c) tests
unfolding count_in_suite
count_in_suite_lem true i start a p tests =
    ap₂ (λ x y. record (open_suite i start 0 0 tests) { assertions = x; assertions_passed = y })
      (increment_mod a) (increment_mod p)
count_in_suite_lem false i start a p tests =
    ap₂ (λ x y. record (open_suite i start 0 0 tests) { assertions = x; assertions_passed = y })
      (increment_mod a) (omega arith)

count_in_test_lem :
    (c : Bool) (t : CasePtr) (start a p leaked : ℕ)
    → count_in_test c (open_case t start a p leaked)
      ≡ open_case t start (a + 1) (p + tally c) leaked
unfolding count_in_test
count_in_test_lem true t start a p leaked =
    ap₂ (λ x y. record (open_case t start 0 0 leaked) { assertions = x; assertions_passed = y })
      (increment_mod a) (increment_mod p)
count_in_test_lem false t start a p leaked =
    ap₂ (λ x y. record (open_case t start 0 0 leaked) { assertions = x; assertions_passed = y })
      (increment_mod a) (omega arith)

pub stat_hook_assert-in_case :
    (s : TestStatistics) (infos : List StatSuiteInfo) (c : Bool) (i start a p : ℕ)
    (cases : List StatTestInfo) (t : CasePtr) (start' a' p' leaked : ℕ)
    → stat_hook_assert c
        (in_case s infos (open_suite i start a p []) cases (open_case t start' a' p' leaked))
      ≡ ok (
          in_case s infos
            (open_suite i start (a + 1) (p + tally c) [])
            cases
            (open_case t start' (a' + 1) (p' + tally c) leaked))
unfolding stat_hook_assert
stat_hook_assert-in_case s infos c i start a p cases t start' a' p' leaked =
    let case = open_case t start' a' p' leaked in
    bind_cong
      (change_suite-in_case s infos (open_suite i start a p []) cases case (count_in_suite c)
        ∙ ap (λ info. ok (in_case s infos info cases case))
            (count_in_suite_lem c i start a p (cases ++ case ∷ [])))
      (λ q. refl)
    ∙ change_test-in_case s infos (open_suite i start (a + 1) (p + tally c) []) cases case
        (count_in_test c)
    ∙ ap (λ k. ok (in_case s infos (open_suite i start (a + 1) (p + tally c) []) cases k))
        (count_in_test_lem c t start' a' p' leaked)

module _ (clock : ℕ → ℕ) where
  pub stat_hook_case_begin-in_suite :
      (s : TestStatistics) (infos : List StatSuiteInfo) (info : StatSuiteInfo) (t : CasePtr)
      → stat_hook_case_begin clock t (in_suite s infos info)
        ≡ ok (
            in_case
              (record s { readings = s.readings + 1 })
              infos
              info
              info.test_info_list
              (open_case t (clock s.readings) 0 0 0))
  unfolding stat_hook_case_begin
  stat_hook_case_begin-in_suite s infos info t =
      simp (get_elem?-append infos info [], set-append infos info _ [])

  pub stat_hook_leakwatch-in_case :
      (s : TestStatistics) (infos : List StatSuiteInfo) (info : StatSuiteInfo)
      (cases : List StatTestInfo) (t : CasePtr) (start a p leaked n : ℕ)
      → stat_hook_leakwatch clock t n (in_case s infos info cases (open_case t start a p leaked))
        ≡ ok (in_case s infos info cases (open_case t start a p n))
  unfolding stat_hook_leakwatch
  stat_hook_leakwatch-in_case s infos info cases t start a p leaked n =
      let case = open_case t start a p leaked in
      simp (current_test-in_case s infos info cases case, same_case_refl t)
        (change_test-in_case s infos info cases case (λ x. record x { leaked_bytes = n }))

  pub stat_hook_case_end-in_suite :
      (s : TestStatistics) (infos : List StatSuiteInfo) (info : StatSuiteInfo)
      (cases : List StatTestInfo) (t : CasePtr) (r : TestCaseResult) (start a p leaked : ℕ)
      → expected r ≡ true
      → stat_hook_case_end clock t r (in_case s infos info cases (open_case t start a p leaked))
        ≡ ok (
            in_suite (counted_state (record s { readings = s.readings + 1 }) r) infos (record info {
              test_info_list =
                  cases
                  ++ record (open_case t start a p leaked) {
                    end_time = clock s.readings;
                    result = r;
                  }
                    ∷ [];
            }))
  unfolding stat_hook_case_end
  stat_hook_case_end-in_suite s infos info cases t r start a p leaked good =
      let case = open_case t start a p leaked in
      let ended = record case { end_time = clock s.readings; result = r } in
      simp (
        current_test-in_case s infos info cases case,
        same_case_refl t,
        change_test-in_case s infos info cases case
            (λ i. record i { end_time = clock s.readings; result = r }),
        count_result_lem (record (in_case s infos info cases ended) { readings = s.readings + 1 }) r
            good,
      )

  pub stat_hook_suite_begin-in_suite :
      (s : TestStatistics) (i : ℕ)
      → s.test_current ≡ none
      → stat_hook_suite_begin clock i s
        ≡ ok (
            in_suite
              (record s { readings = s.readings + 1 })
              s.suite_info_list
              (open_suite i (clock s.readings) 0 0 []))
  unfolding stat_hook_suite_begin
  stat_hook_suite_begin-in_suite s i free =
      ap
        (λ current.
          ok
            (record (in_suite (record s { readings = s.readings + 1 }) s.suite_info_list
              (open_suite i (clock s.readings) 0 0 [])) { test_current = current }))
        free

  pub stat_hook_suite_end-in_suite :
      (s : TestStatistics) (infos : List StatSuiteInfo) (i start a p : ℕ)
      (cases : List StatTestInfo) (b : Bool)
      → stat_hook_suite_end clock i b (in_suite s infos (open_suite i start a p cases))
        ≡ ok (record s {
          suite_info_list =
              infos
              ++ record (open_suite i start a p cases) { end_time = clock s.readings; result = b }
                ∷ [];
          suite_current = none;
          test_current = none;
          readings = s.readings + 1;
        })
  unfolding stat_hook_suite_end change_suite
  stat_hook_suite_end-in_suite s infos i start a p cases b =
      let same : (i == i) ≡ true = (==_iff i i).1 refl in
      simp (get_elem?-append infos _ [], set-append infos _ _ [], same)
