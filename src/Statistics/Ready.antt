-- ===== src/Statistics/Ready.antt =====
-- The states between the hooks, and what keeps them.
use tinu.Prelude.{
  ℕ, ◌≡◌, refl, ap, ◌∙◌, Bool, true, none, some, get_elem?, set, get_elem?-set, Outcome, ok, ◌>>=◌,
  arith,
}
use tinu.Runner.{CasePtr}
use tinu.Statistics.{
  StatTestInfo, StatSuiteInfo, TestStatistics, same_case, count_in_suite, count_in_test,
  change_suite, current_test, change_test, stat_hook_assert,
}
use tinu.Statistics.Counted.{Counted, Counted-trans}

-- The suite `i` runs and no case of it.
pub record InSuite (s : TestStatistics) (i : ℕ) : Type 0 where
  pub k : ℕ
  pub info : StatSuiteInfo
  pub current : s.suite_current ≡ some k
  pub found : get_elem? s.suite_info_list k ≡ some info
  pub same : info.suite ≡ i
  pub idle : s.test_current ≡ none

-- The case `t` of the suite `i` runs.
pub record InTest (s : TestStatistics) (i : ℕ) (t : CasePtr) : Type 0 where
  pub k : ℕ
  pub j : ℕ
  pub info : StatSuiteInfo
  pub case : StatTestInfo
  pub current : s.suite_current ≡ some k
  pub found : get_elem? s.suite_info_list k ≡ some info
  pub same : info.suite ≡ i
  pub busy : s.test_current ≡ some (k, j)
  pub found_case : get_elem? info.test_info_list j ≡ some case
  pub same_case : case.test ≡ t

-- The call returns a state with `P`, and the counters grow by `p`, `f` and `g`.
abbrev pub Leads :
    TestStatistics → Outcome TestStatistics → (TestStatistics → Type 0) → ℕ → ℕ → ℕ → Type 0
Leads s m P p f g = (s' : TestStatistics) × (m ≡ ok s') × P s' × Counted s s' p f g

change_suite-InTest :
    (s : TestStatistics) (i : ℕ) (t : CasePtr) (f : StatSuiteInfo → StatSuiteInfo)
    → ((x : StatSuiteInfo) → (f x).suite ≡ x.suite)
    → ((x : StatSuiteInfo) → (f x).test_info_list ≡ x.test_info_list)
    → InTest s i t
    → Leads s (change_suite s f) (λ s'. InTest s' i t) 0 0 0
unfolding change_suite
change_suite-InTest s i t f keeps keeps' h = (
  record s { suite_info_list = set s.suite_info_list h.k (f h.info) },
  simp (h.current, h.found),
  record {
    k = h.k;
    j = h.j;
    info = f h.info;
    case = h.case;
    current = h.current;
    found = get_elem?-set s.suite_info_list h.k (f h.info) h.found;
    same = keeps h.info ∙ h.same;
    busy = h.busy;
    found_case = ap (λ xs. get_elem? xs h.j) (keeps' h.info) ∙ h.found_case;
    same_case = h.same_case;
  },
  record { passes = omega arith; failures = omega arith; faults = omega arith },
)

pub change_test-InTest :
    (s : TestStatistics) (i : ℕ) (t : CasePtr) (f : StatTestInfo → StatTestInfo)
    → ((x : StatTestInfo) → (f x).test ≡ x.test)
    → InTest s i t
    → Leads s (change_test s f) (λ s'. InTest s' i t) 0 0 0
unfolding change_test
change_test-InTest s i t f keeps h =
    let changed : StatSuiteInfo = record h.info {
      test_info_list = set h.info.test_info_list h.j (f h.case);
    } in
    (
      record s { suite_info_list = set s.suite_info_list h.k changed },
      simp (h.busy, h.found, h.found_case),
      record {
        k = h.k;
        j = h.j;
        info = changed;
        case = f h.case;
        current = h.current;
        found = get_elem?-set s.suite_info_list h.k changed h.found;
        same = h.same;
        busy = h.busy;
        found_case = get_elem?-set h.info.test_info_list h.j (f h.case) h.found_case;
        same_case = keeps h.case ∙ h.same_case;
      },
      record { passes = omega arith; failures = omega arith; faults = omega arith },
    )

pub same_case_refl : (t : CasePtr) → same_case t t ≡ true
unfolding same_case
same_case_refl t = ground arith

pub current_test-InTest :
    (s : TestStatistics) (i : ℕ) (t : CasePtr) (h : InTest s i t) → current_test s ≡ ok h.case
unfolding current_test
current_test-InTest s i t h = simp (h.busy, h.found, h.found_case)

pub stat_hook_assert-InTest :
    (s : TestStatistics) (i : ℕ) (t : CasePtr) (c : Bool)
    → InTest s i t
    → Leads s (stat_hook_assert c s) (λ s'. InTest s' i t) 0 0 0
unfolding stat_hook_assert count_in_suite count_in_test
stat_hook_assert-InTest s i t c h =
    let (s', e, h', n) = change_suite-InTest s i t (count_in_suite c) (λ x. refl) (λ x. refl) h in
    let (s'', e', h'', n') = change_test-InTest s' i t (count_in_test c) (λ x. refl) h' in
    (
      s'',
      ap (λ m. m >>= λ x. change_test x (count_in_test c)) e ∙ e',
      h'',
      Counted-trans s s' s'' 0 0 0 0 0 0 n n',
    )
