-- ===== src/Runner.antt =====
-- lib/test.c: running the tests of a context with their hooks and signals. The messages that are
-- logged on the way are left out. A case is known by the positions of its suite and of itself.
pub mod Unregister
pub mod Hooks
pub mod Labels
pub mod Trace
pub mod Verdict
pub mod Whole
pub mod Simple
pub mod Adding
use tinu.Prelude.{
  ℕ, zero, suc, ◌+◌, Bool, true, false, ◌&&◌, not, Option, none, some, List, [], ◌∷◌, ◌==◌,
  if◌then◌else◌, Str, get_elem?, Outcome, ok, abort, crash, ◌>>=◌, deref,
}
use tinu.Suites.{TestCase, TestSuite, Suites, test_suite_lookup, test_lookup_case}

pub data TestCaseResult : Type 0 where
  test_none test_passed test_failed test_abort test_segfault test_internal : TestCaseResult

pub data TestHookId : Type 0 where
  hook_assert hook_signal_abort hook_signal_segfault : TestHookId
  hook_before_test hook_after_test : TestHookId
  hook_before_suite hook_after_suite hook_leakinfo : TestHookId

pub record CasePtr : Type 0 where
  pub suite : ℕ
  pub case : ℕ

-- A call of `_test_run_hooks` with its variable arguments.
pub data Event : Type 0 where
  asserted : Bool → Event
  signal_abort signal_segfault : Event
  before_test : CasePtr → Event
  after_test : CasePtr → TestCaseResult → Event
  before_suite : ℕ → Event
  after_suite : ℕ → Bool → Event
  leakinfo : CasePtr → ℕ → Event

unfoldable pub hook_id : Event → TestHookId
hook_id (asserted c) = hook_assert
hook_id signal_abort = hook_signal_abort
hook_id signal_segfault = hook_signal_segfault
hook_id (before_test t) = hook_before_test
hook_id (after_test t r) = hook_after_test
hook_id (before_suite s) = hook_before_suite
hook_id (after_suite s b) = hook_after_suite
hook_id (leakinfo t n) = hook_leakinfo

pub data Signal : Type 0 where
  sigabrt sigsegv : Signal

-- What the code of a test does that the runner sees: it evaluates an assertion or gets a signal.
pub data Action : Type 0 where
  assertion : Bool → Action
  raise : Signal → Action

-- `result == TEST_PASSED`
unfoldable pub is_passed : TestCaseResult → Bool
is_passed test_passed = true
is_passed _ = false

-- `if (g_test_case_current_result == TEST_NONE) ... = TEST_PASSED`
unfoldable pub pass : TestCaseResult → TestCaseResult
pass test_none = test_passed
pass result = result

-- The assertion that every result but TEST_NONE is expected.
unfoldable pub expected : TestCaseResult → Bool
expected test_none = false
expected _ = true

pub record TestHookEntry (W : Type 0) : Type 0 where
  pub hook : Option (Event → ℕ → W → W)
  pub user_data : ℕ

pub record TestContext (W : Type 0) : Type 0 where
  pub suites : Suites
  pub sighandle : Bool
  pub leakwatch : Bool
  pub hooks : TestHookId → List (TestHookEntry W)

-- The world, `g_test_case_current_result`, and whether the code came to its end.
pub record Running (W : Type 0) : Type 0 where
  pub world : W
  pub result : TestCaseResult
  pub ended : Bool

module _ {W : Type 0} where
  -- The loop of `_test_run_hooks` over the entries of the list.
  unfoldable pub run_entries : List (TestHookEntry W) → Event → W → W
  run_entries [] event w = w
  run_entries (e ∷ es) event w = elim e.hook [
    | none ↦ run_entries es event w
    | some hook ↦ run_entries es event (hook event e.user_data w)
  ]

  unfoldable pub test_run_hooks : TestContext W → Event → W → W
  unfolding run_entries hook_id
  test_run_hooks self event w = run_entries (self.hooks (hook_id event)) event w

  unfoldable pub signal_handler : TestContext W → Signal → W → Running W
  unfolding test_run_hooks
  signal_handler self sigabrt w = record {
    world = test_run_hooks self signal_abort w;
    result = test_abort;
    ended = false;
  }
  signal_handler self sigsegv w = record {
    world = test_run_hooks self signal_segfault w;
    result = test_segfault;
    ended = false;
  }

  unfoldable pub tinu_test_assert : TestContext W → Bool → W × TestCaseResult → W × TestCaseResult
  unfolding test_run_hooks
  tinu_test_assert self condition (w, result) =
      (test_run_hooks self (asserted condition) w, if not condition then test_failed else result)

-- `code` is what the function at a pointer does for a test with the user data; `leaked` is what
-- `tinu_leakwatch_summary` gives for a case; `switched` says whether getcontext and swapcontext
-- succeed.
module _ {W : Type 0} (code : ℕ → ℕ → List Action) (leaked : CasePtr → ℕ) (switched : Bool) where
  -- A piece of test code. A signal without a handler ends the program.
  unfoldable pub perform : TestContext W → List Action → W → TestCaseResult → Outcome (Running W)
  unfolding signal_handler tinu_test_assert
  perform self [] w result = ok (record { world = w; result = result; ended = true })
  perform self (assertion c ∷ actions) w result =
      let (w', result') = tinu_test_assert self c (w, result) in perform self actions w' result'
  perform self (raise s ∷ actions) w result =
      if self.sighandle then ok (signal_handler self s w) else crash

  -- A call through a pointer that may be `NULL`, unless a signal came before.
  unfoldable pub call : TestContext W → ℕ → ℕ → Running W → Outcome (Running W)
  unfolding perform
  call self user_data function r =
      if r.ended && not (function == 0)
      then perform self (code function user_data) r.world r.result
      else ok r

  -- `_test_case_run_intern`: the world and the result at its end or at the signal.
  unfoldable pub test_case_run_intern :
      TestContext W → CasePtr → TestCase → W → Outcome (W × TestCaseResult)
  unfolding call pass
  test_case_run_intern self ptr test w = do
    let start : Running W = record {
      world = test_run_hooks self (before_test ptr) w;
      result = test_none;
      ended = true;
    }
    r ← call self test.user_data test.setup start
    r' ← call self test.user_data test.test r
    r'' ← call self test.user_data test.cleanup r'
    ok (r''.world, if r''.ended then pass r''.result else r''.result)

  unfoldable pub test_case_run_single_test :
      TestContext W → CasePtr → TestCase → W → Outcome (W × TestCaseResult)
  unfolding test_case_run_intern expected
  test_case_run_single_test self ptr test w = do
    (w', result) ←
        (if self.sighandle && not switched
          then ok (w, test_internal)
          else test_case_run_intern self ptr test w)
    let w'' = if self.leakwatch then test_run_hooks self (leakinfo ptr (leaked ptr)) w' else w'
    if expected result then ok (test_run_hooks self (after_test ptr result) w'', result) else abort

  -- The loop of `_test_suite_run` over the cases from position `j`, with its variable `res`.
  unfoldable pub run_cases : TestContext W → ℕ → ℕ → List TestCase → Bool → W → Outcome (W × Bool)
  unfolding test_case_run_single_test is_passed
  run_cases self i j [] res w = ok (w, res)
  run_cases self i j (test ∷ tests) res w = do
    (w', result) ← test_case_run_single_test self (record { suite = i; case = j }) test w
    run_cases self i (suc j) tests (res && is_passed result) w'

  -- `_test_suite_run` without and with a case.
  unfoldable pub test_suite_run : TestContext W → ℕ → TestSuite → W → Outcome (W × Bool)
  unfolding run_cases test_run_hooks
  test_suite_run self i suite w = do
    (w', res) ← run_cases self i 0 suite.tests true (test_run_hooks self (before_suite i) w)
    ok (test_run_hooks self (after_suite i res) w', res)

  unfoldable pub test_suite_run_case : TestContext W → CasePtr → TestCase → W → Outcome (W × Bool)
  unfolding test_case_run_single_test test_run_hooks is_passed
  test_suite_run_case self ptr test w = do
    (w', result) ←
        test_case_run_single_test self ptr test (test_run_hooks self (before_suite ptr.suite) w)
    ok (test_run_hooks self (after_suite ptr.suite (is_passed result)) w', is_passed result)

  -- The loop of `tinu_test_all_run` over the suites from position `i`.
  unfoldable pub run_suites : TestContext W → ℕ → Suites → Bool → W → Outcome (W × Bool)
  unfolding test_suite_run
  run_suites self i [] res w = ok (w, res)
  run_suites self i (suite ∷ suites) res w = do
    (w', suite_res) ← test_suite_run self i suite w
    run_suites self (suc i) suites (res && suite_res) w'

  unfoldable pub tinu_test_all_run : TestContext W → W → Outcome (W × Bool)
  unfolding run_suites
  tinu_test_all_run self w = run_suites self 0 self.suites true w

  unfoldable pub tinu_test_suite_run : TestContext W → Str → W → Outcome (W × Bool)
  unfolding test_suite_run
  tinu_test_suite_run self suite_name w = elim (test_suite_lookup self.suites suite_name false).1 [
    | none ↦ ok (w, false)
    | some i ↦ do suite ← deref (get_elem? self.suites i); test_suite_run self i suite w
  ]

  unfoldable pub tinu_test_case_run : TestContext W → Str → Str → W → Outcome (W × Bool)
  unfolding test_suite_run_case
  tinu_test_case_run self suite_name test_name w =
      elim (test_suite_lookup self.suites suite_name false).1 [
        | none ↦ ok (w, false)
        | some i ↦ do
          suite ← deref (get_elem? self.suites i)
          elim (test_lookup_case suite test_name) [
            | none ↦ ok (w, false)
            | some j ↦ do
              test ← deref (get_elem? suite.tests j)
              test_suite_run_case self (record { suite = i; case = j }) test w
          ]
      ]
