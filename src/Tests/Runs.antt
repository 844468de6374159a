-- ===== src/Tests/Runs.antt =====
-- lib/test.c: a run of a context of one suite with three cases.
use tinu.Prelude.{
  ℕ, zero, suc, ◌≡◌, refl, true, false, Bool, replicate, ◌==◌, List, [], ◌∷◌, ◌++◌, some, bytes,
  Outcome, ok, crash,
}
use tinu.Suites.{TestCase}
use tinu.Runner.{
  is_passed, test_internal, test_segfault, CasePtr, Event, asserted, signal_segfault, before_test,
  after_test, Action, assertion, raise, sigsegv, TestContext, test_case_run_single_test,
  tinu_test_all_run,
}
use tinu.Runner.{
  hook_assert, hook_signal_abort, hook_signal_segfault, hook_before_test, hook_after_test,
  hook_before_suite, hook_after_suite, hook_leakinfo,
}
use tinu.Log.{initial}
use tinu.Runner.Unregister.{unregister_loop}
use tinu.Runner.Hooks.{test_context_init, test_register_hook, is_hook}
use tinu.Statistics.Life.{
  World, stat_start, stat_stop, stat_destroy, own, running, IsApart, stat_stop-stat_start,
}
use tinu.Runner.Trace.{verdict_from, feed}
use tinu.Runner.Verdict.{
  case_result, case_events, suites_events, suites_passed, single_test-verdict,
}
use tinu.Runner.Whole.{all_run-events}
use tinu.Statistics.{TestStatistics, stat_new, stat_hooks}
use tinu.Statistics.Counted.{Counted, is_fault}
use tinu.Statistics.Expected.{suite_infos}
use tinu.Statistics.Exact.{all_run-suite_infos}
use tinu.Statistics.Totals.{count_suites, is_failed, internal-crash}

-- Function 1 passes, 2 fails an assertion and goes on, 3 fails one and then faults.
abbrev code : ℕ → ℕ → List Action
code (suc (suc zero)) user_data = assertion false ∷ assertion true ∷ []
code (suc (suc (suc zero))) user_data = assertion false ∷ raise sigsegv ∷ assertion true ∷ []
code _ user_data = assertion true ∷ []

abbrev case_of : ℕ → TestCase
case_of function = record {
  suite = 0;
  name = bytes "case";
  setup = 0;
  cleanup = 1;
  test = function;
  user_data = 0;
  user_data_cleanup = 0;
}

-- One hook for everything, which notes what it is called with, newest first.
abbrev context : TestContext (List Event)
context = record {
  suites = record { name = bytes "list"; tests = case_of 1 ∷ case_of 2 ∷ case_of 3 ∷ [] } ∷ [];
  sighandle = true;
  leakwatch = false;
  hooks = λ id. record { hook = some (λ event user_data w. event ∷ w); user_data = 0 } ∷ [];
}

abbrev third : CasePtr
third = record { suite = 0; case = 2 }

-- The fault keeps the cleanup from running and decides the result.
third_run :
    test_case_run_single_test code (λ t. 0) true context third (case_of 3) []
    ≡ ok (
      after_test third test_segfault ∷ signal_segfault ∷ asserted false ∷ before_test third ∷ [],
      test_segfault,
    )
unfolding test_case_run_single_test
third_run = refl

-- Without the handler for signals a fault ends the program.
unhandled :
    test_case_run_single_test code
      (λ t. 0)
      true
      (record context { sighandle = false })
      third
      (case_of 3)
      []
    ≡ crash
unfolding test_case_run_single_test
unhandled = refl

single_test-verdict_example :
    test_case_run_single_test code (λ t. 0) true context third (case_of 3) []
    ≡ ok (
      feed context (case_events code (λ t. 0) true false third (case_of 3)) [],
      case_result code (λ t. 0) true false (case_of 3),
    )
single_test-verdict_example =
    single_test-verdict code (λ t. 0) true false context third (case_of 3) [] refl refl

all_run-events_example :
    tinu_test_all_run code (λ t. 0) true context []
    ≡ ok (
      feed context (suites_events code (λ t. 0) true false 0 context.suites) [],
      suites_passed code (λ t. 0) true false context.suites,
    )
all_run-events_example = all_run-events code (λ t. 0) true context refl []

-- The same context with the hooks of the statistics.
abbrev watched : TestContext (Outcome TestStatistics)
watched = record {
  suites = context.suites;
  sighandle = true;
  leakwatch = false;
  hooks = stat_hooks (λ n. n);
}

all_run-suite_infos_example :
    (s' : TestStatistics) × (tinu_test_all_run code (λ t. 0) true watched (ok stat_new)
      ≡ ok (ok s', suites_passed code (λ t. 0) true false context.suites))
    × (s'.suite_info_list
        ≡ stat_new.suite_info_list
          ++ suite_infos (λ n. n) code (λ t. 0) false 0 stat_new.readings context.suites)
    × (s'.messages ≡ stat_new.messages)
    × Counted stat_new s'
        (count_suites code (λ t. 0) false is_passed context.suites)
        (count_suites code (λ t. 0) false is_failed context.suites)
        (count_suites code (λ t. 0) false is_fault context.suites)
unfolding stat_new
all_run-suite_infos_example =
    all_run-suite_infos code (λ t. 0) (λ n. n) watched stat_new refl refl refl

internal-crash_example :
    test_case_run_single_test code (λ t. 0) false watched third (case_of 1) (ok stat_new)
    ≡ ok (crash, test_internal)
unfolding stat_new
internal-crash_example =
    internal-crash code (λ t. 0) (λ n. n) watched third (case_of 1) stat_new refl refl refl

-- One case of the three passes, two do not, and one of these faults.
counts :
    (count_suites code (λ t. 0) false is_passed context.suites ≡ 1)
    × (count_suites code (λ t. 0) false is_failed context.suites ≡ 2)
    × (count_suites code (λ t. 0) false is_fault context.suites ≡ 1)
unfolding count_suites is_fault is_passed case_result verdict_from
counts = (refl, refl, refl)

-- A context with a hook of someone else.
abbrev shared : TestContext (Outcome TestStatistics)
shared = test_register_hook hook_before_test (some (λ event user_data s. s)) 3 test_context_init

-- A comparison of hooks that takes them all for one, so that the user data decides.
abbrev same : (Event → ℕ → World → World) → (Event → ℕ → World → World) → Bool
same f g = true

shared-IsApart : IsApart (λ n. n) same 5 shared
unfolding is_hook test_register_hook test_context_init
shared-IsApart hook_assert = tt
shared-IsApart hook_signal_abort = tt
shared-IsApart hook_signal_segfault = tt
shared-IsApart hook_before_test = (refl, tt)
shared-IsApart hook_after_test = tt
shared-IsApart hook_before_suite = tt
shared-IsApart hook_after_suite = tt
shared-IsApart hook_leakinfo = tt

stat_stop-stat_start_example :
    let started = stat_start (λ n. n) 5 6 shared initial in
    let stopped = stat_stop (λ n. n) same 5 started.1 started.0.0 started.0.1 in
    let destroyed = stat_destroy (λ n. n) same 5 stopped.1.0 stopped.0.0 stopped.0.1 in
    (started.0.0.hooks hook_before_test ≡ running (λ n. n) 5 shared.hooks hook_before_test)
    × (stopped.0.0.hooks hook_before_test ≡ [])
    × (stopped.1.1 ≡ replicate 6 (own (λ n. n) 5))
    × (destroyed.0.0.hooks hook_before_test ≡ stopped.0.0.hooks hook_before_test)
    × (destroyed.1.1 ≡ [])
    × (destroyed.0.1 ≡ stopped.0.1)
stat_stop-stat_start_example =
    stat_stop-stat_start (λ n. n) same 5 6 shared initial hook_before_test refl shared-IsApart

-- The entry behind one that is removed is passed over.
skipped_entry : unregister_loop (λ (n : ℕ). true) (1 ∷ 2 ∷ 3 ∷ []) ≡ 1 ∷ 3 ∷ []
unfolding unregister_loop
skipped_entry = refl

-- Behind the last one the loop starts again, without its first entry.
second_round : unregister_loop (λ n. n == 3) (1 ∷ 2 ∷ 3 ∷ []) ≡ 3 ∷ []
unfolding unregister_loop
second_round = refl
