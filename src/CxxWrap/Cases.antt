-- ===== src/CxxWrap/Cases.antt =====
-- The test classes of lib/tinu/cxxwrap.h: methods that may end in an exception, as the functions
-- of a test.
use tinu.Prelude.{
  ℕ, ◌≡◌, refl, ap, ap₂, ◌∙◌, Bool, true, false, ◌||◌, Option, none, some, List, [], ◌∷◌, ◌++◌, Str,
  ok, bytes, ◌==◌, if◌then◌else◌, Outcome, arith,
}
use tinu.Message.Priority.{msg_tag_str}
use tinu.Suites.{TestCase, Suites, TestFunctions}
use tinu.Runner.{
  TestCaseResult, test_passed, test_failed, test_abort, test_segfault, CasePtr, Signal, sigabrt,
  TestContext, test_case_run_single_test, sigsegv, Action, assertion, raise,
}
use tinu.Runner.Trace.{first_signal, fails, verdict_from, verdict, actions, feed}
use tinu.Runner.Verdict.{case_result, case_events, single_test-verdict}
use tinu.Backtrace.{Logged}
use tinu.Main.{tinu_test_add_extended}

-- How a method ends: it returns, or an Exception, a std::exception or another one leaves it.
pub data Ending : Type 0 where
  returned : Ending
  tinu_exception : Str → Ending
  std_exception : Str → Ending
  other_exception : Ending

-- What a method does up to its end.
pub record Method : Type 0 where
  pub acts : List Action
  pub ending : Ending

-- A class of tests: what its constructor and its destructor do.
pub record TestClass : Type 0 where
  pub construct : Method
  pub destruct : Method

unfoldable pub throws : Ending → Bool
throws returned = false
throws e = true

-- `test_wrapper`: TINU_FAIL in every `catch`.
unfoldable pub test_wrapper : Method → List Action
unfolding throws
test_wrapper m = m.acts ++ (if throws m.ending then assertion false ∷ [] else [])

-- The message that a `catch` logs; behind that of an Exception come the frames of its trace.
unfoldable pub caught_message : Ending → Option Logged
caught_message returned = none
caught_message (tinu_exception what) =
    some (bytes "TINU exception caught during test", msg_tag_str (bytes "exception") what ∷ [])
caught_message (std_exception what) =
    some (bytes "Standard exception caught", msg_tag_str (bytes "exception") what ∷ [])
caught_message other_exception = some (bytes "Unknown exception caught", [])

-- `test_setup_wrapper` and `test_cleanup_wrapper`: no `catch` is around them, so an exception ends
-- in std::terminate, which raises SIGABRT.
unfoldable pub unguarded : Method → List Action
unfolding throws
unguarded m = m.acts ++ (if throws m.ending then raise sigabrt ∷ [] else [])

unfoldable pub test_setup_wrapper : TestClass → List Action
unfolding unguarded
test_setup_wrapper t = unguarded t.construct

unfoldable pub test_cleanup_wrapper : TestClass → List Action
unfolding unguarded
test_cleanup_wrapper t = unguarded t.destruct

-- `CxxTinu::add_test`: `wrappers` are the wrappers of the class, `wrapper` the address of the new
-- Wrapper and `destroy` that of Wrapper::destroy.
unfoldable pub cxx_add_test :
    Option Suites → Str → Str → TestFunctions → ℕ → ℕ → Outcome (Option Suites)
unfolding tinu_test_add_extended
cxx_add_test context suite name wrappers wrapper destroy =
    tinu_test_add_extended context suite name wrappers wrapper destroy

-- The functions of a test are the wrappers of a class, with a method in its user data.
pub record IsWrapping (code : ℕ → ℕ → List Action) (case : TestCase) (class_ : TestClass)
    (method : Method) : Type 0 where
  pub setup : (case.setup == 0) ≡ false
  pub test : (case.test == 0) ≡ false
  pub cleanup : (case.cleanup == 0) ≡ false
  pub constructs : code case.setup case.user_data ≡ test_setup_wrapper class_
  pub runs : code case.test case.user_data ≡ test_wrapper method
  pub destructs : code case.cleanup case.user_data ≡ test_cleanup_wrapper class_

abbrev or_signal : Option Signal → Option Signal → Option Signal
or_signal none s = s
or_signal (some s) t = some s

-- A method's first signal, where an exception that is not caught counts as SIGABRT.
abbrev pub signal_of : Method → Option Signal
signal_of m = or_signal (first_signal m.acts) (if throws m.ending then some sigabrt else none)

-- The result of a test that is a method of a class.
abbrev pub method_result : TestClass → Method → TestCaseResult
method_result class_ method =
    elim (or_signal (signal_of class_.construct)
      (or_signal (first_signal method.acts) (signal_of class_.destruct))) [
        | some sigabrt ↦ test_abort
        | some sigsegv ↦ test_segfault
        | none ↦
            if fails class_.construct.acts
              || ((throws method.ending || fails method.acts) || fails class_.destruct.acts)
            then test_failed
            else test_passed
      ]

first_signal-append :
    (a b : List Action) → first_signal (a ++ b) ≡ or_signal (first_signal a) (first_signal b)
unfolding first_signal
first_signal-append [] b = refl
first_signal-append (assertion c ∷ a) b = first_signal-append a b
first_signal-append (raise s ∷ a) b = refl

fails-append : (a b : List Action) → fails (a ++ b) ≡ (fails a || fails b)
unfolding fails
fails-append [] b = refl
fails-append (assertion true ∷ a) b = fails-append a b
fails-append (assertion false ∷ a) b = refl
fails-append (raise s ∷ a) b = fails-append a b

first_signal-unguarded : (m : Method) → first_signal (unguarded m) ≡ signal_of m
unfolding unguarded first_signal throws
first_signal-unguarded m =
    first_signal-append m.acts (if throws m.ending then raise sigabrt ∷ [] else [])
    ∙ ap (or_signal (first_signal m.acts)) (ground arith)

fails-unguarded : (m : Method) → fails (unguarded m) ≡ fails m.acts
unfolding unguarded fails throws
fails-unguarded m =
    fails-append m.acts (if throws m.ending then raise sigabrt ∷ [] else []) ∙ ground arith

first_signal-test_wrapper : (m : Method) → first_signal (test_wrapper m) ≡ first_signal m.acts
unfolding test_wrapper first_signal throws
first_signal-test_wrapper m =
    first_signal-append m.acts (if throws m.ending then assertion false ∷ [] else []) ∙ ground arith

fails-test_wrapper : (m : Method) → fails (test_wrapper m) ≡ (throws m.ending || fails m.acts)
unfolding test_wrapper fails throws
fails-test_wrapper m =
    fails-append m.acts (if throws m.ending then assertion false ∷ [] else []) ∙ ground arith

-- What the three functions of a test do, where none of them is NULL.
actions_lem :
    (code : ℕ → ℕ → List Action) (case : TestCase) (class_ : TestClass) (method : Method)
    → IsWrapping code case class_ method
    → actions code case
      ≡ unguarded class_.construct ++ (test_wrapper method ++ unguarded class_.destruct)
unfolding test_setup_wrapper test_cleanup_wrapper
actions_lem code case class_ method h =
    simp (h.setup, h.test, h.cleanup, h.constructs, h.runs, h.destructs)

verdict_lem :
    (acts : List Action) (s : Option Signal) (b : Bool)
    → first_signal acts ≡ s
    → fails acts ≡ b
    → verdict acts ≡ elim s [
      | some sigabrt ↦ test_abort
      | some sigsegv ↦ test_segfault
      | none ↦ if b then test_failed else test_passed
    ]
unfolding verdict_from
verdict_lem acts s b e f =
    ap₂
      (λ s b. elim s [
        | some sigabrt ↦ test_abort
        | some sigsegv ↦ test_segfault
        | none ↦ if b then test_failed else test_passed
      ])
      e f

case_result-method_result :
    (code : ℕ → ℕ → List Action) (leaked : CasePtr → ℕ) (leakwatch : Bool) (case : TestCase)
    (class_ : TestClass) (method : Method)
    → IsWrapping code case class_ method
    → case_result code leaked true leakwatch case ≡ method_result class_ method
unfolding case_result
case_result-method_result code leaked leakwatch case class_ method h =
    let rest = test_wrapper method ++ unguarded class_.destruct in
    ap verdict (actions_lem code case class_ method h)
    ∙ verdict_lem (unguarded class_.construct ++ rest) _ _
        (first_signal-append (unguarded class_.construct) rest
          ∙ ap₂ or_signal (first_signal-unguarded class_.construct) (
              first_signal-append (test_wrapper method) (unguarded class_.destruct)
              ∙ ap₂ or_signal (first_signal-test_wrapper method)
                  (first_signal-unguarded class_.destruct)))
        (fails-append (unguarded class_.construct) rest
          ∙ ap₂ ◌||◌ (fails-unguarded class_.construct) (
              fails-append (test_wrapper method) (unguarded class_.destruct)
              ∙ ap₂ ◌||◌ (fails-test_wrapper method) (fails-unguarded class_.destruct)))

-- For a test that is a method of a C++ class, whose constructor, method and destructor come to
-- their ends, the runner returns with the result of the first signal in the three in turn, where an
-- exception that leaves the constructor or the destructor counts as SIGABRT; without one the test
-- failed if an assertion of the three does or an exception leaves the method, and passed otherwise.
-- This is for functions that are the wrappers, none of them NULL, where signals are handled and the
-- switch to the context of the case succeeds.
pub single_test-method_result :
    {W : Type 0} (code : ℕ → ℕ → List Action) (leaked : CasePtr → ℕ) (self : TestContext W)
    (case : TestCase) (class_ : TestClass) (method : Method) (ptr : CasePtr) (w : W)
    → IsWrapping code case class_ method
    → self.sighandle ≡ true
    → (w' : W) × (test_case_run_single_test code leaked true self ptr case w
        ≡ ok (w', method_result class_ method))
single_test-method_result code leaked self case class_ method ptr w h on = (
  feed self (case_events code leaked true self.leakwatch ptr case) w,
  single_test-verdict code leaked true self.leakwatch self ptr case w on refl
      ∙ ap (λ r. ok (feed self (case_events code leaked true self.leakwatch ptr case) w, r))
          (case_result-method_result code leaked self.leakwatch case class_ method h),
)
