-- ===== src/Tests/Cxx.antt =====
-- The C++ interface, and tests that are added twice.
use tinu.Prelude.{
  ℕ, ◌≡◌, refl, true, false, none, some, List, [], ◌∷◌, str_eq, bytes, pos, ok, arith, zero, suc,
}
use tinu.Message.{MessageTag}
use tinu.Message.Tags.{HasTags, erase_first}
use tinu.Suites.{TestCase, Suites, TestFunctions, test_validate_name}
use tinu.Suites.Finding.{find_case}
use tinu.Runner.{Action, assertion, test_failed, TestContext, test_case_run_single_test}
use tinu.Runner.Trace.{actions, first_signal, fails}
use tinu.Runner.Simple.{Wrappers, test_add, at_address, wrapped_code}
use tinu.Runner.Adding.{IsLoaded, simple_actions, test_add-actions}
use tinu.Leaks.{malloc, realloc, free}
use tinu.Backtrace.{Backtrace}
use tinu.CxxWrap.Traces.{Entry}
use tinu.CxxWrap.Tags.{CxxMessage, find, index, add_tag_raw, remove_tag, last_of, IsWrapped}
use tinu.CxxWrap.Wrapped.{add_tag_raw-IsWrapped, remove_tag-index}
use tinu.CxxWrap.Watches.{
  notify_alloc, notify_realloc, notify_free, alert_objects, alert_objects-told,
}
use tinu.CxxWrap.Cases.{
  Method, returned, tinu_exception, TestClass, IsWrapping, throws, test_wrapper, test_setup_wrapper,
  test_cleanup_wrapper, single_test-method_result,
}

abbrev colour : MessageTag
colour = record { tag = bytes "colour"; value = bytes "red" }

abbrev size : MessageTag
size = record { tag = bytes "size"; value = bytes "3" }

-- A message with one tag, whose name is at 100 and whose value is at 101.
abbrev message : CxxMessage
message = record {
  obj = record { priority = pos 3; message = bytes "m"; tag_count = 1; tags = some colour ∷ [] };
  pointers = (100, 101) ∷ [];
  wrapper = (100, 101) ∷ [];
}

message-HasTags : HasTags message.obj (colour ∷ [])
message-HasTags = record { count = refl; slots = refl }

message-IsWrapped : IsWrapped message
message-IsWrapped = record { slots = refl; agrees = λ k. unfold find last_of in ground arith }

add_tag_raw-IsWrapped_example :
    (self' : CxxMessage) × (add_tag_raw 8 message size (200, 201) ≡ ok self')
    × IsWrapped self'
    × HasTags self'.obj (colour ∷ size ∷ [])
add_tag_raw-IsWrapped_example =
    add_tag_raw-IsWrapped 8 message size (200, 201) message-IsWrapped message-HasTags refl refl

-- The text "colour" at 300.
remove_tag-index_example :
    ((index message 300).0 ≡ 0)
    × (remove_tag 8 message 300 (bytes "colour") ≡ ok message)
    × (self' : CxxMessage) × (remove_tag 8 (index message 300).1 300 (bytes "colour") ≡ ok self')
    × HasTags self'.obj (erase_first (bytes "colour") (colour ∷ []))
remove_tag-index_example =
    remove_tag-index 8 message 300 (bytes "colour") message-IsWrapped message-HasTags refl
      (unfold last_of in refl)

abbrev trace : Backtrace
trace = record { refcnt = 1; length_ = 1; symbols = 5 ∷ [] }

alert_objects-told_example :
    (alert_objects (7 ∷ 9 ∷ []) (malloc 96 8) (some trace)
      ≡ ok ((7, notify_alloc 96 8) ∷ (9, notify_alloc 96 8) ∷ [], none))
    × (alert_objects (7 ∷ 9 ∷ []) (realloc 64 96 8) (some trace)
        ≡ ok ((7, notify_realloc 64 96 8) ∷ (9, notify_realloc 64 96 8) ∷ [], none))
    × (alert_objects (7 ∷ 9 ∷ []) (free 64) (some trace)
        ≡ ok ((7, notify_free 0) ∷ (9, notify_free 0) ∷ [], none))
alert_objects-told_example = alert_objects-told (7 ∷ 9 ∷ []) trace 64 96 8 refl

-- The first frame, with a symbol of no name.
abbrev first_entry : Entry
first_entry = record {
  function = none;
  source = bytes "(unknown)";
  line = 0;
  obj = some (record { ptr = 5; offset = 5; function = bytes "<unknown>"; file = none });
}

-- A method that throws, on a class whose constructor and destructor do nothing to see.
abbrev quiet : Method
quiet = record { acts = []; ending = returned }

abbrev throwing : Method
throwing = record { acts = assertion true ∷ []; ending = tinu_exception (bytes "no") }

abbrev class_ : TestClass
class_ = record { construct = quiet; destruct = quiet }

abbrev case : TestCase
case = record {
  suite = 0;
  name = bytes "throws";
  setup = 1;
  cleanup = 2;
  test = 3;
  user_data = 50;
  user_data_cleanup = 4;
}

abbrev code : ℕ → ℕ → List Action
code (suc zero) user_data = []
code (suc (suc zero)) user_data = []
code _ user_data = assertion true ∷ assertion false ∷ []

case-IsWrapping : IsWrapping code case class_ throwing
case-IsWrapping = record {
  setup = refl;
  test = refl;
  cleanup = refl;
  constructs = unfold test_setup_wrapper in refl;
  runs = unfold test_wrapper in refl;
  destructs = unfold test_cleanup_wrapper in refl;
}

-- A context that notes nothing, with its handler for signals on.
abbrev context : TestContext (List ℕ)
context = record { suites = []; sighandle = true; leakwatch = false; hooks = λ id. [] }

single_test-method_result_example :
    (w' : List ℕ) × (test_case_run_single_test code
        (λ p. 0)
        true
        context
        (record { suite = 0; case = 0 })
        case
        []
      ≡ ok (w', test_failed))
unfolding first_signal fails throws
single_test-method_result_example =
    single_test-method_result code (λ p. 0) context case class_ throwing
      (record { suite = 0; case = 0 }) [] case-IsWrapping refl

abbrev wrappers : Wrappers
wrappers = record { setup = 1; cleanup = 2; test = 3 }

abbrev simple : ℕ → List Action
simple (suc (suc zero)) = assertion false ∷ []
simple _ = assertion true ∷ []

abbrev functions_of : ℕ → TestFunctions
functions_of function = record { setup = 0; cleanup = 0; test = function }

abbrev before : Suites
before =
    record {
      name = bytes "list";
      tests =
          record {
            suite = 0;
            name = bytes "append";
            setup = 1;
            cleanup = 2;
            test = 3;
            user_data = 600;
            user_data_cleanup = 9;
          }
          ∷ [];
    }
    ∷ []

wrappers-IsLoaded : IsLoaded wrappers
wrappers-IsLoaded = record {
  setup = refl;
  cleanup = refl;
  test = refl;
  setup_cleanup = refl;
  setup_test = refl;
  cleanup_test = refl;
}

-- The test is added again with function 1: it still runs function 2.
test_add-actions_example :
    (suites' : Suites) × (test_add wrappers 9 700 before
        ((600, functions_of 2) ∷ [])
        (bytes "list")
        (bytes "append")
        (functions_of 1)
      ≡ ok (suites', (700, functions_of 1) ∷ (600, functions_of 2) ∷ []))
    × (c : TestCase) × (find_case suites' (bytes "list") (bytes "append") ≡ some c)
    × (actions
          (wrapped_code wrappers
            ((700, functions_of 1) ∷ (600, functions_of 2) ∷ [])
            simple
            (λ f u. []))
          c
        ≡ simple_actions simple (functions_of 2))
test_add-actions_example =
    test_add-actions wrappers wrappers-IsLoaded simple (λ f u. []) 9 700 before
      ((600, functions_of 2) ∷ []) (bytes "list") (bytes "append") (functions_of 1) (functions_of 2)
      (unfold test_validate_name in refl) (unfold test_validate_name in refl)
      (unfold at_address find_case str_eq in refl)
