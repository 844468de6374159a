-- ===== src/Tests/Contexts.antt =====
-- lib/test.c at a context of two suites.
use tinu.Prelude.{
  true, replicate, ◌+◌, ◌^◌, arith, ◌≡◌, refl, [], ◌∷◌, some, false, ◌&&◌, Str, bytes, ok, abort,
  str_eq, if◌then◌else◌,
}
use mathlib.Core.Option
use tinu.Utils.{t_new, core_file_name, str_eq-core_file_name}
use tinu.Suites.{
  TestSuite, Suites, TestFunctions, test_validate_name, test_suite_lookup, test_add_extended,
}
use tinu.Suites.Lookup.{find_suite, lookup_unknown}
use tinu.Suites.Finding.{find_case, functions, test_add_extended-find_case}

abbrev list_suite : TestSuite
list_suite = record {
  name = bytes "list";
  tests =
      record {
        suite = 0;
        name = bytes "append";
        setup = 0;
        cleanup = 0;
        test = 7;
        user_data = 0;
        user_data_cleanup = 0;
      }
      ∷ [];
}

abbrev suites : Suites
suites = list_suite ∷ record { name = bytes "log"; tests = [] } ∷ []

abbrev added : TestFunctions
added = record { setup = 1; cleanup = 2; test = 3 }

-- A name with a `.` is refused.
dotted_name_refused : test_add_extended suites (bytes "a.b") (bytes "c") added 0 0 ≡ abort
unfolding test_add_extended test_validate_name
dotted_name_refused = refl

test_add_extended-find_case_example :
    (suites' : Suites) × (test_add_extended suites (bytes "log") (bytes "wrap") added 0 0
      ≡ ok suites')
    × ((s t : Str)
        → Option.map functions (find_case suites' s t) ≡ (
            if str_eq (bytes "log") s && str_eq (bytes "wrap") t
            then some added
            else Option.map functions (find_case suites s t)))
unfolding test_validate_name
test_add_extended-find_case_example =
    test_add_extended-find_case suites (bytes "log") (bytes "wrap") added 0 0 refl refl

lookup_unknown_example : test_suite_lookup suites (bytes "message") false ≡ (suites, some 1)
unfolding find_suite str_eq
lookup_unknown_example =
    lookup_unknown list_suite (record { name = bytes "log"; tests = [] } ∷ []) (bytes "message")
      refl

-- Two cases of one suite.
str_eq-core_file_name_example :
    str_eq
      (core_file_name (bytes "/tmp") (bytes "list") (bytes "append"))
      (core_file_name (bytes "/tmp") (bytes "list") (bytes "cut"))
    ≡ false
unfolding str_eq
str_eq-core_file_name_example =
    str_eq-core_file_name (bytes "/tmp") (bytes "list") (bytes "list") (bytes "append")
      (bytes "cut") (unfold test_validate_name in refl) (unfold test_validate_name in refl)
      (omega arith) (omega arith)

-- A count that is too large for 64 bits wraps around to a small block.
wrapped_size : t_new (λ size. true) 8 (2 ^ 61 + 1) ≡ ok (replicate 8 (some 0))
unfolding t_new
wrapped_size = refl
