-- ===== src/Runner/Labels.antt =====
-- The names of results and hooks (lib/test.c).
use tinu.Prelude.{
  ◌≡◌, refl, ◌&&◌, Option, none, some, [], ◌∷◌, ℤ, pos, negsuc, int_leb, int_ltb, Str, bytes,
  length, Outcome, ok, abort, assert_that, ◌>>◌, strn_eq,
}
use mathlib.Core.Option
use tinu.Names.{NameTable, entry, tinu_lookup_key, tinu_lookup_name}
use tinu.Runner.{
  TestCaseResult, test_none, test_passed, test_failed, test_abort, test_segfault, test_internal,
  TestHookId, hook_assert, hook_signal_abort, hook_signal_segfault, hook_before_test,
  hook_after_test, hook_before_suite, hook_after_suite, hook_leakinfo,
}

-- The numbers of the enumerations.
unfoldable pub result_number : TestCaseResult → ℤ
result_number test_none = negsuc 0
result_number test_passed = pos 0
result_number test_failed = pos 1
result_number test_abort = pos 2
result_number test_segfault = pos 3
result_number test_internal = pos 4

unfoldable pub hook_number : TestHookId → ℤ
hook_number hook_assert = pos 0
hook_number hook_signal_abort = pos 1
hook_number hook_signal_segfault = pos 2
hook_number hook_before_test = pos 3
hook_number hook_after_test = pos 4
hook_number hook_before_suite = pos 5
hook_number hook_after_suite = pos 6
hook_number hook_leakinfo = pos 7

unfoldable pub test_case_result_names : NameTable
test_case_result_names =
    entry (negsuc 0) (bytes "none") 4
    ∷ entry (pos 0) (bytes "passed") 6
    ∷ entry (pos 1) (bytes "failed") 6
    ∷ entry (pos 2) (bytes "abort") 5
    ∷ entry (pos 3) (bytes "segfault") 8
    ∷ entry (pos 4) (bytes "internal") 8
    ∷ []

-- TEST_HOOK_MAX is 8 and TEST_HOOK_ALL is 0xFFFF.
unfoldable pub test_hook_id_names : NameTable
test_hook_id_names =
    entry (pos 0) (bytes "TEST_HOOK_ASSERT") 16
    ∷ entry (pos 1) (bytes "TEST_HOOK_SIGNAL_ABORT") 22
    ∷ entry (pos 2) (bytes "TEST_HOOK_SIGNAL_SEGFAULT") 25
    ∷ entry (pos 3) (bytes "TEST_HOOK_BEFORE_TEST") 21
    ∷ entry (pos 4) (bytes "TEST_HOOK_AFTER_TEST") 20
    ∷ entry (pos 5) (bytes "TEST_HOOK_BEFORE_SUITE") 22
    ∷ entry (pos 6) (bytes "TEST_HOOK_AFTER_SUITE") 21
    ∷ entry (pos 8) (bytes "TEST_HOOK_MAX") 13
    ∷ entry (pos 65535) (bytes "TEST_HOOK_ALL") 13
    ∷ []

unfoldable pub test_result_name : ℤ → Outcome (Option Str)
unfolding test_case_result_names
test_result_name result = do
  assert_that (int_ltb (negsuc 0) result && int_leb result (pos 4))
  ok (Option.map (λ r. r.0) (tinu_lookup_key test_case_result_names result))

-- What the name of a result must come to.
abbrev pub Named : TestCaseResult → Type 0
Named r =
    (name : Str) × (test_result_name (result_number r) ≡ ok (some name))
    × ((errkey : ℤ)
        → tinu_lookup_name test_case_result_names name (negsuc 0) errkey ≡ result_number r)

abbrev pub NamedOrAborts : TestCaseResult → Type 0
NamedOrAborts test_none = test_result_name (result_number test_none) ≡ abort
NamedOrAborts r = Named r

-- `test_result_name` gives every result but TEST_NONE a name that leads back to it, whatever the
-- error key; on TEST_NONE it aborts.
pub result_round_trip : (r : TestCaseResult) → NamedOrAborts r
unfolding test_result_name tinu_lookup_key tinu_lookup_name strn_eq test_case_result_names
    result_number
result_round_trip test_none = refl
result_round_trip test_passed = (bytes "passed", refl, λ errkey. refl)
result_round_trip test_failed = (bytes "failed", refl, λ errkey. refl)
result_round_trip test_abort = (bytes "abort", refl, λ errkey. refl)
result_round_trip test_segfault = (bytes "segfault", refl, λ errkey. refl)
result_round_trip test_internal = (bytes "internal", refl, λ errkey. refl)

-- What the name of a hook must come to, with its length.
abbrev pub HasLabel : TestHookId → Type 0
HasLabel id =
    (name : Str) × (tinu_lookup_key test_hook_id_names (hook_number id) ≡ some (name, length name))
    × ((errkey : ℤ) → tinu_lookup_name test_hook_id_names name (negsuc 0) errkey ≡ hook_number id)

abbrev pub HasLabelOrNone : TestHookId → Type 0
HasLabelOrNone hook_leakinfo = tinu_lookup_key test_hook_id_names (hook_number hook_leakinfo) ≡ none
HasLabelOrNone id = HasLabel id

-- Every hook but TEST_HOOK_LEAKINFO has a name that leads back to it; TEST_HOOK_LEAKINFO has none.
pub hook_round_trip : (id : TestHookId) → HasLabelOrNone id
unfolding tinu_lookup_key tinu_lookup_name strn_eq test_hook_id_names hook_number
hook_round_trip hook_assert = (bytes "TEST_HOOK_ASSERT", refl, λ errkey. refl)
hook_round_trip hook_signal_abort = (bytes "TEST_HOOK_SIGNAL_ABORT", refl, λ errkey. refl)
hook_round_trip hook_signal_segfault = (bytes "TEST_HOOK_SIGNAL_SEGFAULT", refl, λ errkey. refl)
hook_round_trip hook_before_test = (bytes "TEST_HOOK_BEFORE_TEST", refl, λ errkey. refl)
hook_round_trip hook_after_test = (bytes "TEST_HOOK_AFTER_TEST", refl, λ errkey. refl)
hook_round_trip hook_before_suite = (bytes "TEST_HOOK_BEFORE_SUITE", refl, λ errkey. refl)
hook_round_trip hook_after_suite = (bytes "TEST_HOOK_AFTER_SUITE", refl, λ errkey. refl)
hook_round_trip hook_leakinfo = refl
