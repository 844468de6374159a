-- ===== src/Runner/Simple.antt =====
-- Tests without a context argument (lib/test.c): `test_add`, the wrappers that it puts around three
-- functions, and `test_context_destroy`.
use tinu.Prelude.{
  ℕ, Bool, Option, none, some, List, [], ◌∷◌, ◌++◌, Str, ◌==◌, if◌then◌else◌, Outcome, ok, ◌>>=◌,
}
use tinu.Suites.{TestCase, Suites, TestFunctions, test_add_extended}
use tinu.Runner.{Event, Action, TestContext, TestHookId, TestHookEntry}
use tinu.Runner.Hooks.{all_hooks, test_unregister_hook}

-- The functions of `test_add` are the wrappers, at the addresses given.
abbrev pub Wrappers : Type 0
Wrappers = TestFunctions

-- `test_add`; `fresh` is the address of the TestSimplifiedFunctions that it allocates and
-- `g_free` that of GLib's function. The new block is put at the front of the heap.
unfoldable pub test_add :
    Wrappers
    → ℕ
    → ℕ
    → Suites
    → List (ℕ × TestFunctions)
    → Str
    → Str
    → TestFunctions
    → Outcome (Suites × List (ℕ × TestFunctions))
unfolding test_add_extended
test_add wrappers g_free fresh suites heap suite_name test_name functions = do
  suites ← test_add_extended suites suite_name test_name wrappers fresh g_free
  ok (suites, (fresh, functions) ∷ heap)

-- What stands at an address of the heap.
unfoldable pub at_address : List (ℕ × TestFunctions) → ℕ → Option TestFunctions
at_address [] address = none
at_address (block ∷ heap) address =
    if block.0 == address then some block.1 else at_address heap address

-- A function that is `NULL` is not called.
abbrev pub run_simple : (ℕ → List Action) → ℕ → List Action
run_simple simple function = if function == 0 then [] else simple function

-- What the three wrappers do for a test with the user data; `simple` is what a simple function
-- does, and `other` what any other function does for its user data. Where no block stands at the
-- address, nothing is said.
module _ (wrappers : Wrappers) (heap : List (ℕ × TestFunctions)) (simple : ℕ → List Action)
    (other : ℕ → ℕ → List Action) where
  unfoldable pub wrapped_code : ℕ → ℕ → List Action
  unfolding at_address
  wrapped_code function user_data = elim (at_address heap user_data) [
    | none ↦ other function user_data
    | some functions ↦
        if function == wrappers.setup
        then run_simple simple functions.setup
        else if function == wrappers.cleanup
        then run_simple simple functions.cleanup
        else if function == wrappers.test
        then run_simple simple functions.test
        else other function user_data
  ]

-- The calls of `m_user_data_cleanup`, with the function and the user data.
abbrev pub Cleanup : Type 0
Cleanup = ℕ × ℕ

-- The inner loop of `test_context_destroy`.
unfoldable pub destroy_cases : List TestCase → List Cleanup
destroy_cases [] = []
destroy_cases (test ∷ tests) =
    if test.user_data_cleanup == 0
    then destroy_cases tests
    else (test.user_data_cleanup, test.user_data) ∷ destroy_cases tests

unfoldable pub destroy_suites : Suites → List Cleanup
unfolding destroy_cases
destroy_suites [] = []
destroy_suites (suite ∷ suites) = destroy_cases suite.tests ++ destroy_suites suites

-- The loop of `test_unregister_hook` with TEST_HOOK_ALL: the entries that are freed, and the
-- context.
unfoldable pub unregister_all :
    {W : Type 0}
    → ((Event → ℕ → W → W) → (Event → ℕ → W → W) → Bool)
    → List TestHookId
    → TestContext W
    → List (TestHookEntry W) × TestContext W
unfolding test_unregister_hook
unregister_all same [] self = ([], self)
unregister_all same (id ∷ ids) self =
    let (freed, self) = test_unregister_hook same id none 0 self in
    let (others, self) = unregister_all same ids self in (freed ++ others, self)

-- `test_context_destroy`: the calls that it makes, in order, the entries of hooks that it frees and
-- the context behind it.
unfoldable pub test_context_destroy :
    {W : Type 0}
    → ((Event → ℕ → W → W) → (Event → ℕ → W → W) → Bool)
    → TestContext W
    → List Cleanup × (List (TestHookEntry W) × TestContext W)
unfolding destroy_suites unregister_all
test_context_destroy same self =
    (destroy_suites self.suites, unregister_all same all_hooks (record self { suites = [] }))
