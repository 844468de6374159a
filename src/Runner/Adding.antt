-- ===== src/Runner/Adding.antt =====
-- What a test runs that `test_add` (lib/test.c) adds, for the first time or again.
use tinu.Prelude.{
  ℕ, ◌≡◌, refl, ap, sym, ◌∙◌, true, false, ◌&&◌, Option, none, some, List, ◌∷◌, ◌++◌, Str, str_eq,
  str_eq_refl, ◌==◌, ==_iff, Outcome, ok, bind_cong,
}
use mathlib.Core.Option
use tinu.Suites.{TestCase, Suites, TestFunctions, test_validate_name}
use tinu.Suites.Finding.{find_case, functions, test_add_extended-find_case}
use tinu.Suites.Again.{owned, or_else, test_add_extended-owned}
use tinu.Runner.{Action}
use tinu.Runner.Trace.{actions}
use tinu.Runner.Simple.{Wrappers, test_add, at_address, run_simple, wrapped_code}

-- The three functions of the library are at three addresses, none of them NULL.
pub record IsLoaded (w : Wrappers) : Type 0 where
  pub setup : (w.setup == 0) ≡ false
  pub cleanup : (w.cleanup == 0) ≡ false
  pub test : (w.test == 0) ≡ false
  pub setup_cleanup : (w.cleanup == w.setup) ≡ false
  pub setup_test : (w.test == w.setup) ≡ false
  pub cleanup_test : (w.test == w.cleanup) ≡ false

-- What three simple functions do in turn.
abbrev pub simple_actions : (ℕ → List Action) → TestFunctions → List Action
simple_actions simple f =
    run_simple simple f.setup ++ (run_simple simple f.test ++ run_simple simple f.cleanup)

module _ (wrappers : Wrappers) (loaded : IsLoaded wrappers) (simple : ℕ → List Action)
    (other : ℕ → ℕ → List Action) where
  same_number : (n : ℕ) → (n == n) ≡ true
  same_number n = (==_iff n n).1 refl

  module _ (heap : List (ℕ × TestFunctions)) (u : ℕ) (fs : TestFunctions)
      (block : at_address heap u ≡ some fs) where
    abbrev code : ℕ → List Action
    code function = wrapped_code wrappers heap simple other function u

    code-setup : code wrappers.setup ≡ run_simple simple fs.setup
    unfolding wrapped_code
    code-setup = rw (wrapped_code, block, same_number wrappers.setup) refl

    code-cleanup : code wrappers.cleanup ≡ run_simple simple fs.cleanup
    unfolding wrapped_code
    code-cleanup = rw (wrapped_code, block, loaded.setup_cleanup, same_number wrappers.cleanup) refl

    code-test : code wrappers.test ≡ run_simple simple fs.test
    unfolding wrapped_code
    code-test =
        rw (wrapped_code, block, loaded.setup_test, loaded.cleanup_test, same_number wrappers.test)
          refl

  wrapped-actions :
      (heap : List (ℕ × TestFunctions)) (c : TestCase) (fs : TestFunctions)
      → functions c ≡ wrappers
      → at_address heap c.user_data ≡ some fs
      → actions (wrapped_code wrappers heap simple other) c ≡ simple_actions simple fs
  wrapped-actions heap c fs same block =
      let s : c.setup ≡ wrappers.setup = ap (λ (f : TestFunctions). f.setup) same in
      let k : c.cleanup ≡ wrappers.cleanup = ap (λ (f : TestFunctions). f.cleanup) same in
      let t : c.test ≡ wrappers.test = ap (λ (f : TestFunctions). f.test) same in
      simp (
        s,
        k,
        t,
        loaded.setup,
        loaded.cleanup,
        loaded.test,
        code-setup heap c.user_data fs block,
        code-cleanup heap c.user_data fs block,
        code-test heap c.user_data fs block,
      )

  found-actions :
      (heap : List (ℕ × TestFunctions)) (found : Option TestCase) (u : ℕ × ℕ) (fs : TestFunctions)
      → Option.map functions found ≡ some wrappers
      → Option.map owned found ≡ some u
      → at_address heap u.0 ≡ some fs
      → (c : TestCase) × (found ≡ some c)
        × (actions (wrapped_code wrappers heap simple other) c ≡ simple_actions simple fs)
  found-actions heap none u fs same data_ block = cc
  found-actions heap (some c) u fs same data_ block =
      let has : functions c ≡ wrappers = cc in
      let at : c.user_data ≡ u.0 = ap (λ (q : Option (ℕ × ℕ)). (or_else q (0, 0)).0) data_ in
      (c, refl, wrapped-actions heap c fs has (ap (at_address heap) at ∙ block))

  same_suites : {m : Outcome Suites} {a b : Suites} → m ≡ ok a → m ≡ ok b → a ≡ b
  same_suites e f = cc

  -- A test added under valid names, with its block at an address of its own, is found afterwards.
  -- If the name is new it runs the functions that it was added with; if there was a test of the
  -- name, it runs the functions of that first test's block, whatever the new ones are. This holds
  -- for wrappers at three addresses that are not NULL and user data with a block behind it.
  pub test_add-actions :
      (g_free fresh : ℕ) (suites : Suites) (heap : List (ℕ × TestFunctions))
      (suite_name test_name : Str) (new fs : TestFunctions)
      → test_validate_name suite_name ≡ true
      → test_validate_name test_name ≡ true
      → at_address
          ((fresh, new) ∷ heap)
          (or_else (Option.map owned (find_case suites suite_name test_name)) (fresh, g_free)).0
        ≡ some fs
      → (suites' : Suites) × (test_add wrappers g_free fresh suites heap suite_name test_name new
          ≡ ok (suites', (fresh, new) ∷ heap))
        × (c : TestCase) × (find_case suites' suite_name test_name ≡ some c)
        × (actions (wrapped_code wrappers ((fresh, new) ∷ heap) simple other) c
            ≡ simple_actions simple fs)
  unfolding test_add
  test_add-actions g_free fresh suites heap suite_name test_name new fs good good' block =
      let (suites', added, found) =
        test_add_extended-find_case suites suite_name test_name wrappers fresh g_free good good' in
      let (suites'', added', kept) =
        test_add_extended-owned suites suite_name test_name wrappers fresh g_free good good' in
      let same = same_suites added' added in
      let here : (str_eq suite_name suite_name && str_eq test_name test_name) ≡ true =
        rw (str_eq_refl suite_name, str_eq_refl test_name) refl in
      let functions_ : Option.map functions (find_case suites' suite_name test_name)
          ≡ some wrappers =
        found suite_name test_name ∙ rw here refl in
      let data_ : Option.map owned (find_case suites' suite_name test_name)
          ≡ some
              (or_else (Option.map owned (find_case suites suite_name test_name)) (fresh, g_free)) =
        ap (λ ss. Option.map owned (find_case ss suite_name test_name)) (sym same)
        ∙ kept suite_name test_name
        ∙ rw here refl in
      let (c, there, runs) =
        found-actions ((fresh, new) ∷ heap) (find_case suites' suite_name test_name) _ fs functions_
          data_ block in
      (suites', bind_cong added (λ q. refl), c, there, runs)
