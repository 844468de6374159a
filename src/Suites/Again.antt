-- ===== src/Suites/Again.antt =====
-- Adding a test a second time (lib/test.c): what stays of the first.
use tinu.Prelude.{
  ℕ, suc, ◌≡◌, true, ◌&&◌, Option, none, some, List, [], ◌∷◌, Str, str_eq, str_eq_iff,
  if◌then◌else◌, arith, Bool-cases, inl, inr, ok,
}
use mathlib.Core.Option
use tinu.Suites.{
  TestCase, Suites, TestFunctions, test_validate_name, replace_functions, add_to_suite,
  test_add_extended,
}
use tinu.Suites.Adding.{change_suite, test_add_extended-change_suite}
use tinu.Suites.Finding.{find_in, find_case, put_case, new_case, add_to_suite-put_case}

-- The user data of a case, with its cleanup.
abbrev pub owned : TestCase → ℕ × ℕ
owned c = (c.user_data, c.user_data_cleanup)

abbrev pub or_else : {A : Type 0} → Option A → A → A
or_else none a = a
or_else (some b) a = b

module _ (test_name : Str) (f : TestFunctions) (user_data user_data_cleanup : ℕ) where
  abbrev kept : Option TestCase → ℕ × ℕ
  kept before = or_else (Option.map owned before) (user_data, user_data_cleanup)

  find_in-owned :
      (i : ℕ) (cs : List TestCase) (t : Str)
      → Option.map owned (
          find_in
            (put_case test_name f user_data user_data_cleanup
              (new_case test_name f user_data user_data_cleanup i)
              cs)
            t)
        ≡ (if str_eq test_name t
            then some (kept (find_in cs test_name))
            else Option.map owned (find_in cs t))
  unfolding find_in put_case replace_functions
  find_in-owned i [] t = elim (Bool-cases (str_eq test_name t)) [
    | inl hit ↦ rw hit
    | inr miss ↦ rw miss
  ]
  find_in-owned i (c ∷ cs) t = elim (Bool-cases (str_eq c.name test_name)) [
    | inl hit ↦ ground (arith, hit, str_eq_iff c.name test_name)
    | inr miss ↦ ground (
      arith,
      miss,
      str_eq_iff c.name test_name,
      str_eq_iff c.name t,
      str_eq_iff test_name t,
      find_in-owned i cs t,
    )
  ]

  find_case-owned :
      (suite_name : Str) (i : ℕ) (ss : Suites) (s t : Str)
      → Option.map owned (
          find_case
            (change_suite suite_name
              (λ i suite. add_to_suite i suite test_name f user_data user_data_cleanup)
              i
              ss)
            s
            t)
        ≡ (if str_eq suite_name s && str_eq test_name t
            then some (kept (find_case ss suite_name test_name))
            else Option.map owned (find_case ss s t))
  unfolding find_case change_suite
  find_case-owned suite_name i [] s t = ground (
    arith,
    add_to_suite-put_case test_name f user_data user_data_cleanup i
        (record { name = suite_name; tests = [] }),
    find_in-owned i [] t,
    find_in,
  )
  find_case-owned suite_name i (suite ∷ ss) s t = elim (Bool-cases (str_eq suite.name suite_name)) [
    | inl hit ↦ ground (
      arith,
      hit,
      str_eq_iff suite.name suite_name,
      add_to_suite-put_case test_name f user_data user_data_cleanup i suite,
      find_in-owned i suite.tests t,
    )
    | inr miss ↦ ground (
      arith,
      miss,
      str_eq_iff suite.name suite_name,
      str_eq_iff suite.name s,
      str_eq_iff suite_name s,
      find_case-owned suite_name (suc i) ss s t,
    )
  ]

-- A test that is added under valid names has its own user data and its cleanup if the name was
-- new, and those of the first test of the name otherwise; every other name keeps its own.
pub test_add_extended-owned :
    (suites : Suites) (suite_name test_name : Str) (f : TestFunctions)
    (user_data user_data_cleanup : ℕ)
    → test_validate_name suite_name ≡ true
    → test_validate_name test_name ≡ true
    → (suites' : Suites) × (test_add_extended suites suite_name test_name f user_data
          user_data_cleanup
        ≡ ok suites')
      × ((s t : Str)
          → Option.map owned (find_case suites' s t) ≡ (
              if str_eq suite_name s && str_eq test_name t
              then some (
                  or_else
                    (Option.map owned (find_case suites suite_name test_name))
                    (user_data, user_data_cleanup))
              else Option.map owned (find_case suites s t)))
test_add_extended-owned suites suite_name test_name f user_data user_data_cleanup good good' = (
  change_suite suite_name (λ i s. add_to_suite i s test_name f user_data user_data_cleanup) 0
      suites,
  ground (
    arith,
    good,
    good',
    test_add_extended-change_suite suites suite_name test_name f user_data user_data_cleanup,
  ),
  find_case-owned test_name f user_data user_data_cleanup suite_name 0 suites,
)
