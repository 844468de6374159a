-- ===== src/Suites/Finding.antt =====
-- Adding a test to a context: what can be found in it afterwards.
use tinu.Prelude.{
  ℕ, suc, ◌≡◌, refl, ap, ap₂, sym, ◌∙◌, true, ◌&&◌, Option, none, some, List, [], ◌∷◌, ◌++◌, Str,
  str_eq, str_eq_iff, length, get_elem?, set, if◌then◌else◌, arith, Bool-cases, inl, inr, ok,
  length-append, get_elem?-append, set-append,
}
use mathlib.Core.Option
use mathlib.Core.List.{append_assoc, append-nil}
use tinu.Suites.{
  TestCase, TestSuite, Suites, TestFunctions, test_validate_name, case_from, test_lookup_case,
  replace_functions, add_to_suite, test_add_extended,
}
use tinu.Suites.Adding.{change_suite, test_add_extended-change_suite}

-- The first case of the name.
unfoldable pub find_in : List TestCase → Str → Option TestCase
find_in [] name = none
find_in (c ∷ cs) name = if str_eq c.name name then some c else find_in cs name

-- The first case of the name in the first suite of the name.
unfoldable pub find_case : Suites → Str → Str → Option TestCase
unfolding find_in
find_case [] suite_name test_name = none
find_case (s ∷ ss) suite_name test_name =
    if str_eq s.name suite_name
    then find_in s.tests test_name
    else find_case ss suite_name test_name

abbrev pub functions : TestCase → TestFunctions
functions c = record { setup = c.setup; cleanup = c.cleanup; test = c.test }

module _ (test_name : Str) (f : TestFunctions) (user_data user_data_cleanup : ℕ) where
  abbrev pub new_case : ℕ → TestCase
  new_case i = record {
    suite = i;
    name = test_name;
    setup = f.setup;
    cleanup = f.cleanup;
    test = f.test;
    user_data = user_data;
    user_data_cleanup = user_data_cleanup;
  }

  -- The first case of the name gets the functions, or a new case at the end.
  unfoldable pub put_case : TestCase → List TestCase → List TestCase
  put_case new [] = new ∷ []
  put_case new (c ∷ cs) =
      if str_eq c.name test_name then replace_functions f c ∷ cs else c ∷ put_case new cs

  -- What follows the loop of `_test_lookup_case`.
  abbrev finish_case : ℕ → TestSuite → Option ℕ → TestSuite
  finish_case i suite found = elim found [
    | some j ↦ elim (get_elem? suite.tests j) [
      | some c ↦ record suite { tests = set suite.tests j (replace_functions f c) }
      | none ↦ suite
    ]
    | none ↦ record suite { tests = suite.tests ++ new_case i ∷ [] }
  ]

  found_case :
      (i : ℕ) (suite : TestSuite) (j : ℕ) (c : TestCase)
      → get_elem? suite.tests j ≡ some c
      → finish_case i suite (some j)
        ≡ record suite { tests = set suite.tests j (replace_functions f c) }
  found_case i suite j c e =
      ap
        (λ o. elim o [
          | some c ↦ record suite { tests = set suite.tests j (replace_functions f c) }
          | none ↦ suite
        ])
        e

  finish_case-put_case :
      (i : ℕ) (suite : TestSuite) (done cs : List TestCase) (j : ℕ)
      → j ≡ length done
      → suite.tests ≡ done ++ cs
      → finish_case i suite (case_from cs j test_name)
        ≡ record suite { tests = done ++ put_case (new_case i) cs }
  unfolding case_from put_case
  finish_case-put_case i suite done [] j at same =
      ap (λ ts. record suite { tests = ts ++ new_case i ∷ [] }) (same ∙ append-nil done)
  finish_case-put_case i suite done (c ∷ cs) j at same =
      elim (Bool-cases (str_eq c.name test_name)) [
        | inl hit ↦ rw hit (
            found_case i suite j c (ap₂ get_elem? same at ∙ get_elem?-append done c cs)
            ∙ ap (λ ts. record suite { tests = ts })
                (ap₂ (λ ts k. set ts k (replace_functions f c)) same at
                  ∙ set-append done c (replace_functions f c) cs))
        | inr miss ↦ rw miss (
            finish_case-put_case i suite (done ++ c ∷ []) cs (suc j)
              (omega (arith, at, length-append done (c ∷ [])))
              (same ∙ sym (append_assoc done (c ∷ []) cs))
            ∙ ap (λ ts. record suite { tests = ts })
                (append_assoc done (c ∷ []) (put_case (new_case i) cs)))
      ]

  pub add_to_suite-put_case :
      (i : ℕ) (suite : TestSuite)
      → add_to_suite i suite test_name f user_data user_data_cleanup
        ≡ record suite { tests = put_case (new_case i) suite.tests }
  unfolding add_to_suite test_lookup_case
  add_to_suite-put_case i suite = finish_case-put_case i suite [] suite.tests 0 refl refl

  find_in-put_case :
      (i : ℕ) (cs : List TestCase) (t : Str)
      → Option.map functions (find_in (put_case (new_case i) cs) t)
        ≡ (if str_eq test_name t then some f else Option.map functions (find_in cs t))
  unfolding find_in put_case replace_functions
  find_in-put_case i [] t = elim (Bool-cases (str_eq test_name t)) [
    | inl hit ↦ rw hit
    | inr miss ↦ rw miss
  ]
  find_in-put_case i (c ∷ cs) t = elim (Bool-cases (str_eq c.name test_name)) [
    | inl hit ↦ ground (arith, hit, str_eq_iff c.name test_name)
    | inr miss ↦ ground (
      arith,
      miss,
      str_eq_iff c.name test_name,
      str_eq_iff c.name t,
      str_eq_iff test_name t,
      find_in-put_case i cs t,
    )
  ]

  find_case-change_suite :
      (suite_name : Str) (i : ℕ) (ss : Suites) (s t : Str)
      → Option.map functions (
          find_case
            (change_suite suite_name
              (λ i suite. add_to_suite i suite test_name f user_data user_data_cleanup)
              i
              ss)
            s
            t)
        ≡ (if str_eq suite_name s && str_eq test_name t
            then some f
            else Option.map functions (find_case ss s t))
  unfolding find_case change_suite
  find_case-change_suite suite_name i [] s t = ground (
    arith,
    add_to_suite-put_case i (record { name = suite_name; tests = [] }),
    find_in-put_case i [] t,
  )
  find_case-change_suite suite_name i (suite ∷ ss) s t =
      elim (Bool-cases (str_eq suite.name suite_name)) [
        | inl hit ↦ ground (
          arith,
          hit,
          str_eq_iff suite.name suite_name,
          add_to_suite-put_case i suite,
          find_in-put_case i suite.tests t,
        )
        | inr miss ↦ ground (
          arith,
          miss,
          str_eq_iff suite.name suite_name,
          str_eq_iff suite.name s,
          str_eq_iff suite_name s,
          find_case-change_suite suite_name (suc i) ss s t,
        )
      ]

-- A test that is added under valid names is found with its new functions afterwards, and every
-- other name finds what it found before, whatever the context was.
pub test_add_extended-find_case :
    (suites : Suites) (suite_name test_name : Str) (f : TestFunctions)
    (user_data user_data_cleanup : ℕ)
    → test_validate_name suite_name ≡ true
    → test_validate_name test_name ≡ true
    → (suites' : Suites) × (test_add_extended suites suite_name test_name f user_data
          user_data_cleanup
        ≡ ok suites')
      × ((s t : Str)
          → Option.map functions (find_case suites' s t) ≡ (
              if str_eq suite_name s && str_eq test_name t
              then some f
              else Option.map functions (find_case suites s t)))
test_add_extended-find_case suites suite_name test_name f user_data user_data_cleanup good good' = (
  change_suite suite_name (λ i s. add_to_suite i s test_name f user_data user_data_cleanup) 0
      suites,
  ground (
    arith,
    good,
    good',
    test_add_extended-change_suite suites suite_name test_name f user_data user_data_cleanup,
  ),
  find_case-change_suite test_name f user_data user_data_cleanup suite_name 0 suites,
)
