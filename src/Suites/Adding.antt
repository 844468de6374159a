-- ===== src/Suites/Adding.antt =====
-- Adding tests to a context: what can be found in it afterwards.
use tinu.Prelude.{
  ℕ, suc, ◌≡◌, refl, ap, sym, ◌∙◌, Bool, true, ◌&&◌, Option, none, some, [], ◌∷◌, ◌++◌, Str, str_eq,
  length, if◌then◌else◌, arith, Bool-cases, inl, inr, Outcome, ok, abort, length-append,
  get_elem?-append, set-append,
}
use mathlib.Core.List.{append_assoc, append-nil}
use tinu.Suites.{
  TestSuite, Suites, TestFunctions, test_validate_name, suite_from, test_suite_lookup, add_to_suite,
  update_suite, test_add_extended,
}

module _ (name : Str) (change : ℕ → TestSuite → TestSuite) where
  -- The change of the first suite of the name from position `i` on, or of a new one at the end.
  unfoldable pub change_suite : ℕ → Suites → Suites
  change_suite i [] = change i (record { name = name; tests = [] }) ∷ []
  change_suite i (s ∷ ss) =
      if str_eq s.name name then change i s ∷ ss else s ∷ change_suite (suc i) ss

  -- What follows the loop of `_test_suite_lookup`.
  abbrev finish : Suites → Option ℕ × Bool → Outcome Suites
  finish suites r =
      if r.1
      then update_suite suites r.0 change
      else update_suite (suites ++ record { name = name; tests = [] } ∷ []) (some (length suites))
          change

  update_suite-append :
      (done : Suites) (s : TestSuite) (ss : Suites)
      → update_suite (done ++ s ∷ ss) (some (length done)) change
        ≡ ok (done ++ change (length done) s ∷ ss)
  unfolding update_suite
  update_suite-append done s ss =
      rw (update_suite, get_elem?-append done s ss, set-append done s (change (length done) s) ss)
        refl

  finish-change_suite :
      (done ss : Suites) (i : ℕ) (suites : Suites) (res : Option ℕ)
      → i ≡ length done
      → suites ≡ done ++ ss
      → finish suites (suite_from ss i name res) ≡ ok (done ++ change_suite i ss)
  unfolding suite_from change_suite
  finish-change_suite done [] i suites res at same =
      rw (same, at, append-nil done) (update_suite-append done _ [])
  finish-change_suite done (s ∷ ss) i suites res at same = elim (Bool-cases (str_eq s.name name)) [
    | inl hit ↦ rw (same, at, hit) (update_suite-append done s ss)
    | inr miss ↦ rw miss (
        finish-change_suite (done ++ s ∷ []) ss (suc i) suites (some i)
          (omega (arith, at, length-append done (s ∷ [])))
          (same ∙ sym (append_assoc done (s ∷ []) ss))
        ∙ ap ok (append_assoc done (s ∷ []) (change_suite (suc i) ss)))
  ]

  lookup-finish :
      (suites : Suites)
      → update_suite
          (test_suite_lookup suites name true).0
          (test_suite_lookup suites name true).1
          change
        ≡ finish suites (suite_from suites 0 name none)
  unfolding test_suite_lookup
  lookup-finish suites = elim (Bool-cases (suite_from suites 0 name none).1) [
    | inl found ↦ simp found
    | inr made ↦ simp made
  ]

-- Adding a test makes the suite of the name, if there is none, at the end of the context, and
-- changes the first suite of the name otherwise; a name with a `.` or a `=` is refused.
pub test_add_extended-change_suite :
    (suites : Suites) (suite_name test_name : Str) (f : TestFunctions)
    (user_data user_data_cleanup : ℕ)
    → test_add_extended suites suite_name test_name f user_data user_data_cleanup ≡ (
        if test_validate_name suite_name && test_validate_name test_name
        then ok (
            change_suite suite_name
              (λ i s. add_to_suite i s test_name f user_data user_data_cleanup)
              0
              suites)
        else abort)
unfolding test_add_extended test_suite_lookup
test_add_extended-change_suite suites suite_name test_name f user_data user_data_cleanup =
    let change =
      λ (i : ℕ) (s : TestSuite). add_to_suite i s test_name f user_data user_data_cleanup in
    elim (Bool-cases (test_validate_name suite_name)) [
      | inr bad ↦ rw bad
      | inl good ↦ elim (Bool-cases (test_validate_name test_name)) [
        | inr bad ↦ rw (good, bad)
        | inl good' ↦
            rw (good, good')
              (lookup-finish suite_name change suites
                ∙ finish-change_suite suite_name change [] suites 0 suites none refl refl)
      ]
    ]
