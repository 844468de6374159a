-- ===== src/External/Reading.antt =====
-- The file of lib/report-external.c is read back as its entries.
use tinu.Prelude.{
  ℕ, ◌≡◌, refl, ap, ◌^◌, ◌-◌, none, some, List, [], ◌∷◌, ◌++◌, Str, bytes, length, map, get_elem?,
  All, All-append, if◌then◌else◌, show_int32, show_nat, show_nat-AllDigits, AllDigits, arith, ok,
}
use tinu.Suites.{Suites, TestSuite, test_validate_name}
use tinu.Statistics.{StatTestInfo, StatSuiteInfo, TestStatistics}
use tinu.Runner.{
  TestCaseResult, test_none, test_passed, test_failed, test_abort, test_segfault, test_internal,
}
use tinu.External.{put_file}
use tinu.External.Entries.{
  render_all, CaseFits, case_name, case_name_lem, suite_of, suite_of_lem, case_entries,
  cases_entries, suite_entries, suites_entries, message_entries, totals, label, SuiteFits,
  stat_entries,
}
use tinu.External.Written.{put_file-stat_entries}
use tinu.External.Reader.{
  Reader, IsOneLine-cons, read, IsReadable, IsName, IsOneLine, one_line, as_pair, run-render_all,
}

IsOneLine-append : (s t : Str) → IsOneLine s → IsOneLine t → IsOneLine (s ++ t)
unfolding one_line
IsOneLine-append [] t h k = k
IsOneLine-append (c ∷ s) t h k = ground (arith, IsOneLine-cons c s h, IsOneLine-append s t)

AllDigits-IsOneLine : (s : Str) → AllDigits s → IsOneLine s
unfolding one_line
AllDigits-IsOneLine [] h = refl
AllDigits-IsOneLine (c ∷ s) h = ground (arith, AllDigits-IsOneLine s h.1)

show_int32-IsOneLine : (n : ℕ) → IsOneLine (show_int32 n)
unfolding show_int32 one_line
show_int32-IsOneLine n = ground (
  arith,
  AllDigits-IsOneLine (show_nat n) (show_nat-AllDigits n),
  AllDigits-IsOneLine (show_nat (2 ^ 32 - n)) (show_nat-AllDigits (2 ^ 32 - n)),
)

label-IsOneLine : (r : TestCaseResult) → IsOneLine (label r)
unfolding label one_line
label-IsOneLine test_none = refl
label-IsOneLine test_passed = refl
label-IsOneLine test_failed = refl
label-IsOneLine test_abort = refl
label-IsOneLine test_segfault = refl
label-IsOneLine test_internal = refl

message_entries-IsReadable : (messages : List ℕ) → All IsReadable (message_entries messages)
unfolding test_validate_name
message_entries-IsReadable messages =
    let n =
      λ (k : ℕ). show_int32-IsOneLine (elim (get_elem? messages k) [ none ↦ 0 | some n ↦ n ]) in
    (
      (refl, (refl, tt), n 2),
      (
        (refl, (refl, tt), n 3),
        (
          (refl, (refl, tt), n 4),
          ((refl, (refl, tt), n 5), ((refl, (refl, tt), n 6), ((refl, (refl, tt), n 7), tt))),
        ),
      ),
    )

module _ (show_time : ℕ → ℕ → Str) (suites : Suites)
    (timed : (a b : ℕ) → IsOneLine (show_time a b)) where
  case_entries-IsReadable :
      (suite : TestSuite) (test : StatTestInfo)
      → IsName suite.name
      → CaseFits suite test
      → All IsReadable (case_entries show_time suites suite test)
  unfolding case_entries test_validate_name
  case_entries-IsReadable suite test n fits =
      let m : IsName (case_name suite test) = rw (case_name_lem suite test fits.found) fits.valid in
      let short : All IsName
          (suite.name ∷ bytes "test" ∷ case_name suite test ∷ bytes "time" ∷ []) =
        (n, (refl, (m, (refl, tt)))) in
      (
        (refl, short, label-IsOneLine test.result),
        (
          (refl, (n, (refl, (m, (refl, (refl, tt))))), show_int32-IsOneLine test.assertions_passed),
          (
            (refl, (n, (refl, (m, (refl, (refl, tt))))), show_int32-IsOneLine test.assertions),
            ((refl, short, timed test.start test.end_time), tt),
          ),
        ),
      )

  cases_entries-IsReadable :
      (suite : TestSuite) (tests : List StatTestInfo)
      → IsName suite.name
      → All (CaseFits suite) tests
      → All IsReadable (cases_entries show_time suites suite tests)
  unfolding cases_entries
  cases_entries-IsReadable suite [] n fits = tt
  cases_entries-IsReadable suite (test ∷ tests) n fits =
      All-append IsReadable (case_entries show_time suites suite test)
        (cases_entries show_time suites suite tests) (case_entries-IsReadable suite test n fits.0)
        (cases_entries-IsReadable suite tests n fits.1)

  suite_entries-IsReadable :
      (info : StatSuiteInfo)
      → SuiteFits suites info
      → All IsReadable (suite_entries show_time suites info)
  unfolding suite_entries test_validate_name
  suite_entries-IsReadable info fits =
      let same = suite_of_lem suites info fits.found in
      let n : IsName (suite_of suites info).name = rw same fits.valid in
      let cases : All (CaseFits (suite_of suites info)) info.test_info_list = rw same fits.cases in
      (
        (refl, (n, (refl, tt)), show_int32-IsOneLine (if info.result then 1 else 0)),
        (
          (refl, (n, (refl, (refl, tt))), show_int32-IsOneLine info.assertions_passed),
          (
            (refl, (n, (refl, (refl, tt))), show_int32-IsOneLine info.assertions),
            (
              (refl, (n, (refl, tt)), timed info.start info.end_time),
              cases_entries-IsReadable (suite_of suites info) info.test_info_list n cases,
            ),
          ),
        ),
      )

  suites_entries-IsReadable :
      (infos : List StatSuiteInfo)
      → All (SuiteFits suites) infos
      → All IsReadable (suites_entries show_time suites infos)
  unfolding suites_entries
  suites_entries-IsReadable [] fits = tt
  suites_entries-IsReadable (info ∷ infos) fits =
      All-append IsReadable (suite_entries show_time suites info)
        (suites_entries show_time suites infos) (suite_entries-IsReadable info fits.0)
        (suites_entries-IsReadable infos fits.1)

  stat_entries-IsReadable :
      (stat : TestStatistics)
      → All (SuiteFits suites) stat.suite_info_list
      → All IsReadable (stat_entries show_time suites stat)
  unfolding stat_entries test_validate_name
  stat_entries-IsReadable stat fits =
      All-append IsReadable (totals stat)
        (suites_entries show_time suites stat.suite_info_list ++ message_entries stat.messages)
        (
          (refl, (refl, tt), show_int32-IsOneLine stat.passed),
          (
            (refl, (refl, tt), show_int32-IsOneLine stat.failed),
            ((refl, (refl, tt), show_int32-IsOneLine stat.sigsegv), tt),
          ),
        )
        (All-append IsReadable (suites_entries show_time suites stat.suite_info_list)
          (message_entries stat.messages) (suites_entries-IsReadable stat.suite_info_list fits)
          (message_entries-IsReadable stat.messages))

  -- The report file of a run can be read back: the totals, each suite and each case under its own
  -- name, and the counts of messages, in order and with nothing else. This holds if the suites
  -- and cases are those of the context with names that it takes, short enough for the prefix, every
  -- case has a result, there is a count for each of the eight priorities, and times are printed on
  -- one line.
  pub read-put_file :
      (stat : TestStatistics)
      → All (SuiteFits suites) stat.suite_info_list
      → length stat.messages ≡ 8
      → (file : Str) × (put_file show_time suites stat [] ≡ ok file)
        × (read file ≡ map as_pair (stat_entries show_time suites stat))
  unfolding read
  read-put_file stat fits eight = (
    render_all (stat_entries show_time suites stat),
    put_file-stat_entries show_time suites stat fits eight,
    ap (λ (r : Reader). r.entries)
        (run-render_all (stat_entries show_time suites stat) []
          (stat_entries-IsReadable stat fits)),
  )
