-- ===== src/External/Written.antt =====
-- `_test_report_put_file` of lib/report-external.c writes the entries of the statistics.
use tinu.Prelude.{
  ℕ, ◌≡◌, refl, ap, sym, ◌∙◌, true, List, [], ◌∷◌, ◌++◌, Str, bytes, length, lt→ltb, All, arith, ok,
  bind_cong, ◌>>=◌, deref,
}
use mathlib.Core.List.{append_assoc, append-nil}
use tinu.Suites.{TestSuite, Suites}
use tinu.Names.{tinu_lookup_key}
use tinu.Runner.{
  TestCaseResult, test_none, test_passed, test_failed, test_abort, test_segfault, test_internal,
  expected,
}
use tinu.Runner.Labels.{result_number, test_result_name}
use tinu.Message.Priority.{msg_format_priority}
use tinu.Statistics.{StatTestInfo, StatSuiteInfo, TestStatistics}
use tinu.External.{
  report_set, report_print, result_text, priority_text, put_case, put_cases, put_suite, put_suites,
  put_messages, put_file, counted,
}
use tinu.External.Replace.{join}
use tinu.External.Entries.{
  Entry, render, render_all, label, case_name_lem, suite_of_lem, CaseFits, SuiteFits, case_entries,
  cases_entries, suite_entries, suites_entries, message_entries, totals, stat_entries,
}

label_lem :
    (r : TestCaseResult)
    → expected r ≡ true
    → (test_result_name (result_number r) >>= λ name. deref name) ≡ ok (label r)
unfolding test_result_name tinu_lookup_key result_number expected label
label_lem test_none ran = cc
label_lem test_passed ran = refl
label_lem test_failed ran = refl
label_lem test_abort ran = refl
label_lem test_segfault ran = refl
label_lem test_internal ran = refl

render_all-append : (es fs : List Entry) → render_all (es ++ fs) ≡ render_all es ++ render_all fs
unfolding render_all
render_all-append [] fs = refl
render_all-append (e ∷ es) fs =
    ap (◌++◌ (render e)) (render_all-append es fs)
    ∙ sym (append_assoc (render e) (render_all es) (render_all fs))

result_text-label :
    (test : StatTestInfo) → expected test.result ≡ true → result_text test ≡ ok (label test.result)
unfolding result_text
result_text-label test ran = label_lem test.result ran

module _ (show_time : ℕ → ℕ → Str) (suites : Suites) where
  put_case-entries :
      (suite : TestSuite) (test : StatTestInfo) (file : Str)
      → CaseFits suite test
      → put_case show_time suites suite test file
        ≡ ok (file ++ render_all (case_entries show_time suites suite test))
  unfolding put_case report_set report_print case_entries render_all render join
  put_case-entries suite test file fits = simp (
    case_name_lem suite test fits.found,
    fits.found,
    lt→ltb _ _ fits.short,
    result_text-label test fits.ran,
    append_assoc,
  )

  put_cases-entries :
      (suite : TestSuite) (tests : List StatTestInfo) (file : Str)
      → All (CaseFits suite) tests
      → put_cases show_time suites suite tests file
        ≡ ok (file ++ render_all (cases_entries show_time suites suite tests))
  unfolding put_cases cases_entries render_all
  put_cases-entries suite [] file fits = ap ok (sym (append-nil file))
  put_cases-entries suite (test ∷ tests) file fits =
      let rest = cases_entries show_time suites suite tests in
      bind_cong (put_case-entries suite test file fits.0) (λ f. refl)
      ∙ put_cases-entries suite tests
          (file ++ render_all (case_entries show_time suites suite test)) fits.1
      ∙ ap ok (
          append_assoc file (render_all (case_entries show_time suites suite test))
            (render_all rest)
          ∙ ap (◌++◌ file)
              (sym (render_all-append (case_entries show_time suites suite test) rest)))

  put_suite-entries :
      (info : StatSuiteInfo) (file : Str)
      → SuiteFits suites info
      → put_suite show_time suites info file
        ≡ ok (file ++ render_all (suite_entries show_time suites info))
  unfolding put_suite report_set report_print suite_entries render_all render join
  put_suite-entries info file fits = simp (
    suite_of_lem suites info fits.found,
    fits.found,
    lt→ltb _ _ fits.short,
    put_cases-entries fits.suite info.test_info_list _ fits.cases,
    append_assoc,
  )

  put_suites-entries :
      (infos : List StatSuiteInfo) (file : Str)
      → All (SuiteFits suites) infos
      → put_suites show_time suites infos file
        ≡ ok (file ++ render_all (suites_entries show_time suites infos))
  unfolding put_suites suites_entries render_all
  put_suites-entries [] file fits = ap ok (sym (append-nil file))
  put_suites-entries (info ∷ infos) file fits =
      let rest = suites_entries show_time suites infos in
      bind_cong (put_suite-entries info file fits.0) (λ f. refl)
      ∙ put_suites-entries infos (file ++ render_all (suite_entries show_time suites info)) fits.1
      ∙ ap ok (
          append_assoc file (render_all (suite_entries show_time suites info)) (render_all rest)
          ∙ ap (◌++◌ file) (sym (render_all-append (suite_entries show_time suites info) rest)))

-- What the three calls for the totals write.
abbrev summary : TestStatistics → Str
summary stat =
    let prefix = bytes "summary" in
    report_print prefix (counted (bytes "segfault") stat.sigsegv) (
      report_print prefix (counted (bytes "failed") stat.failed)
        (report_print prefix (counted (bytes "passed") stat.passed) []))

summary-entries : (stat : TestStatistics) → summary stat ≡ render_all (totals stat)
unfolding report_print render_all render join
summary-entries stat = simp append_assoc

module _ (show_time : ℕ → ℕ → Str) (suites : Suites) where
  put_messages-entries :
      (messages : List ℕ) (file : Str)
      → length messages ≡ 8
      → put_messages show_time suites 6 2 messages (bytes "message") file
        ≡ ok (file ++ render_all (message_entries messages))
  unfolding put_messages report_print render_all render join priority_text msg_format_priority
      tinu_lookup_key
  put_messages-entries (a ∷ b ∷ c ∷ d ∷ e ∷ f ∷ g ∷ h ∷ []) file fits = simp append_assoc
  put_messages-entries messages file fits = absurd (omega arith)

  -- The report of statistics whose suites and cases are those of the context, with names short
  -- enough for the prefix, is the text of its entries: the totals, then each suite with its
  -- cases behind it, in the order they ran, then the messages by priority.
  pub put_file-stat_entries :
      (stat : TestStatistics)
      → All (SuiteFits suites) stat.suite_info_list
      → length stat.messages ≡ 8
      → put_file show_time suites stat [] ≡ ok (render_all (stat_entries show_time suites stat))
  unfolding put_file report_set stat_entries
  put_file-stat_entries stat fits eight =
      let suites' = suites_entries show_time suites stat.suite_info_list in
      let rest = message_entries stat.messages in
      bind_cong (put_suites-entries show_time suites stat.suite_info_list (summary stat) fits)
        (λ f. refl)
      ∙ put_messages-entries stat.messages (summary stat ++ render_all suites') eight
      ∙ ap ok (
          ap (λ s. (s ++ render_all suites') ++ render_all rest) (summary-entries stat)
          ∙ append_assoc (render_all (totals stat)) (render_all suites') (render_all rest)
          ∙ ap (◌++◌ (render_all (totals stat))) (sym (render_all-append suites' rest))
          ∙ sym (render_all-append (totals stat) (suites' ++ rest)))
