-- ===== src/Standard/Colours.antt =====
-- The report of lib/report-standard.c with its colours shows the one without.
use tinu.Prelude.{
  ℕ, zero, suc, ◌-◌, ◌*◌, ◌≡◌, refl, ap, Bool-cases, inl, inr, true, false, List, [], ◌∷◌, ◌++◌,
  Str, bytes, get_elem?, take, ◌==◌, leb, show_nat, show_nat-AllDigits, All, Outcome, ok, ◌>>=◌,
  deref,
}
use tinu.Suites.{TestCase, TestSuite, Suites}
use tinu.Statistics.{StatTestInfo, StatSuiteInfo, TestStatistics}
use tinu.Standard.Strip.{
  strip, Shows-strip, literal, literal, Shows, Shows-plain, Shows-append, IsPlain, IsPlain-append,
  AllDigits-IsPlain,
}
use tinu.Standard.{
  suite_formats, case_formats, show_suite, show_leaked, show_case, show_cases, cases_of,
  show_suites, test_report_print, humanly_readable_size,
}
use tinu.Reporting.{stat_verb_summary, stat_verb_suites, stat_verb_full}
use tinu.Standard.Agreeing.{
  Agrees, both_ok, both_abort, both_crash, Agrees-bind, report_printf-Agrees,
}
use tinu.Standard.Parts.{
  show_summary-Agrees, show_assertions-Agrees, show_result-Agrees, case-Prints, suite-Prints,
}
use tinu.Runner.Labels.{result_number, test_result_name}
use tinu.Standard.Titles.{Agrees-name, Agrees-append, result_name-PlainName, show_messages-Agrees}

-- The names of a suite and of its cases hold no escape character.
abbrev PlainCase : TestCase → Type 0
PlainCase case = IsPlain case.name

abbrev pub PlainSuite : TestSuite → Type 0
PlainSuite suite = IsPlain suite.name × All PlainCase suite.tests

-- An element that both sides read first.
Agrees-elem :
    {A : Type 0} (P : A → Type 0) (xs : List A) (i : ℕ) {f g : A → Outcome Str}
    → All P xs
    → ((x : A) → P x → Agrees (f x) (g x))
    → Agrees (deref (get_elem? xs i) >>= f) (deref (get_elem? xs i) >>= g)
Agrees-elem P [] i h k = both_crash
Agrees-elem P (x ∷ xs) zero h k = k x h.0
Agrees-elem P (x ∷ xs) (suc i) h k = Agrees-elem P xs i h.1 k

take-IsPlain : (n : ℕ) (s : Str) → IsPlain s → IsPlain (take n s)
take-IsPlain zero s h = tt
take-IsPlain (suc n) [] h = tt
take-IsPlain (suc n) (c ∷ s) h = (h.0, take-IsPlain n s h.1)

Agrees-strip : {m n : Outcome Str} → Agrees m n → (m >>= λ s. ok (strip s)) ≡ n
Agrees-strip (both_ok {s} {t} h) = ap ok (Shows-strip s t h)
Agrees-strip both_abort = refl
Agrees-strip both_crash = refl

module _ (show_quotient : ℕ → ℕ → Str)
    (plain_quotient : (a b : ℕ) → IsPlain (show_quotient a b)) where
  size-IsPlain : (max_size size : ℕ) → IsPlain (humanly_readable_size show_quotient max_size size)
  unfolding humanly_readable_size
  size-IsPlain max_size size =
      take-IsPlain (max_size - 1) _ (elim (Bool-cases (leb (1024 * 1024) size)) [
        | inl large ↦
            rw large
              (IsPlain-append _ _ (plain_quotient (size * 1024) 1024) (literal (bytes " MB") refl))
        | inr less ↦ rw less (elim (Bool-cases (leb 1024 size)) [
          | inl middle ↦
              rw middle (IsPlain-append _ _ (plain_quotient size 1024) (literal (bytes " kB") refl))
          | inr small ↦ rw small (
              IsPlain-append _ _ (AllDigits-IsPlain (show_nat size) (show_nat-AllDigits size))
                (literal (bytes " B") refl))
        ])
      ])

  leaked-IsPlain : (leaked : ℕ) → IsPlain (show_leaked show_quotient leaked)
  unfolding show_leaked
  leaked-IsPlain leaked = elim (Bool-cases (leaked == 0)) [
    | inl clean ↦ rw clean tt
    | inr leaks ↦ rw leaks (
        IsPlain-append (bytes " leaked: ") _ (literal (bytes " leaked: ") refl)
          (size-IsPlain 128 leaked))
  ]

  show_case-Agrees :
      (suite : TestSuite) (test : StatTestInfo) (verbosity : ℕ)
      → All PlainCase suite.tests
      → Agrees
          (show_case show_quotient suite test verbosity true)
          (show_case show_quotient suite test verbosity false)
  unfolding show_case
  show_case-Agrees suite test verbosity h =
      let leaked = show_leaked show_quotient test.leaked_bytes ++ b'\n' ∷ [] in
      let end : Shows leaked leaked = Shows-plain leaked (
        IsPlain-append (show_leaked show_quotient test.leaked_bytes) (b'\n' ∷ [])
          (leaked-IsPlain test.leaked_bytes) (refl, tt)) in
      Agrees-name (test_result_name (result_number test.result)) (result_name-PlainName test.result)
        (λ name n. Agrees-elem PlainCase suite.tests test.test.case h (λ case c.
          Agrees-bind
            (report_printf-Agrees (case_formats true) (case_formats false) _ _
              (case-Prints case.name c))
            (λ s t line. Agrees-bind (show_result-Agrees test.result name n) (λ s' t' result.
              Agrees-bind (show_assertions-Agrees verbosity test.assertions_passed test.assertions)
                (λ s'' t'' more. both_ok (
                  Shows-append s _ t _ line (
                    Shows-append s' _ t' _ result
                      (Shows-append s'' leaked t'' leaked more end))))))))

  show_cases-Agrees :
      (suite : TestSuite) (tests : List StatTestInfo) (verbosity : ℕ)
      → All PlainCase suite.tests
      → Agrees
          (show_cases show_quotient suite tests verbosity true)
          (show_cases show_quotient suite tests verbosity false)
  unfolding show_cases
  show_cases-Agrees suite [] verbosity h = both_ok (λ rest. refl)
  show_cases-Agrees suite (test ∷ tests) verbosity h =
      Agrees-append (show_case-Agrees suite test verbosity h)
        (show_cases-Agrees suite tests verbosity h)

  module _ (suites : Suites) (named : All PlainSuite suites) where
    show_suite-Agrees :
        (info : StatSuiteInfo) (verbosity : ℕ)
        → Agrees (show_suite suites info verbosity true) (show_suite suites info verbosity false)
    unfolding show_suite
    show_suite-Agrees info verbosity =
        let newline : Shows (b'\n' ∷ []) (b'\n' ∷ []) = Shows-plain (b'\n' ∷ []) (refl, tt) in
        Agrees-elem PlainSuite suites info.suite named (λ suite p.
          Agrees-bind
            (report_printf-Agrees (suite_formats true) (suite_formats false) _ _
              (suite-Prints suite.name info.result p.0))
            (λ s t line.
              Agrees-bind (show_assertions-Agrees verbosity info.assertions_passed info.assertions)
                (λ s' t' more. both_ok (
                  Shows-append s _ t _ line
                    (Shows-append s' (b'\n' ∷ []) t' (b'\n' ∷ []) more newline)))))

    cases_of-Agrees :
        (info : StatSuiteInfo) (verbosity : ℕ)
        → Agrees
            (cases_of show_quotient suites info verbosity true)
            (cases_of show_quotient suites info verbosity false)
    unfolding cases_of
    cases_of-Agrees info verbosity = elim (Bool-cases (leb verbosity stat_verb_suites)) [
      | inl short ↦ rw short (both_ok (λ rest. refl))
      | inr full ↦ rw full (
          Agrees-elem PlainSuite suites info.suite named (λ suite p.
            Agrees-bind (show_cases-Agrees suite info.test_info_list verbosity p.1) (λ s t cases.
              both_ok (
                Shows-append s (b'\n' ∷ []) t (b'\n' ∷ []) cases
                  (Shows-plain (b'\n' ∷ []) (refl, tt))))))
    ]

    show_suites-Agrees :
        (infos : List StatSuiteInfo) (verbosity : ℕ)
        → Agrees
            (show_suites show_quotient suites infos verbosity true)
            (show_suites show_quotient suites infos verbosity false)
    unfolding show_suites
    show_suites-Agrees [] verbosity = both_ok (λ rest. refl)
    show_suites-Agrees (info ∷ infos) verbosity =
        Agrees-bind (show_suite-Agrees info verbosity) (λ s t line.
          Agrees-bind (cases_of-Agrees info verbosity) (λ s' t' cases.
            Agrees-bind (show_suites-Agrees infos verbosity) (λ s'' t'' rest.
              both_ok (Shows-append s _ t _ line (Shows-append s' s'' t' t'' cases rest)))))

    report-Agrees :
        (stat : TestStatistics) (verbosity : ℕ)
        → Agrees
            (test_report_print show_quotient suites stat verbosity true)
            (test_report_print show_quotient suites stat verbosity false)
    unfolding test_report_print
    report-Agrees stat verbosity = Agrees-bind (show_summary-Agrees stat) (λ s t summary.
        elim (Bool-cases (verbosity == stat_verb_summary)) [
          | inl short ↦ rw short (both_ok summary)
          | inr more ↦ rw more (
              Agrees-bind (show_suites-Agrees stat.suite_info_list verbosity) (λ s' t' suites'.
                elim (Bool-cases (leb verbosity stat_verb_full)) [
                  | inl full ↦ rw full (both_ok (Shows-append s s' t t' summary suites'))
                  | inr verbose ↦ rw verbose (
                      Agrees-bind (show_messages-Agrees 6 2 stat.messages) (λ s'' t'' messages.
                        both_ok (
                          Shows-append s _ t _ summary (
                            Shows-append s' _ t' _ suites' (
                              Shows-append (bytes "Messages received:" ++ b'\n' ∷ []) s''
                                (bytes "Messages received:" ++ b'\n' ∷ []) t''
                                (Shows-plain (bytes "Messages received:" ++ b'\n' ∷ [])
                                  (literal (bytes "Messages received:" ++ b'\n' ∷ []) refl))
                                messages)))))
                ]))
        ])

    -- The colours change nothing but the escape sequences: at every verbosity the report with
    -- colours, its escape sequences left out, is the report without, and fails when that one fails.
    -- The names of the suites and cases, and the sizes that the library prints, must hold no
    -- escape character themselves.
    pub strip-test_report_print :
        (stat : TestStatistics) (verbosity : ℕ)
        → (test_report_print show_quotient suites stat verbosity true >>= λ s. ok (strip s))
          ≡ test_report_print show_quotient suites stat verbosity false
    strip-test_report_print stat verbosity = Agrees-strip (report-Agrees stat verbosity)
