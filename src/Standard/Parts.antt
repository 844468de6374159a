-- ===== src/Standard/Parts.antt =====
-- The parts of a line of lib/report-standard.c, with and without colours.
use tinu.Prelude.{ℕ, refl, Bool-cases, inl, inr, Bool, true, false, List, [], ◌∷◌, Str, ◌==◌}
use tinu.Runner.{
  TestCaseResult, test_none, test_passed, test_failed, test_abort, test_segfault, test_internal,
}
use tinu.Statistics.{TestStatistics}
use tinu.Standard.Printing.{string, Arg, int, str, report_printf, concat_formats}
use tinu.Standard.Strip.{strip_from, Shows, Shows-plain, IsPlain}
use tinu.Standard.{
  col_ok, col_fail, col_fatal, summary_formats, suite_formats, case_formats, result_format,
  assertions_format, coloured, coloured_text, verdict, show_summary, show_assertions, show_result,
}
use tinu.Reporting.{stat_verb_verbose}
use tinu.Standard.Agreeing.{
  Agrees, both_ok, both_abort, Prints, done, plain, escape, a_number, a_string, a_left,
  vfprintf-Agrees, report_printf-Agrees,
}

abbrev summary_args : TestStatistics → List Arg
summary_args stat = int stat.passed ∷ int stat.failed ∷ int stat.sigsegv ∷ []

summary-Prints :
    (stat : TestStatistics)
    → Prints
        (concat_formats (summary_formats stat true))
        (summary_args stat)
        (concat_formats (summary_formats stat false))
        (summary_args stat)
unfolding coloured concat_formats strip_from
summary-Prints stat = plain refl (
    escape (λ rest. refl)
      (plain refl (
        a_number (
          plain refl (
            escape (λ rest. refl)
              (escape (λ rest. refl)
                (plain refl (
                  a_number (
                    plain refl (
                      escape (λ rest. refl)
                        (elim (Bool-cases (stat.sigsegv == 0)) [
                          | inl calm ↦ rw calm (plain refl done)
                          | inr faults ↦ rw faults (
                              escape (λ rest. refl)
                                (plain refl (a_number (escape (λ rest. refl) (plain refl done)))))
                        ])))))))))))

pub show_summary-Agrees :
    (stat : TestStatistics) → Agrees (show_summary stat true) (show_summary stat false)
unfolding show_summary
show_summary-Agrees stat =
    report_printf-Agrees (summary_formats stat true) (summary_formats stat false)
      (summary_args stat) (summary_args stat) (summary-Prints stat)

verdict-Shows : (result : Bool) → Shows (verdict result true) (verdict result false)
unfolding verdict coloured_text strip_from
verdict-Shows true rest = refl
verdict-Shows false rest = refl

pub show_assertions-Agrees :
    (verbosity passed total : ℕ)
    → Agrees (show_assertions verbosity passed total) (show_assertions verbosity passed total)
unfolding show_assertions
show_assertions-Agrees verbosity passed total = elim (Bool-cases (verbosity == stat_verb_verbose)) [
  | inl verbose ↦ rw verbose (
      vfprintf-Agrees assertions_format assertions_format (int passed ∷ int total ∷ [])
        (int passed ∷ int total ∷ []) (plain refl (a_number (plain refl (a_number done)))))
  | inr short ↦ rw short (both_ok (λ rest. refl))
]

pub case-Prints :
    (name : Str)
    → IsPlain name
    → Prints
        (concat_formats (case_formats true))
        (int 33 ∷ str name ∷ [])
        (concat_formats (case_formats false))
        (int 33 ∷ str name ∷ [])
unfolding coloured concat_formats strip_from
case-Prints name h = plain refl (escape (λ rest. refl) (a_left h (escape (λ rest. refl) done)))

pub suite-Prints :
    (name : Str) (result : Bool)
    → IsPlain name
    → Prints
        (concat_formats (suite_formats true))
        (int 30 ∷ str name ∷ str (verdict result true) ∷ [])
        (concat_formats (suite_formats false))
        (int 30 ∷ str name ∷ str (verdict result false) ∷ [])
unfolding coloured concat_formats strip_from
suite-Prints name result h = plain refl (
    escape (λ rest. refl)
      (a_left h (escape (λ rest. refl) (plain refl (a_string (verdict-Shows result) done)))))

fatal-Agrees :
    (name : Str)
    → IsPlain name
    → Agrees
        (report_printf (col_fatal true (string ∷ []) ∷ []) (str name ∷ []))
        (report_printf (col_fatal false (string ∷ []) ∷ []) (str name ∷ []))
unfolding coloured concat_formats strip_from
fatal-Agrees name h =
    report_printf-Agrees (col_fatal true (string ∷ []) ∷ []) (col_fatal false (string ∷ []) ∷ [])
      (str name ∷ []) (str name ∷ [])
      (escape (λ rest. refl) (a_string (Shows-plain name h) (escape (λ rest. refl) done)))

pub show_result-Agrees :
    (result : TestCaseResult) (name : Str)
    → IsPlain name
    → Agrees (show_result result name true) (show_result result name false)
unfolding show_result result_format coloured concat_formats strip_from
show_result-Agrees test_none name h = both_abort
show_result-Agrees test_passed name h =
    report_printf-Agrees (col_ok true (string ∷ []) ∷ []) (col_ok false (string ∷ []) ∷ [])
      (str name ∷ []) (str name ∷ [])
      (escape (λ rest. refl) (a_string (Shows-plain name h) (escape (λ rest. refl) done)))
show_result-Agrees test_failed name h =
    report_printf-Agrees (col_fail true (string ∷ []) ∷ []) (col_fail false (string ∷ []) ∷ [])
      (str name ∷ []) (str name ∷ [])
      (escape (λ rest. refl) (a_string (Shows-plain name h) (escape (λ rest. refl) done)))
show_result-Agrees test_segfault name h = fatal-Agrees name h
show_result-Agrees test_abort name h = fatal-Agrees name h
show_result-Agrees test_internal name h = fatal-Agrees name h
