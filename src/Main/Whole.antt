-- ===== src/Main/Whole.antt =====
-- A whole run of the program of lib/main.c.
use tinu.Prelude.{
  ℕ, ◌≡◌, refl, ap, ◌∙◌, Bool, true, false, Option, none, some, List, Str, ltb, if◌then◌else◌,
  Outcome, ok, bind_cong, bind_assoc, ◌>>=◌,
}
use tinu.Suites.{Suites}
use tinu.Runner.{CasePtr, Action, TestContext, is_passed, tinu_test_all_run}
use tinu.Runner.Verdict.{suites_passed}
use tinu.Statistics.{TestStatistics, stat_new, stat_hooks}
use tinu.Statistics.Counted.{Counted, is_fault}
use tinu.Statistics.Totals.{all_run-Counted, count_suites, is_failed}
use tinu.Reporting.{stat_verb_none}
use tinu.Main.{
  Options, ReportModule, choose_report, can_start, hooks_for, run_selected, make_report,
  run_and_report, tinu_main, wants_stat,
}

-- The options ask for all suites with signals handled, the report is chosen and the program starts.
pub record Runs {R : Type 0} (modules : List (ReportModule R)) (can_open : Str → Bool)
    (options : Options) (report : Option (ReportModule R)) : Type 0 where
  pub runs : options.version ≡ false
  pub handles : options.sighandle ≡ true
  pub all : options.suite ≡ none
  pub chosen : choose_report modules options ≡ some report
  pub started : can_start can_open options ≡ true

module _ {R : Type 0} (clock : ℕ → ℕ) (code : ℕ → ℕ → List Action) (leaked : CasePtr → ℕ)
    (modules : List (ReportModule R)) (can_open : Str → Bool) (options : Options) where
  tinu_main-run_and_report :
      (context : Option Suites) (report : Option (ReportModule R))
      → Runs modules can_open options report
      → tinu_main clock code leaked true context modules can_open (some options)
        ≡ run_and_report clock code leaked true context report options
  unfolding tinu_main
  tinu_main-run_and_report context report h = simp (h.runs, h.chosen, h.started)

  -- The status for the verdict on all suites.
  abbrev pub status_of : Suites → ℕ
  status_of suites = if suites_passed code leaked true options.leakwatch suites then 0 else 1

  -- The context that the runner gets.
  abbrev pub context_for : Suites → Option (ReportModule R) → TestContext (Outcome TestStatistics)
  context_for suites report = record {
    suites = suites;
    sighandle = options.sighandle;
    leakwatch = options.leakwatch;
    hooks = hooks_for clock (wants_stat report options.stat_verb);
  }

  run_selected-all :
      (suites : Suites) (report : Option (ReportModule R))
      → options.suite ≡ none
      → run_selected code leaked true (context_for suites report) options
        ≡ tinu_test_all_run code leaked true (context_for suites report) (ok stat_new)
  unfolding run_selected
  run_selected-all suites report e = rw (e, run_selected) refl

  pub hooks_wanted :
      (m : ReportModule R)
      → ltb stat_verb_none options.stat_verb ≡ true
      → hooks_for clock (wants_stat (some m) options.stat_verb) ≡ stat_hooks clock
  unfolding hooks_for wants_stat
  hooks_wanted m wanted = ap (hooks_for clock) wanted

  make_report_wanted :
      (m : ReportModule R) (stat : TestStatistics)
      → ltb stat_verb_none options.stat_verb ≡ true
      → make_report (some m) options (ok stat)
        ≡ (m.handle stat options.stat_verb options.fancy >>= λ report. ok (some report))
  unfolding make_report wants_stat
  make_report_wanted m stat wanted = rw wanted refl

  pub stat_new_idle : stat_new.test_current ≡ none
  unfolding stat_new
  stat_new_idle = refl

  -- From the run of all suites to the end of the program.
  pub tinu_main-handle :
      (suites : Suites) (m : ReportModule R) (stat : TestStatistics)
      → Runs modules can_open options (some m)
      → ltb stat_verb_none options.stat_verb ≡ true
      → tinu_test_all_run code leaked true (context_for suites (some m)) (ok stat_new)
        ≡ ok (ok stat, suites_passed code leaked true options.leakwatch suites)
      → tinu_main clock code leaked true (some suites) modules can_open (some options) ≡ (
          m.handle stat options.stat_verb options.fancy >>= λ report.
          ok (record { status = status_of suites; report = some report }))
  unfolding run_and_report
  tinu_main-handle suites m stat h wanted run =
      tinu_main-run_and_report (some suites) (some m) h
      ∙ bind_cong (run_selected-all suites (some m) h.all ∙ run) (λ q. refl)
      ∙ bind_cong (make_report_wanted m stat wanted) (λ made. refl)
      ∙ bind_assoc (m.handle stat options.stat_verb options.fancy) _ _

  -- With a report whose module takes the options, a verbosity above none, no version, suite or case
  -- asked for, signals handled, a log file that opens if there is one, and every switch to a case
  -- succeeding, the program runs all suites and hands the report statistics whose counters are the
  -- numbers of cases that passed, that did not and that faulted, modulo 2 ^ 32; the report is the
  -- module's, and the status is 0 exactly if every case passed.
  pub tinu_main-Counted :
      (suites : Suites) (m : ReportModule R)
      → Runs modules can_open options (some m)
      → ltb stat_verb_none options.stat_verb ≡ true
      → (stat : TestStatistics) × (tinu_main clock code leaked true
            (some suites)
            modules
            can_open
            (some options)
          ≡ (m.handle stat options.stat_verb options.fancy >>= λ report.
              ok (record { status = status_of suites; report = some report })))
        × Counted stat_new stat
            (count_suites code leaked options.leakwatch is_passed suites)
            (count_suites code leaked options.leakwatch is_failed suites)
            (count_suites code leaked options.leakwatch is_fault suites)
  tinu_main-Counted suites m h wanted =
      let self = context_for suites (some m) in
      let (stat, run, counted) =
        all_run-Counted code leaked clock self stat_new h.handles (hooks_wanted m wanted)
          stat_new_idle in
      (stat, tinu_main-handle suites m stat h wanted run, counted)
