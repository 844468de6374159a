-- ===== src/Main/Filed.antt =====
-- The program with the report module for files: from the suites to the file that is read back.
use tinu.Prelude.{
  Option, ℕ, ◌≡◌, refl, ap, sym, ◌∙◌, subst, Bool, true, false, none, some, List, [], Str, bytes,
  str_eq, length, map, ltb, All, ok, bind_cong,
}
use tinu.Suites.{Suites}
use tinu.Runner.{CasePtr, Action, is_passed}
use tinu.Statistics.{TestStatistics, stat_new}
use tinu.Statistics.Counted.{Counted, is_fault}
use tinu.Statistics.Totals.{count_suites, is_failed}
use tinu.Statistics.Expected.{suite_infos}
use tinu.Statistics.Exact.{all_run-suite_infos}
use tinu.Reporting.{stat_verb_none}
use tinu.External.{put_file, test_report_file, test_report_file_check}
use tinu.External.Entries.{SuiteFits, stat_entries}
use tinu.External.Fitting.{SuiteNamed, suite_infos-SuiteFits}
use tinu.External.Reader.{IsOneLine, read, as_pair}
use tinu.External.Reading.{read-put_file}
use tinu.Main.{
  Options, ReportModule, choose_report, find_module, check_passes, can_start, tinu_main,
  tinu_report_add,
}
use tinu.Main.Modules.{
  filed, ModuleOptions, g_report_print_module, g_report_program_module, g_report_file_module,
  all_modules,
}
use tinu.Main.Whole.{Runs, context_for, status_of, hooks_wanted, stat_new_idle, tinu_main-handle}

-- The options ask for the report in the file `name`, which can be created, on all suites, with a
-- verbosity above none and signals handled, and the program starts.
pub record Files (can_open can_create : Str → Bool) (options : Options) (own : ModuleOptions)
    (name : Str) : Type 0 where
  pub runs : options.version ≡ false
  pub handles : options.sighandle ≡ true
  pub all : options.suite ≡ none
  pub asked : options.report ≡ some (bytes "file")
  pub started : can_start can_open options ≡ true
  pub counted : ltb stat_verb_none options.stat_verb ≡ true
  pub named : own.filename ≡ some name
  pub creates : can_create name ≡ true

choose-asked :
    {R : Type 0} (modules : List (ReportModule R)) (options : Options) (name : Str)
    (m : ReportModule R)
    → options.report ≡ some name
    → find_module modules name ≡ some m
    → check_passes m options ≡ true
    → choose_report modules options ≡ some (some m)
unfolding choose_report
choose-asked modules options name m asked found passes =
    rw (choose_report, asked, found, passes) refl

module _ (show_quotient show_time : ℕ → ℕ → Str) (can_open can_create : Str → Bool)
    (pass_name : Option Str) (options : Options) (own : ModuleOptions) (name : Str)
    (h : Files can_open can_create options own name) where
  check-Files : test_report_file_check can_create own.filename ≡ (true, some name)
  unfolding test_report_file_check
  check-Files = simp (h.named, h.creates)

  find-Files :
      (suites : Suites)
      → find_module
          (all_modules show_quotient show_time can_create pass_name suites own [])
          (bytes "file")
        ≡ some (g_report_file_module show_quotient show_time can_create pass_name suites own)
  unfolding find_module all_modules tinu_report_add str_eq g_report_print_module
      g_report_program_module g_report_file_module
  find-Files suites = refl

  passes-Files :
      (suites : Suites)
      → check_passes
          (g_report_file_module show_quotient show_time can_create pass_name suites own)
          options
        ≡ true
  unfolding check_passes g_report_file_module
  passes-Files suites = ap (λ r. r.0) check-Files

  Files-Runs :
      (suites : Suites)
      → Runs
          (all_modules show_quotient show_time can_create pass_name suites own [])
          can_open
          options
          (some (g_report_file_module show_quotient show_time can_create pass_name suites own))
  Files-Runs suites = record {
    runs = h.runs;
    handles = h.handles;
    all = h.all;
    chosen =
        choose-asked _ options (bytes "file") _ h.asked (find-Files suites) (passes-Files suites);
    started = h.started;
  }

  handle-put_file :
      (suites : Suites) (stat : TestStatistics) (file : Str) (verbosity : ℕ) (colour : Bool)
      → put_file show_time suites stat [] ≡ ok file
      → (g_report_file_module show_quotient show_time can_create pass_name suites own).handle stat
          verbosity colour
        ≡ ok (filed file)
  unfolding g_report_file_module test_report_file
  handle-put_file suites stat file verbosity colour put = simp (check-Files, put)

module _ (show_quotient show_time : ℕ → ℕ → Str) (can_open can_create : Str → Bool)
    (pass_name : Option Str) (options : Options) (own : ModuleOptions) (clock : ℕ → ℕ)
    (code : ℕ → ℕ → List Action) (leaked : CasePtr → ℕ) where
  -- With the report in a file asked for that can be created, a verbosity above none, no version,
  -- suite or case asked for, signals handled, a log file that opens if there is one, every switch
  -- to a case succeeding, names that a context takes and that are short enough for the prefix, and
  -- times printed on one line, the program writes a file that reads back as the entries of its
  -- statistics, in order and with nothing else. These have one entry for each suite, in order, with
  -- its verdict, its assertions and its cases, each with its result, as the tests' code gives them,
  -- and the numbers of cases that passed, that did not and that faulted, modulo 2 ^ 32; and the
  -- status is 0 exactly if every case passed.
  pub tinu_main-filed :
      (name : Str) (suites : Suites)
      → Files can_open can_create options own name
      → All SuiteNamed suites
      → ((a b : ℕ) → IsOneLine (show_time a b))
      → let modules = all_modules show_quotient show_time can_create pass_name suites own [] in
        (stat : TestStatistics) × (file : Str) × (tinu_main clock code leaked true
            (some suites)
            modules
            can_open
            (some options)
          ≡ ok (record {
            status = status_of clock code leaked modules can_open options suites;
            report = some (filed file);
          }))
        × (read file ≡ map as_pair (stat_entries show_time suites stat))
        × (stat.suite_info_list ≡ suite_infos clock code leaked options.leakwatch 0 0 suites)
        × Counted stat_new stat
            (count_suites code leaked options.leakwatch is_passed suites)
            (count_suites code leaked options.leakwatch is_failed suites)
            (count_suites code leaked options.leakwatch is_fault suites)
  unfolding stat_new
  tinu_main-filed name suites h named timed =
      let modules = all_modules show_quotient show_time can_create pass_name suites own [] in
      let m = g_report_file_module show_quotient show_time can_create pass_name suites own in
      let runs =
        Files-Runs show_quotient show_time can_open can_create pass_name options own name h
          suites in
      let self = context_for clock code leaked modules can_open options suites (some m) in
      let hooked = hooks_wanted clock code leaked modules can_open options m h.counted in
      let idle = stat_new_idle clock code leaked modules can_open options in
      let (stat, run, listed, kept, counted) =
        all_run-suite_infos code leaked clock self stat_new h.handles hooked idle in
      let fits : All (SuiteFits suites) stat.suite_info_list =
        subst (All (SuiteFits suites)) (sym listed) (
          suite_infos-SuiteFits clock code leaked options.leakwatch suites 0 0 [] suites refl refl
            named) in
      let (file, put, reads) =
        read-put_file show_time suites timed stat fits (ap (λ xs. length xs) kept) in
      (
        stat,
        file,
        tinu_main-handle clock code leaked modules can_open options suites m stat runs h.counted run
            ∙ bind_cong
                (handle-put_file show_quotient show_time can_open can_create pass_name options own
                  name h suites stat file options.stat_verb options.fancy put)
                (λ q. refl),
        reads,
        listed,
        counted,
      )
