-- ===== src/Main/Modules.antt =====
-- The report modules of the framework, as lib/main.c adds them.
use tinu.Prelude.{ℕ, Bool, Option, some, List, Str, bytes, ok, ◌>>=◌}
use tinu.Suites.{Suites}
use tinu.External.{
  test_report_program, test_report_program_check, test_report_file, test_report_file_check,
}
use tinu.Standard.{test_report_print, test_report_print_check}
use tinu.Main.{ReportModule, tinu_report_add}

-- What a report comes to: a text for the terminal, a file with the command that is run on it, or
-- the text of the file that the options name.
pub data Report : Type 0 where
  printed : Str → Report
  passed_on : Str → Option Str → Report
  filed : Str → Report

-- What the options of the modules are set to: `g_opt_stderr`, `g_opt_program_name`,
-- `g_opt_program_template` and `g_opt_filename`.
pub record ModuleOptions : Type 0 where
  pub stderr : Bool
  pub program_name : Option Str
  pub program_template : Str
  pub filename : Option Str

-- `show_quotient` prints a quotient and `show_time` the time between two readings of the clock;
-- `can_create` says which files fopen creates, and `pass_name` is the name that g_mkstemp makes, if
-- it does.
module _ (show_quotient show_time : ℕ → ℕ → Str) (can_create : Str → Bool) (pass_name : Option Str)
    (suites : Suites) (own : ModuleOptions) where
  unfoldable pub g_report_print_module : ReportModule Report
  unfolding test_report_print test_report_print_check
  g_report_print_module = record {
    name = bytes "print";
    check = some (λ verbosity colour. (test_report_print_check own.stderr).0);
    handle = λ stat verbosity colour. do
      text ← test_report_print show_quotient suites stat verbosity colour
      ok (printed text);
  }

  unfoldable pub g_report_program_module : ReportModule Report
  unfolding test_report_program test_report_program_check
  g_report_program_module = record {
    name = bytes "program";
    check = some test_report_program_check;
    handle = λ stat verbosity colour. do
      (file, command) ←
          test_report_program show_time suites stat own.program_name own.program_template pass_name
      ok (passed_on file command);
  }

  -- The check opens the file that the report goes to.
  unfoldable pub g_report_file_module : ReportModule Report
  unfolding test_report_file test_report_file_check
  g_report_file_module = record {
    name = bytes "file";
    check = some (λ verbosity colour. (test_report_file_check can_create own.filename).0);
    handle = λ stat verbosity colour. do
      text ←
          test_report_file show_time suites stat (test_report_file_check can_create own.filename).1
      ok (filed text);
  }

  -- The modules that `tinu_main` adds, behind those that the program added before.
  unfoldable pub all_modules : List (ReportModule Report) → List (ReportModule Report)
  unfolding g_report_print_module g_report_program_module g_report_file_module tinu_report_add
  all_modules modules =
      tinu_report_add
        (tinu_report_add (tinu_report_add modules g_report_print_module) g_report_program_module)
        g_report_file_module
