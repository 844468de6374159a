-- ===== src/Tests/Files.antt =====
-- A program of one suite with two cases that writes its report into a file.
use tinu.Prelude.{
  ℕ, ◌≡◌, refl, true, false, none, some, List, [], ◌∷◌, Str, bytes, map, zero, suc, ok, arith,
}
use tinu.Suites.{TestCase, TestSuite, Suites, test_validate_name}
use tinu.Runner.{Action, assertion, is_passed}
use tinu.Statistics.{TestStatistics, stat_new}
use tinu.Statistics.Counted.{Counted, is_fault}
use tinu.Statistics.Totals.{count_suites, is_failed}
use tinu.Statistics.Expected.{suite_infos}
use tinu.External.Entries.{stat_entries}
use tinu.External.Fitting.{SuiteNamed}
use tinu.External.Reader.{one_line, read, as_pair}
use tinu.Main.{Options, can_start, tinu_main, ReportModule}
use tinu.Main.Modules.{filed, ModuleOptions, Report, all_modules}
use tinu.Main.Whole.{status_of}
use tinu.Main.Filed.{Files, tinu_main-filed}

-- Function 2 fails.
abbrev code : ℕ → ℕ → List Action
code (suc (suc zero)) user_data = assertion false ∷ []
code _ user_data = assertion true ∷ []

abbrev case_of : ℕ → Str → TestCase
case_of function name = record {
  suite = 0;
  name = name;
  setup = 0;
  cleanup = 0;
  test = function;
  user_data = 0;
  user_data_cleanup = 0;
}

abbrev list_suite : TestSuite
list_suite = record {
  name = bytes "list";
  tests = case_of 1 (bytes "append") ∷ case_of 2 (bytes "cut") ∷ [];
}

abbrev suites : Suites
suites = list_suite ∷ []

abbrev options : Options
options = record {
  fancy = false;
  silent = false;
  syslog = false;
  priority = 4;
  sighandle = true;
  leakwatch = false;
  version = false;
  stat_verb = 1;
  suite = none;
  test_case = none;
  file = none;
  report = some (bytes "file");
}

abbrev own : ModuleOptions
own = record {
  stderr = false;
  program_name = none;
  program_template = bytes "cat %s";
  filename = some (bytes "out");
}

abbrev show_time : ℕ → ℕ → Str
show_time a b = bytes "0.5"

abbrev modules : List (ReportModule Report)
modules =
    all_modules (λ a b. bytes "2.00") show_time (λ name. true) (some (bytes "/tmp/x")) suites own []

asks_for_a_file : Files (λ name. false) (λ name. true) options own (bytes "out")
asks_for_a_file = record {
  runs = refl;
  handles = refl;
  all = refl;
  asked = refl;
  started = unfold can_start in refl;
  counted = refl;
  named = refl;
  creates = refl;
}

list_suite-SuiteNamed : SuiteNamed list_suite
list_suite-SuiteNamed = record {
  valid = unfold test_validate_name in refl;
  short = omega arith;
  cases = (
    record { valid = unfold test_validate_name in refl; short = omega arith },
    (record { valid = unfold test_validate_name in refl; short = omega arith }, tt),
  );
}

tinu_main-filed_example :
    (stat : TestStatistics) × (file : Str) × (tinu_main
        (λ n. n)
        code
        (λ p. 0)
        true
        (some suites)
        modules
        (λ name. false)
        (some options)
      ≡ ok (record {
        status = status_of (λ n. n) code (λ p. 0) modules (λ name. false) options suites;
        report = some (filed file);
      }))
    × (read file ≡ map as_pair (stat_entries show_time suites stat))
    × (stat.suite_info_list ≡ suite_infos (λ n. n) code (λ p. 0) false 0 0 suites)
    × Counted stat_new stat
        (count_suites code (λ p. 0) false is_passed suites)
        (count_suites code (λ p. 0) false is_failed suites)
        (count_suites code (λ p. 0) false is_fault suites)
tinu_main-filed_example =
    tinu_main-filed (λ a b. bytes "2.00") show_time (λ name. false) (λ name. true)
      (some (bytes "/tmp/x")) options own (λ n. n) code (λ p. 0) (bytes "out") suites
      asks_for_a_file (list_suite-SuiteNamed, tt) (λ a b. unfold one_line in refl)
