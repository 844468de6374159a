-- ===== src/Tests/Programs.antt =====
-- A program of one suite with two cases, run with and without a report, and its options.
use tinu.Prelude.{
  ℕ, zero, suc, ◌+◌, ◌^◌, ◌%◌, ◌≡◌, refl, Bool, true, false, Option, none, some, List, [], ◌∷◌, pos,
  Str, bytes, length, str_eq, strn_eq, leb, if◌then◌else◌, show_nat, scan_digits, ok, arith,
}
use mathlib.Core.Option
use tinu.Names.{tinu_lookup_name}
use tinu.Message.Priority.{msg_get_priority_value}
use tinu.Suites.{TestCase, Suites, test_validate_name}
use tinu.Suites.Finding.{find_case, functions}
use tinu.Runner.{Action, assertion}
use tinu.Main.{TinuMetaInfo, tinu_use_metainfo, Options, ReportModule, choose_report, can_start}
use tinu.Main.Callbacks.{strtoul, opt_priority, opt_stat_verb}
use tinu.Main.Settings.{Setting, fancy_log, log_level, no_report, default_options, read_options}
use tinu.Main.Read.{Reads, read_options-last_value}
use tinu.Log.{initial}
use tinu.Main.Logging.{Handlers, Addresses, start_log, wanted, bound_of, start_log-wanted}
use tinu.Main.Levels.{level-show_nat}
use tinu.Main.Meta.{latest, suites_of, use_metainfo-latest}
use tinu.Main.Whole.{Runs}

-- Function 2 fails.
abbrev code : ℕ → ℕ → List Action
code (suc (suc zero)) user_data = assertion false ∷ []
code _ user_data = assertion true ∷ []

abbrev case_of : ℕ → TestCase
case_of function = record {
  suite = 0;
  name = bytes "case";
  setup = 0;
  cleanup = 0;
  test = function;
  user_data = 0;
  user_data_cleanup = 0;
}

abbrev suites : Suites
suites = record { name = bytes "list"; tests = case_of 1 ∷ case_of 2 ∷ [] } ∷ []

-- A report of the number of failures.
abbrev failures : ReportModule ℕ
failures = record {
  name = bytes "failures";
  check = none;
  handle = λ stat verbosity fancy. ok stat.failed;
}

abbrev options : Option Str → Options
options report = record {
  fancy = false;
  silent = false;
  syslog = true;
  priority = 4;
  sighandle = true;
  leakwatch = false;
  version = false;
  stat_verb = 1;
  suite = none;
  test_case = none;
  file = none;
  report = report;
}

abbrev no_files : Str → Bool
no_files name = false

with_report : Runs (failures ∷ []) no_files (options (some (bytes "failures"))) (some failures)
with_report = record {
  runs = refl;
  handles = refl;
  all = refl;
  chosen = unfold choose_report str_eq in refl;
  started = unfold can_start in refl;
}

-- 2 ^ 32 + 3 is taken for the priority 3, and refused as a verbosity.
level-show_nat_example :
    (opt_priority (show_nat (2 ^ 32 + 3))
      ≡ (if leb ((2 ^ 32 + 3) % 2 ^ 32) 7 then some (pos ((2 ^ 32 + 3) % 2 ^ 32)) else none))
    × (opt_stat_verb (show_nat (2 ^ 32 + 3))
        ≡ (if leb (2 ^ 32 + 3) 4 then some (pos (2 ^ 32 + 3)) else none))
level-show_nat_example = level-show_nat (2 ^ 32 + 3) (omega arith)

-- An empty text is the number 0.
empty_is_zero : opt_priority [] ≡ some (pos 0)
unfolding opt_priority strtoul msg_get_priority_value tinu_lookup_name strn_eq
empty_is_zero = refl

abbrev info : Str → ℕ → TinuMetaInfo
info test function = record {
  suite = bytes "list";
  test = test;
  functions = record { setup = 0; cleanup = 0; test = function };
}

use_metainfo-latest_example :
    (context : Option Suites) × (tinu_use_metainfo
        (info (bytes "append") 4 ∷ info (bytes "append") 5 ∷ [])
        none
      ≡ ok context)
    × ((s t : Str)
        → Option.map functions (find_case (suites_of context) s t)
          ≡ latest
              (info (bytes "append") 4 ∷ info (bytes "append") 5 ∷ [])
              s
              t
              (Option.map functions (find_case [] s t)))
use_metainfo-latest_example =
    use_metainfo-latest (info (bytes "append") 4 ∷ info (bytes "append") 5 ∷ []) none (
      (unfold test_validate_name in refl, unfold test_validate_name in refl),
      ((unfold test_validate_name in refl, unfold test_validate_name in refl), tt),
    )

-- A world that notes who was called, newest first.
abbrev noting : Handlers (List ℕ)
noting = record {
  stderr = λ msg user_data w. (0 ∷ w, true);
  fancy_stderr = λ msg user_data w. (1 ∷ w, true);
  syslog = λ msg user_data w. (2 ∷ w, true);
  file = λ msg user_data w. (3 ∷ w, true);
  open_file = 9;
  counter = λ msg user_data w. (4 ∷ w, true);
  statistics = 20;
}

abbrev fresh : Addresses
fresh = record { watch_ = 10; stderr = 11; syslog = 12; file = 13; counter = 14 }

start_log-wanted_example : start_log noting fresh true (options none) initial ≡ record {
  handlers = wanted noting fresh true (options none);
  max_priority = bound_of noting fresh true (options none);
  divert_handler = none;
  divert_user_data = 0;
}
start_log-wanted_example =
    start_log-wanted noting fresh true (options none) (ground arith) (omega arith)

three_handlers : length (wanted noting fresh true (options none)) ≡ 3
unfolding wanted
three_handlers = refl

-- `--fancy-log --log-level=... --no-report=now`
abbrev settings_with : Str → List Setting
settings_with priority = fancy_log ∷ log_level priority ∷ no_report (bytes "now") ∷ []

read_options-last_value_example : Reads (settings_with (bytes "debug")) default_options
read_options-last_value_example =
    read_options-last_value (settings_with (bytes "debug")) default_options
      (record { priority_in_range = omega arith; stat_verb_in_range = omega arith })

debug_options :
    read_options (settings_with (bytes "debug")) default_options
    ≡ some (record default_options { fancy = true; priority = 7; report = none })
unfolding read_options opt_priority strtoul msg_get_priority_value tinu_lookup_name strn_eq
debug_options = refl

eight_is_refused : read_options (settings_with (bytes "8")) default_options ≡ none
unfolding read_options opt_priority strtoul msg_get_priority_value tinu_lookup_name strn_eq
    scan_digits
eight_is_refused = refl
