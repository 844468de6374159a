-- ===== src/Main/Settings.antt =====
-- The variables of lib/main.c that the options set, and the table of the options. What GOption
-- finds on the command line is a list of settings, one for each option given, in their order.
use tinu.Prelude.{ℕ, true, false, Option, none, some, List, [], ◌∷◌, ℤ, pos, negsuc, Str, bytes}
use tinu.Reporting.{stat_verb_summary}
use tinu.Main.{Options}
use tinu.Main.Callbacks.{opt_priority, opt_stat_verb}

-- LOG_WARNING of syslog.h
abbrev log_warning : ℕ
log_warning = 4

-- The variables when the program starts.
abbrev pub default_options : Options
default_options = record {
  fancy = false;
  silent = false;
  syslog = false;
  priority = log_warning;
  sighandle = true;
  leakwatch = false;
  version = false;
  stat_verb = stat_verb_summary;
  suite = none;
  test_case = none;
  file = none;
  report = some (bytes "print");
}

-- An entry of `g_main_opt_entries` that is given, with its value. The entry of `no-report` has no
-- flag that says that its callback takes no value.
pub data Setting : Type 0 where
  fancy_log silent syslog leakwatch no_sighandle version : Setting
  file log_level results suite test_case report no_report : Str → Setting

-- `_tinu_opt_report_null`
unfoldable pub opt_report_null : Str → Options → Option Options
opt_report_null value options = some (record options { report = none })

-- A level that a callback gives; the variables hold no negative one.
unfoldable pub set_level : Option ℤ → (ℕ → Options) → Option Options
set_level none store = none
set_level (some (pos n)) store = some (store n)
set_level (some (negsuc n)) store = none

-- What the setting makes of the variables; `none` is an error that ends the reading.
unfoldable pub set_option : Setting → Options → Option Options
unfolding set_level opt_report_null
set_option fancy_log options = some (record options { fancy = true })
set_option silent options = some (record options { silent = true })
set_option syslog options = some (record options { syslog = true })
set_option (file value) options = some (record options { file = some value })
set_option (log_level value) options =
    set_level (opt_priority value) (λ n. record options { priority = n })
set_option (results value) options =
    set_level (opt_stat_verb value) (λ n. record options { stat_verb = n })
set_option leakwatch options = some (record options { leakwatch = true })
set_option no_sighandle options = some (record options { sighandle = false })
set_option (suite value) options = some (record options { suite = some value })
set_option (test_case value) options = some (record options { test_case = some value })
set_option (report value) options = some (record options { report = some value })
set_option (no_report value) options = opt_report_null value options
set_option version options = some (record options { version = true })

-- `_tinu_options`: the settings one by one, up to the first error.
unfoldable pub read_options : List Setting → Options → Option Options
unfolding set_option
read_options [] options = some options
read_options (setting ∷ settings) options = elim (set_option setting options) [
  | none ↦ none
  | some options ↦ read_options settings options
]
