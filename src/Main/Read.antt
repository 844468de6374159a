-- ===== src/Main/Read.antt =====
-- What the options of lib/main.c come to, variable by variable.
use tinu.Prelude.{
  ℕ, ◌≤◌, ◌≡◌, refl, ap, Bool, true, false, ◌&&◌, ◌⊎◌, inl, inr, Option, none, some, List, [], ◌∷◌,
  ℤ, pos, negsuc, Str,
}
use tinu.Main.{Options}
use tinu.Main.Callbacks.{opt_priority, opt_stat_verb}
use tinu.Main.Settings.{
  Setting, fancy_log, silent, syslog, leakwatch, no_sighandle, version, file, log_level, results,
  suite, test_case, report, no_report, set_level, opt_report_null, set_option, read_options,
}
use tinu.Main.Ranges.{IsTaken, opt_priority-IsTaken, opt_stat_verb-IsTaken}

-- The value of the last setting for a variable, which was `a`.
unfoldable pub last_value : {A : Type 0} → (Setting → Option A) → List Setting → A → A
last_value pick [] a = a
last_value pick (setting ∷ settings) a =
    last_value pick settings (elim (pick setting) [ none ↦ a | some b ↦ b ])

abbrev level : Option ℤ → Option ℕ
level none = none
level (some (pos n)) = some n
level (some (negsuc n)) = none

-- What a setting says of each variable.
abbrev sets_fancy : Setting → Option Bool
sets_fancy fancy_log = some true
sets_fancy setting = none

abbrev sets_silent : Setting → Option Bool
sets_silent silent = some true
sets_silent setting = none

abbrev sets_syslog : Setting → Option Bool
sets_syslog syslog = some true
sets_syslog setting = none

abbrev sets_priority : Setting → Option ℕ
sets_priority (log_level v) = level (opt_priority v)
sets_priority setting = none

abbrev sets_sighandle : Setting → Option Bool
sets_sighandle no_sighandle = some false
sets_sighandle setting = none

abbrev sets_leakwatch : Setting → Option Bool
sets_leakwatch leakwatch = some true
sets_leakwatch setting = none

abbrev sets_version : Setting → Option Bool
sets_version version = some true
sets_version setting = none

abbrev sets_stat_verb : Setting → Option ℕ
sets_stat_verb (results v) = level (opt_stat_verb v)
sets_stat_verb setting = none

abbrev sets_suite : Setting → Option (Option Str)
sets_suite (suite v) = some (some v)
sets_suite setting = none

abbrev sets_test_case : Setting → Option (Option Str)
sets_test_case (test_case v) = some (some v)
sets_test_case setting = none

abbrev sets_file : Setting → Option (Option Str)
sets_file (file v) = some (some v)
sets_file setting = none

abbrev sets_report : Setting → Option (Option Str)
sets_report (report v) = some (some v)
sets_report (no_report v) = some none
sets_report setting = none

abbrev pub latest_options : List Setting → Options → Options
latest_options settings options = record {
  fancy = last_value sets_fancy settings options.fancy;
  silent = last_value sets_silent settings options.silent;
  syslog = last_value sets_syslog settings options.syslog;
  priority = last_value sets_priority settings options.priority;
  sighandle = last_value sets_sighandle settings options.sighandle;
  leakwatch = last_value sets_leakwatch settings options.leakwatch;
  version = last_value sets_version settings options.version;
  stat_verb = last_value sets_stat_verb settings options.stat_verb;
  suite = last_value sets_suite settings options.suite;
  test_case = last_value sets_test_case settings options.test_case;
  file = last_value sets_file settings options.file;
  report = last_value sets_report settings options.report;
}

abbrev given : {A : Type 0} → Option A → Bool
given none = false
given (some a) = true

-- Whether a callback takes the setting.
abbrev is_accepted : Setting → Bool
is_accepted (log_level v) = given (opt_priority v)
is_accepted (results v) = given (opt_stat_verb v)
is_accepted setting = true

unfoldable pub all_accepted : List Setting → Bool
all_accepted [] = true
all_accepted (setting ∷ settings) = is_accepted setting && all_accepted settings

-- The levels are those of the tables.
pub record IsRanged (options : Options) : Type 0 where
  pub priority_in_range : options.priority ≤ 7
  pub stat_verb_in_range : options.stat_verb ≤ 4

abbrev pub Reads : List Setting → Options → Type 0
Reads settings options =
    ((all_accepted settings ≡ false) × (read_options settings options ≡ none))
    ⊎ ((all_accepted settings ≡ true)
        × (read_options settings options ≡ some (latest_options settings options))
        × IsRanged (latest_options settings options))

-- A level is refused, or it is that of the callback.
level-cases :
    (top : ℕ) (found : Option ℤ)
    → IsTaken top found
    → (found ≡ none) ⊎ ((n : ℕ) × (found ≡ some (pos n)) × (n ≤ top))
level-cases top none set_ = inl refl
level-cases top (some z) (n, at, low) = inr (n, ap some at, low)

-- Reading the settings fails exactly if the level of one of them is refused. Otherwise every
-- variable has the value of the last setting for it, or keeps its own without one, and the priority
-- is from 0 to 7 and the verbosity from 0 to 4. This is for variables that have such levels before.
pub read_options-last_value :
    (settings : List Setting) (options : Options) → IsRanged options → Reads settings options
unfolding read_options set_option opt_report_null set_level last_value all_accepted
read_options-last_value [] options h = inr (
  refl,
  refl,
  record { priority_in_range = h.priority_in_range; stat_verb_in_range = h.stat_verb_in_range },
)
read_options-last_value (fancy_log ∷ settings) options h =
    read_options-last_value settings _ (record {
      priority_in_range = h.priority_in_range;
      stat_verb_in_range = h.stat_verb_in_range;
    })
read_options-last_value (silent ∷ settings) options h =
    read_options-last_value settings _ (record {
      priority_in_range = h.priority_in_range;
      stat_verb_in_range = h.stat_verb_in_range;
    })
read_options-last_value (syslog ∷ settings) options h =
    read_options-last_value settings _ (record {
      priority_in_range = h.priority_in_range;
      stat_verb_in_range = h.stat_verb_in_range;
    })
read_options-last_value (leakwatch ∷ settings) options h =
    read_options-last_value settings _ (record {
      priority_in_range = h.priority_in_range;
      stat_verb_in_range = h.stat_verb_in_range;
    })
read_options-last_value (no_sighandle ∷ settings) options h =
    read_options-last_value settings _ (record {
      priority_in_range = h.priority_in_range;
      stat_verb_in_range = h.stat_verb_in_range;
    })
read_options-last_value (version ∷ settings) options h =
    read_options-last_value settings _ (record {
      priority_in_range = h.priority_in_range;
      stat_verb_in_range = h.stat_verb_in_range;
    })
read_options-last_value (file v ∷ settings) options h =
    read_options-last_value settings _ (record {
      priority_in_range = h.priority_in_range;
      stat_verb_in_range = h.stat_verb_in_range;
    })
read_options-last_value (suite v ∷ settings) options h =
    read_options-last_value settings _ (record {
      priority_in_range = h.priority_in_range;
      stat_verb_in_range = h.stat_verb_in_range;
    })
read_options-last_value (test_case v ∷ settings) options h =
    read_options-last_value settings _ (record {
      priority_in_range = h.priority_in_range;
      stat_verb_in_range = h.stat_verb_in_range;
    })
read_options-last_value (report v ∷ settings) options h =
    read_options-last_value settings _ (record {
      priority_in_range = h.priority_in_range;
      stat_verb_in_range = h.stat_verb_in_range;
    })
read_options-last_value (no_report v ∷ settings) options h =
    read_options-last_value settings _ (record {
      priority_in_range = h.priority_in_range;
      stat_verb_in_range = h.stat_verb_in_range;
    })
read_options-last_value (log_level v ∷ settings) options h =
    elim (level-cases 7 (opt_priority v) (opt_priority-IsTaken v)) [
      | inl refused ↦ rw (read_options, refused) (inl (refl, refl))
      | inr (n, taken, low) ↦
          rw (read_options, taken)
            (read_options-last_value settings (record options { priority = n })
              (record { priority_in_range = low; stat_verb_in_range = h.stat_verb_in_range }))
    ]
read_options-last_value (results v ∷ settings) options h =
    elim (level-cases 4 (opt_stat_verb v) (opt_stat_verb-IsTaken v)) [
      | inl refused ↦ rw (read_options, refused) (inl (refl, refl))
      | inr (n, taken, low) ↦
          rw (read_options, taken)
            (read_options-last_value settings (record options { stat_verb = n })
              (record { priority_in_range = h.priority_in_range; stat_verb_in_range = low }))
    ]
