-- ===== src/Reporting.antt =====
-- lib/reporting.c and lib/tinu/reporting.h: the verbosities of a report. A C enumeration is its
-- number here.
use tinu.Prelude.{ℕ, [], ◌∷◌, pos, bytes}
use tinu.Names.{NameTable, entry}

-- StatisticsVerbosity
abbrev pub stat_verb_none : ℕ
stat_verb_none = 0

abbrev pub stat_verb_summary : ℕ
stat_verb_summary = 1

abbrev pub stat_verb_suites : ℕ
stat_verb_suites = 2

abbrev pub stat_verb_full : ℕ
stat_verb_full = 3

abbrev pub stat_verb_verbose : ℕ
stat_verb_verbose = 4

unfoldable pub statistics_verbosity_names : NameTable
statistics_verbosity_names =
    entry (pos 0) (bytes "none") 4
    ∷ entry (pos 1) (bytes "summary") 7
    ∷ entry (pos 2) (bytes "suites") 6
    ∷ entry (pos 3) (bytes "full") 4
    ∷ entry (pos 4) (bytes "verbose") 7
    ∷ []
