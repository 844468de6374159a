-- ===== src/Main.antt =====
-- lib/main.c and lib/meta.c: the program that runs the tests. What GOption makes of the command
-- line is an argument, and so are the calls of the C library.
pub mod Callbacks
pub mod Levels
pub mod Meta
pub mod Settings
pub mod Ranges
pub mod Read
pub mod Logging
pub mod Modules
pub mod Whole
pub mod Filed
use tinu.Prelude.{
  ℕ, Bool, true, false, ◌&&◌, not, Option, none, some, List, [], ◌∷◌, ◌++◌, Str, bytes, str_eq, ltb,
  if◌then◌else◌, Outcome, ok, crash, ◌>>=◌, deref,
}
use tinu.Suites.{Suites, TestFunctions, test_add_extended}
use tinu.Runner.{
  CasePtr, Action, TestContext, TestHookId, TestHookEntry, tinu_test_all_run, tinu_test_suite_run,
  tinu_test_case_run,
}
use tinu.Runner.Simple.{Wrappers, test_add}
use tinu.Statistics.{TestStatistics, stat_new, stat_hooks}
use tinu.Reporting.{stat_verb_none}

-- What the options are set to.
pub record Options : Type 0 where
  pub fancy : Bool
  pub silent : Bool
  pub syslog : Bool
  pub priority : ℕ
  pub sighandle : Bool
  pub leakwatch : Bool
  pub version : Bool
  pub stat_verb : ℕ
  pub suite : Option Str
  pub test_case : Option Str
  pub file : Option Str
  pub report : Option Str

-- ReportModule, without its options; `R` is what a report comes to.
pub record ReportModule (R : Type 0) : Type 0 where
  pub name : Str
  pub check : Option (ℕ → Bool → Bool)
  pub handle : TestStatistics → ℕ → Bool → Outcome R

-- The exit status, and the report if one was made.
pub record Exit (R : Type 0) : Type 0 where
  pub status : ℕ
  pub report : Option R

-- The context is made when the first test is added: until then it is `none`.
unfoldable pub tinu_test_add_extended :
    Option Suites → Str → Str → TestFunctions → ℕ → ℕ → Outcome (Option Suites)
unfolding test_add_extended
tinu_test_add_extended context suite_name test_name f user_data user_data_cleanup = do
  let suites : Suites = elim context [ none ↦ [] | some suites ↦ suites ]
  suites ← test_add_extended suites suite_name test_name f user_data user_data_cleanup
  ok (some suites)

-- The same for a test whose functions take no context; `heap` is that of `test_add`.
unfoldable pub tinu_test_add :
    Wrappers
    → ℕ
    → ℕ
    → Option Suites
    → List (ℕ × TestFunctions)
    → Str
    → Str
    → TestFunctions
    → Outcome (Option Suites × List (ℕ × TestFunctions))
unfolding test_add
tinu_test_add wrappers g_free fresh context heap suite_name test_name functions = do
  let suites : Suites = elim context [ none ↦ [] | some suites ↦ suites ]
  (suites, heap) ← test_add wrappers g_free fresh suites heap suite_name test_name functions
  ok (some suites, heap)

-- TinuMetaInfo (lib/tinu/meta.h)
pub record TinuMetaInfo : Type 0 where
  pub suite : Str
  pub test : Str
  pub functions : TestFunctions

-- `tinu_use_metainfo` (lib/meta.c); the entry without a suite is the end of the list.
unfoldable pub tinu_use_metainfo : List TinuMetaInfo → Option Suites → Outcome (Option Suites)
unfolding tinu_test_add_extended
tinu_use_metainfo [] context = ok context
tinu_use_metainfo (info ∷ metainfo) context = do
  context ← tinu_test_add_extended context info.suite info.test info.functions 0 0
  tinu_use_metainfo metainfo context

module _ {R : Type 0} where
  unfoldable pub tinu_report_add : List (ReportModule R) → ReportModule R → List (ReportModule R)
  tinu_report_add modules module_ = modules ++ module_ ∷ []

  -- `_tinu_test_find_module`
  unfoldable pub find_module : List (ReportModule R) → Str → Option (ReportModule R)
  find_module [] name = none
  find_module (m ∷ modules) name =
      let rest = find_module modules name in if str_eq m.name name then some m else rest

  -- Whether the module of the report takes the options.
  unfoldable pub check_passes : ReportModule R → Options → Bool
  check_passes m options = elim m.check [
    | none ↦ true
    | some check ↦ check options.stat_verb options.fancy
  ]

  -- The report module of the options; `none` is an early return of `tinu_main`.
  unfoldable pub choose_report : List (ReportModule R) → Options → Option (Option (ReportModule R))
  unfolding find_module check_passes
  choose_report modules options = elim options.report [
    | none ↦ some none
    | some name ↦ elim (find_module modules name) [
      | none ↦ none
      | some m ↦ if check_passes m options then some (some m) else none
    ]
  ]

-- The early returns behind it: the log file cannot be opened, or a case is given without a suite.
unfoldable pub can_start : (Str → Bool) → Options → Bool
can_start can_open options =
    (elim options.file [ none ↦ true | some name ↦ can_open name ]) && (elim options.test_case [
      | none ↦ true
      | some case ↦ elim options.suite [ none ↦ false | some suite ↦ true ]
    ])

-- Whether statistics are made.
unfoldable pub wants_stat : {R : Type 0} → Option (ReportModule R) → ℕ → Bool
wants_stat none verbosity = false
wants_stat (some m) verbosity = ltb stat_verb_none verbosity

-- The hooks of a context behind `test_context_init`, and behind `stat_start` on it.
unfoldable pub hooks_for :
    (ℕ → ℕ) → Bool → TestHookId → List (TestHookEntry (Outcome TestStatistics))
hooks_for clock true = stat_hooks clock
hooks_for clock false = λ id. []

module _ (code : ℕ → ℕ → List Action) (leaked : CasePtr → ℕ) (switched : Bool) where
  -- The choice between a case, a suite and all suites.
  unfoldable pub run_selected :
      TestContext (Outcome TestStatistics) → Options → Outcome (Outcome TestStatistics × Bool)
  run_selected self options = elim options.suite [
    | none ↦ tinu_test_all_run code leaked switched self (ok stat_new)
    | some suite ↦ elim options.test_case [
      | some case ↦ tinu_test_case_run code leaked switched self suite case (ok stat_new)
      | none ↦ tinu_test_suite_run code leaked switched self suite (ok stat_new)
    ]
  ]

module _ {R : Type 0} where
  -- The report behind the run; without statistics `stat_stop` reads through NULL.
  unfoldable pub make_report :
      Option (ReportModule R) → Options → Outcome TestStatistics → Outcome (Option R)
  unfolding wants_stat
  make_report none options world = ok none
  make_report (some m) options world =
      if not (wants_stat (some m) options.stat_verb) then crash else (do
        stat ← world
        report ← m.handle stat options.stat_verb options.fancy
        ok (some report))

module _ {R : Type 0} (clock : ℕ → ℕ) (code : ℕ → ℕ → List Action) (leaked : CasePtr → ℕ)
    (switched : Bool) where
  -- Running the tests once the options are in order; a context that was never made has no array
  -- of suites.
  unfoldable pub run_and_report :
      Option Suites → Option (ReportModule R) → Options → Outcome (Exit R)
  unfolding hooks_for run_selected make_report wants_stat
  run_and_report context report options = do
    suites ← deref context
    let self : TestContext (Outcome TestStatistics) = record {
      suites = suites;
      sighandle = options.sighandle;
      leakwatch = options.leakwatch;
      hooks = hooks_for clock (wants_stat report options.stat_verb);
    }
    (world, res) ← run_selected code leaked switched self options
    made ← make_report report options world
    ok (record { status = if res then 0 else 1; report = made })

  -- `tinu_main`, but for its calls on the log (Main/Logging) and for what it frees; `parsed` is
  -- `none` if GOption fails. `--version` ends in `exit(1)`.
  unfoldable pub tinu_main :
      Option Suites → List (ReportModule R) → (Str → Bool) → Option Options → Outcome (Exit R)
  unfolding choose_report can_start run_and_report
  tinu_main context modules can_open parsed =
      let refused : Exit R = record { status = 1; report = none } in
      elim parsed [
        | none ↦ ok refused
        | some options ↦
            if options.version then ok refused else elim (choose_report modules options) [
              | none ↦ ok refused
              | some report ↦
                  if can_start can_open options
                  then run_and_report context report options
                  else ok refused
            ]
      ]
