-- ===== src/Statistics/Life.antt =====
-- The life of the statistics (lib/statistics.c) on a context and the log.
use tinu.Prelude.{
  ◌≡◌, refl, ap₂, ◌∙◌, Bool, true, false, All, arith, replicate, Option, none, some, List, [], ◌∷◌,
  ◌++◌, ℕ, Outcome, ◌>>=◌,
}
use tinu.Log.{Log, MessageHandler, log_register_message_handler, log_unregister_message_handler}
use tinu.Message.Priority.{log_debug}
use tinu.Runner.{
  Event, TestContext, TestHookEntry, TestHookId, hook_assert, hook_signal_abort,
  hook_signal_segfault, hook_before_test, hook_after_test, hook_before_suite, hook_after_suite,
  hook_leakinfo,
}
use tinu.Runner.Unregister.{unregister_loop, loop-last}
use tinu.Runner.Hooks.{is_hook, test_register_multiple_hooks, test_unregister_multiple_hooks}
use tinu.Statistics.{TestStatistics, stat_message_counter, stat_hook}

-- The statistics are the world; a failed one stays.
abbrev pub World : Type 0
World = Outcome TestStatistics

abbrev pub counting : MessageHandler World
counting msg user_data w = (w >>= stat_message_counter msg, true)

module _ (clock : ℕ → ℕ) where
  -- `g_stat_hooks`
  unfoldable pub g_stat_hooks : TestHookId → Option (Event → ℕ → World → World)
  unfolding stat_hook
  g_stat_hooks hook_signal_abort = none
  g_stat_hooks hook_signal_segfault = none
  g_stat_hooks id = some (λ event user_data s. s >>= stat_hook clock event)

  -- `stat_start`; `self` is the address of the statistics and `fresh` that of the log's entry. The
  -- handle that is kept is `none` if the log is diverted.
  unfoldable pub stat_start :
      ℕ → ℕ → TestContext World → Log World → (TestContext World × Log World) × Option ℕ
  unfolding g_stat_hooks test_register_multiple_hooks log_register_message_handler
  stat_start self fresh context log =
      let (handle, log) = log_register_message_handler fresh counting log_debug self log in
      ((test_register_multiple_hooks g_stat_hooks self context, log), handle)

  -- `same` compares two pointers to hooks. The entries of hooks that `stat_stop` frees come with
  -- the handle that is kept.
  module _ (same : (Event → ℕ → World → World) → (Event → ℕ → World → World) → Bool) where
    unfoldable pub stat_stop :
        ℕ
        → Option ℕ
        → TestContext World
        → Log World
        → (TestContext World × Log World) × (Option ℕ × List (TestHookEntry World))
    unfolding g_stat_hooks test_unregister_multiple_hooks log_unregister_message_handler
    stat_stop self log_handle context log =
        let (freed, context) = test_unregister_multiple_hooks same g_stat_hooks self context in
        elim log_handle [
          | none ↦ ((context, log), (none, freed))
          | some handle ↦ ((context, log_unregister_message_handler handle log), (none, freed))
        ]

    -- `stat_destroy`, but for the memory of the statistics.
    unfoldable pub stat_destroy :
        ℕ
        → Option ℕ
        → TestContext World
        → Log World
        → (TestContext World × Log World) × (Option ℕ × List (TestHookEntry World))
    unfolding stat_stop
    stat_destroy self log_handle context log = stat_stop self log_handle context log

  -- What the statistics do in every hook that they register.
  abbrev pub counting_hook : Event → ℕ → World → World
  counting_hook event user_data s = s >>= stat_hook clock event

  abbrev pub own : ℕ → TestHookEntry World
  own self = record { hook = some counting_hook; user_data = self }

  -- The hooks of a context while the statistics run, and behind them: those of the signals stay as
  -- they were.
  abbrev pub running :
      ℕ → (TestHookId → List (TestHookEntry World)) → TestHookId → List (TestHookEntry World)
  running self hooks hook_assert = hooks hook_assert ++ own self ∷ []
  running self hooks hook_signal_abort = hooks hook_signal_abort
  running self hooks hook_signal_segfault = hooks hook_signal_segfault
  running self hooks hook_before_test = hooks hook_before_test ++ own self ∷ []
  running self hooks hook_after_test = hooks hook_after_test ++ own self ∷ []
  running self hooks hook_before_suite = hooks hook_before_suite ++ own self ∷ []
  running self hooks hook_after_suite = hooks hook_after_suite ++ own self ∷ []
  running self hooks hook_leakinfo = hooks hook_leakinfo ++ own self ∷ []

  abbrev pub emptied :
      (TestHookId → List (TestHookEntry World)) → TestHookId → List (TestHookEntry World)
  emptied hooks hook_assert = []
  emptied hooks hook_signal_abort = hooks hook_signal_abort
  emptied hooks hook_signal_segfault = hooks hook_signal_segfault
  emptied hooks hook_before_test = []
  emptied hooks hook_after_test = []
  emptied hooks hook_before_suite = []
  emptied hooks hook_after_suite = []
  emptied hooks hook_leakinfo = []

  start-hooks :
      (self fresh : ℕ) (context : TestContext World) (log : Log World) (id : TestHookId)
      → (stat_start self fresh context log).0.0.hooks id ≡ running self context.hooks id
  unfolding stat_start
  start-hooks self fresh context log hook_assert = refl
  start-hooks self fresh context log hook_signal_abort = refl
  start-hooks self fresh context log hook_signal_segfault = refl
  start-hooks self fresh context log hook_before_test = refl
  start-hooks self fresh context log hook_after_test = refl
  start-hooks self fresh context log hook_before_suite = refl
  start-hooks self fresh context log hook_after_suite = refl
  start-hooks self fresh context log hook_leakinfo = refl

  emptied-running :
      (self fresh : ℕ) (context : TestContext World) (log : Log World) (id : TestHookId)
      → emptied (stat_start self fresh context log).0.0.hooks id ≡ emptied context.hooks id
  unfolding stat_start
  emptied-running self fresh context log hook_assert = refl
  emptied-running self fresh context log hook_signal_abort = refl
  emptied-running self fresh context log hook_signal_segfault = refl
  emptied-running self fresh context log hook_before_test = refl
  emptied-running self fresh context log hook_after_test = refl
  emptied-running self fresh context log hook_before_suite = refl
  emptied-running self fresh context log hook_after_suite = refl
  emptied-running self fresh context log hook_leakinfo = refl

  module _ (same : (Event → ℕ → World → World) → (Event → ℕ → World → World) → Bool) where
    stop-hooks :
        (self : ℕ) (handle : Option ℕ) (context : TestContext World) (log : Log World)
        (id : TestHookId)
        → (stat_stop same self handle context log).0.0.hooks id ≡ emptied context.hooks id
    unfolding stat_stop
    stop-hooks self none context log hook_assert = refl
    stop-hooks self none context log hook_signal_abort = refl
    stop-hooks self none context log hook_signal_segfault = refl
    stop-hooks self none context log hook_before_test = refl
    stop-hooks self none context log hook_after_test = refl
    stop-hooks self none context log hook_before_suite = refl
    stop-hooks self none context log hook_after_suite = refl
    stop-hooks self none context log hook_leakinfo = refl
    stop-hooks self (some h) context log hook_assert = refl
    stop-hooks self (some h) context log hook_signal_abort = refl
    stop-hooks self (some h) context log hook_signal_segfault = refl
    stop-hooks self (some h) context log hook_before_test = refl
    stop-hooks self (some h) context log hook_after_test = refl
    stop-hooks self (some h) context log hook_before_suite = refl
    stop-hooks self (some h) context log hook_after_suite = refl
    stop-hooks self (some h) context log hook_leakinfo = refl

    -- No entry of a context is the own one.
    abbrev pub IsApart : ℕ → TestContext World → Type 0
    IsApart self context =
        (id : TestHookId) → All (λ e. is_hook same counting_hook self e ≡ false) (context.hooks id)

    module _ (self fresh : ℕ) (context : TestContext World) (log : Log World)
        (known : same counting_hook counting_hook ≡ true) (apart : IsApart self context) where
      own-is_hook : is_hook same counting_hook self (own self) ≡ true
      unfolding is_hook
      own-is_hook = ground (arith, known)

      frees :
          (id : TestHookId)
          → unregister_loop (is_hook same counting_hook self) (context.hooks id ++ own self ∷ [])
            ≡ own self ∷ []
      frees id =
          loop-last (is_hook same counting_hook self) (context.hooks id) (own self) (apart id)
            own-is_hook

      stop-freed :
          (handle : Option ℕ) (log' : Log World)
          → (stat_stop same self handle (stat_start self fresh context log).0.0 log').1.1
            ≡ replicate 6 (own self)
      unfolding stat_stop stat_start
      stop-freed none log' = ap₂ ◌++◌ (frees hook_assert) (
          ap₂ ◌++◌ (frees hook_before_test) (
            ap₂ ◌++◌ (frees hook_after_test) (
              ap₂ ◌++◌ (frees hook_before_suite)
                (ap₂ ◌++◌ (frees hook_after_suite) (ap₂ ◌++◌ (frees hook_leakinfo) (refl))))))
      stop-freed (some h) log' = ap₂ ◌++◌ (frees hook_assert) (
          ap₂ ◌++◌ (frees hook_before_test) (
            ap₂ ◌++◌ (frees hook_after_test) (
              ap₂ ◌++◌ (frees hook_before_suite)
                (ap₂ ◌++◌ (frees hook_after_suite) (ap₂ ◌++◌ (frees hook_leakinfo) (refl))))))

    -- A second stop finds empty lists and no handle.
    destroy-hooks :
        (self : ℕ) (handle : Option ℕ) (context : TestContext World) (log : Log World)
        (id : TestHookId)
        → let stopped = stat_stop same self handle context log in
          (stat_destroy same self stopped.1.0 stopped.0.0 stopped.0.1).0.0.hooks id
          ≡ stopped.0.0.hooks id
    unfolding stat_stop stat_destroy
    destroy-hooks self none context log hook_assert = refl
    destroy-hooks self none context log hook_signal_abort = refl
    destroy-hooks self none context log hook_signal_segfault = refl
    destroy-hooks self none context log hook_before_test = refl
    destroy-hooks self none context log hook_after_test = refl
    destroy-hooks self none context log hook_before_suite = refl
    destroy-hooks self none context log hook_after_suite = refl
    destroy-hooks self none context log hook_leakinfo = refl
    destroy-hooks self (some h) context log hook_assert = refl
    destroy-hooks self (some h) context log hook_signal_abort = refl
    destroy-hooks self (some h) context log hook_signal_segfault = refl
    destroy-hooks self (some h) context log hook_before_test = refl
    destroy-hooks self (some h) context log hook_after_test = refl
    destroy-hooks self (some h) context log hook_before_suite = refl
    destroy-hooks self (some h) context log hook_after_suite = refl
    destroy-hooks self (some h) context log hook_leakinfo = refl

    destroy-rest :
        (self : ℕ) (handle : Option ℕ) (context : TestContext World) (log : Log World)
        → let stopped = stat_stop same self handle context log in
          let destroyed = stat_destroy same self stopped.1.0 stopped.0.0 stopped.0.1 in
          (destroyed.1.1 ≡ []) × (destroyed.0.1 ≡ stopped.0.1)
    unfolding stat_stop stat_destroy
    destroy-rest self none context log = (refl, refl)
    destroy-rest self (some h) context log = (refl, refl)

    -- Starting the statistics puts their entry, which feeds them with each event, behind those of
    -- every list of hooks but the two of the signals. Stopping them frees these six entries and no
    -- other, but leaves each of the six lists empty, so that the entries of others in it are lost;
    -- the lists of the signals stay. Destroying them, which stops them again, frees no entry and
    -- changes no list and not the log. This is where no entry of the context is their own before,
    -- and the pointer to their hook equals itself.
    pub stat_stop-stat_start :
        (self fresh : ℕ) (context : TestContext World) (log : Log World) (id : TestHookId)
        → same counting_hook counting_hook ≡ true
        → IsApart self context
        → let started = stat_start self fresh context log in
          let stopped = stat_stop same self started.1 started.0.0 started.0.1 in
          let destroyed = stat_destroy same self stopped.1.0 stopped.0.0 stopped.0.1 in
          (started.0.0.hooks id ≡ running self context.hooks id)
          × (stopped.0.0.hooks id ≡ emptied context.hooks id)
          × (stopped.1.1 ≡ replicate 6 (own self))
          × (destroyed.0.0.hooks id ≡ stopped.0.0.hooks id)
          × (destroyed.1.1 ≡ [])
          × (destroyed.0.1 ≡ stopped.0.1)
    stat_stop-stat_start self fresh context log id known apart =
        let started = stat_start self fresh context log in
        let rest = destroy-rest self started.1 started.0.0 started.0.1 in
        (
          start-hooks self fresh context log id,
          stop-hooks self started.1 started.0.0 started.0.1 id
              ∙ emptied-running self fresh context log id,
          stop-freed self fresh context log known apart started.1 started.0.1,
          destroy-hooks self started.1 started.0.0 started.0.1 id,
          rest.0,
          rest.1,
        )
