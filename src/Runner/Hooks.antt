-- ===== src/Runner/Hooks.antt =====
-- The hooks of a context (lib/test.c). A `TestHookCb *` array is a function from the hooks.
use tinu.Prelude.{
  false, Bool, ◌&&◌, ◌||◌, ◌==◌, Option, none, some, List, [], ◌∷◌, ◌++◌, ℕ, int_eq, if◌then◌else◌,
}
use tinu.Runner.{
  Event, TestContext, TestHookEntry, TestHookId, hook_assert, hook_signal_abort,
  hook_signal_segfault, hook_before_test, hook_after_test, hook_before_suite, hook_after_suite,
  hook_leakinfo,
}
use tinu.Runner.Labels.{hook_number}
use tinu.Runner.Unregister.{unregister_loop}

-- The hooks below TEST_HOOK_MAX, in order.
abbrev pub all_hooks : List TestHookId
all_hooks =
    hook_assert ∷ hook_signal_abort ∷ hook_signal_segfault ∷ hook_before_test ∷ hook_after_test
    ∷ hook_before_suite ∷ hook_after_suite ∷ hook_leakinfo ∷ []

module _ {W : Type 0} where
  -- The list of one hook is changed.
  unfoldable pub change_hook :
      TestHookId → (List (TestHookEntry W) → List (TestHookEntry W)) → TestContext W → TestContext W
  unfolding hook_number
  change_hook hook_id f self = record self {
    hooks = λ id.
        if int_eq (hook_number id) (hook_number hook_id) then f (self.hooks id) else self.hooks id;
  }

  -- `test_context_init`; the other fields of a global context are 0.
  unfoldable pub test_context_init : TestContext W
  test_context_init = record { suites = []; sighandle = false; leakwatch = false; hooks = λ id. [] }

  -- For a hook below TEST_HOOK_MAX.
  unfoldable pub test_register_hook :
      TestHookId → Option (Event → ℕ → W → W) → ℕ → TestContext W → TestContext W
  unfolding change_hook
  test_register_hook hook_id hook user_data self =
      change_hook hook_id (λ es. es ++ record { hook = hook; user_data = user_data } ∷ []) self

  -- With TEST_HOOK_ALL.
  unfoldable pub register_all :
      List TestHookId → Option (Event → ℕ → W → W) → ℕ → TestContext W → TestContext W
  unfolding test_register_hook
  register_all [] hook user_data self = self
  register_all (id ∷ ids) hook user_data self =
      register_all ids hook user_data (test_register_hook id hook user_data self)

  -- The loop of `test_register_multiple_hooks`.
  unfoldable pub register_each :
      List TestHookId
      → (TestHookId → Option (Event → ℕ → W → W))
      → ℕ
      → TestContext W
      → TestContext W
  unfolding test_register_hook
  register_each [] hooks user_data self = self
  register_each (id ∷ ids) hooks user_data self = elim (hooks id) [
    | none ↦ register_each ids hooks user_data self
    | some hook ↦
        register_each ids hooks user_data (test_register_hook id (some hook) user_data self)
  ]

  unfoldable pub test_register_multiple_hooks :
      (TestHookId → Option (Event → ℕ → W → W)) → ℕ → TestContext W → TestContext W
  unfolding register_each
  test_register_multiple_hooks hooks user_data self = register_each all_hooks hooks user_data self

  -- Whether the loop of `test_unregister_hook` frees the entry; `same` compares two pointers to
  -- hooks.
  unfoldable pub is_hook :
      ((Event → ℕ → W → W) → (Event → ℕ → W → W) → Bool)
      → (Event → ℕ → W → W)
      → ℕ
      → TestHookEntry W
      → Bool
  is_hook same hook user_data entry =
      (elim entry.hook [ none ↦ false | some other ↦ same hook other ])
      && (user_data == 0 || entry.user_data == user_data)

  -- What `clist_destroy` frees: the head.
  unfoldable pub freed_head : List (TestHookEntry W) → List (TestHookEntry W)
  freed_head [] = []
  freed_head (e ∷ es) = e ∷ []

  module _ (same : (Event → ℕ → W → W) → (Event → ℕ → W → W) → Bool) where
    -- For a hook below TEST_HOOK_MAX: the entries that are freed, and the context. The list is set
    -- to NULL in both branches.
    unfoldable pub test_unregister_hook :
        TestHookId
        → Option (Event → ℕ → W → W)
        → ℕ
        → TestContext W
        → List (TestHookEntry W) × TestContext W
    unfolding change_hook is_hook freed_head unregister_loop
    test_unregister_hook hook_id hook user_data self = (
      elim hook [
        | none ↦ freed_head (self.hooks hook_id)
        | some h ↦ unregister_loop (is_hook same h user_data) (self.hooks hook_id)
      ],
      change_hook hook_id (λ es. []) self,
    )

    unfoldable pub unregister_each :
        List TestHookId
        → (TestHookId → Option (Event → ℕ → W → W))
        → ℕ
        → TestContext W
        → List (TestHookEntry W) × TestContext W
    unfolding test_unregister_hook
    unregister_each [] hooks user_data self = ([], self)
    unregister_each (id ∷ ids) hooks user_data self = elim (hooks id) [
      | none ↦ unregister_each ids hooks user_data self
      | some hook ↦
          let (freed, self) = test_unregister_hook id (some hook) user_data self in
          let (others, self) = unregister_each ids hooks user_data self in (freed ++ others, self)
    ]

    unfoldable pub test_unregister_multiple_hooks :
        (TestHookId → Option (Event → ℕ → W → W))
        → ℕ
        → TestContext W
        → List (TestHookEntry W) × TestContext W
    unfolding unregister_each
    test_unregister_multiple_hooks hooks user_data self =
        unregister_each all_hooks hooks user_data self
