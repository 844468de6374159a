-- ===== src/Leaks.antt =====
-- lib/leakwatch.c: the table of live blocks that a watch keeps, and the list of watches with the
-- hooks of the C library's allocator. Backtraces are left out.
pub mod Live
pub mod Watching
pub mod Calls
pub mod Origins
pub mod Held
pub mod Keeping
pub mod Tracing
pub mod Alerts
pub mod Dump
use tinu.Prelude.{
  ℕ, zero, suc, ◌+◌, ◌-◌, ◌≡◌, ◌≢◌, Bool, true, false, ◌&&◌, not, Option, none, some, List, [], ◌∷◌,
  ◌==◌, ltb, if◌then◌else◌, Outcome, ok, abort, ◌>>=◌,
}

pub record MemoryEntry : Type 0 where
  pub ptr : ℕ
  pub size : ℕ

-- A call of the callback: LEAKWATCH_OPERATION_MALLOC, REALLOC and FREE with what they use.
pub data LeakwatchOperation : Type 0 where
  malloc : ℕ → ℕ → LeakwatchOperation
  realloc : ℕ → ℕ → ℕ → LeakwatchOperation
  free : ℕ → LeakwatchOperation

-- GLib's hash table from pointers to entries, as its documentation describes it: a key that is
-- inserted has the entry, a key that is removed has none, and other keys keep theirs.
pub record HashTable (T : Type 0) : Type 0 where
  pub empty : T
  pub insert : T → ℕ → MemoryEntry → T
  pub remove : T → ℕ → T
  pub lookup : T → ℕ → Option MemoryEntry
  pub lookup-empty : (p : ℕ) → lookup empty p ≡ none
  pub lookup-insert :
      (t : T) (p : ℕ) (e : MemoryEntry) (q : ℕ)
      → lookup (insert t p e) q ≡ (if p == q then some e else lookup t q)
  pub lookup-remove :
      (t : T) (p q : ℕ) → lookup (remove t p) q ≡ (if p == q then none else lookup t q)

module _ {T : Type 0} (table : HashTable T) where
  -- `_tinu_leakwatch_simple_callback`. A change of an entry in place is an insertion under its
  -- key.
  unfoldable pub simple_callback : LeakwatchOperation → T → T
  simple_callback (malloc ptr size) self = table.insert self ptr (record { ptr = ptr; size = size })
  simple_callback (realloc oldptr ptr size) self = elim (table.lookup self oldptr) [
    | none ↦ self
    | some oldentry ↦
        if ptr == oldptr
        then table.insert self oldptr (record oldentry { size = size })
        else table.insert (table.remove self oldptr) ptr (record { ptr = ptr; size = size })
  ]
  simple_callback (free oldptr) self = table.remove self oldptr

  unfoldable pub watch : List LeakwatchOperation → T → T
  unfolding simple_callback
  watch [] self = self
  watch (op ∷ ops) self = watch ops (simple_callback op self)

-- What `__malloc_hook`, and likewise the other two, points to.
pub data Hook : Type 0 where
  unset : Hook
  leakwatch_hook : Hook
  other_hook : ℕ → Hook

-- The globals. The three hooks always change together and are one; `saved` is what
-- `g_leakwatch_malloc` and the others keep.
pub record Leakwatch : Type 0 where
  pub list : List ℕ
  pub count : ℕ
  pub init : Bool
  pub hook : Hook
  pub saved : Hook

unfoldable pub hook_pause : Leakwatch → Leakwatch
hook_pause self = if ltb 0 self.count then record self { hook = unset } else self

unfoldable pub hook_resume : Leakwatch → Leakwatch
hook_resume self = if ltb 0 self.count then record self { hook = leakwatch_hook } else self

unfoldable pub leakwatch_enable : Leakwatch → Leakwatch
leakwatch_enable self =
    let self' =
      if self.count == 0 then record self { saved = self.hook; hook = leakwatch_hook } else self in
    record self' { count = self'.count + 1 }

unfoldable pub leakwatch_clear : Leakwatch → Leakwatch
leakwatch_clear self = record self { hook = self.saved; saved = unset }

abbrev pub is_empty : List ℕ → Bool
is_empty [] = true
is_empty (x ∷ xs) = false

-- A failed `t_assert` exits.
unfoldable pub leakwatch_disable : Leakwatch → Outcome Leakwatch
unfolding leakwatch_clear
leakwatch_disable self =
    if not (ltb 0 self.count)
    then abort
    else if self.count == 1
    then (if is_empty self.list
        then ok (record (leakwatch_clear self) { count = self.count - 1 })
        else abort)
    else ok (record self { count = self.count - 1 })

-- `fresh` is the address that `t_new` returns, and the handle.
unfoldable pub tinu_register_watch : ℕ → Leakwatch → Leakwatch
unfolding hook_pause hook_resume leakwatch_enable
tinu_register_watch fresh self =
    let enabled = hook_pause (leakwatch_enable (record self { init = true })) in
    hook_resume (record enabled { list = fresh ∷ enabled.list })

-- The loop of `tinu_unregister_watch`: the list without the first such handle, and whether there
-- was one.
unfoldable pub remove_handle : List ℕ → ℕ → List ℕ × Bool
remove_handle [] handle = ([], false)
remove_handle (h ∷ hs) handle =
    let (rest, found) = remove_handle hs handle in
    if h == handle then (hs, true) else (h ∷ rest, found)

unfoldable pub tinu_unregister_watch : ℕ → Leakwatch → Outcome (Leakwatch × Bool)
unfolding hook_pause hook_resume remove_handle leakwatch_disable
tinu_unregister_watch handle self =
    if not self.init
    then ok (self, false)
    else let paused = hook_pause self in
      let (list, found) = remove_handle paused.list handle in
      let resumed = hook_resume (record paused { list = list }) in
      if found
      then (do self' ← leakwatch_disable resumed; ok (self', true))
      else ok (resumed, false)
