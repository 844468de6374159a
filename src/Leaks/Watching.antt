-- ===== src/Leaks/Watching.antt =====
-- The hooks of the allocator while there are watches, and without any.
use tinu.Prelude.{
  ℕ, ◌+◌, ◌-◌, ◌≡◌, refl, ap, ◌∙◌, true, false, List, [], ◌∷◌, ◌==◌, if◌then◌else◌, arith, length,
  Outcome, ok, Bool-cases, inl, inr, ◌>>=◌,
}
use tinu.Leaks.{
  Hook, unset, leakwatch_hook, Leakwatch, hook_pause, hook_resume, leakwatch_enable,
  leakwatch_clear, leakwatch_disable, tinu_register_watch, is_empty, remove_handle,
  tinu_unregister_watch,
}

-- The count is the number of watches; without one the hook is `original`, else it is that of the
-- watch and `original` is saved.
pub record IsWatching (self : Leakwatch) (original : Hook) : Type 0 where
  pub count : self.count ≡ length self.list
  pub init : self.init ≡ (if self.count == 0 then self.init else true)
  pub hook : self.hook ≡ (if self.count == 0 then original else leakwatch_hook)
  pub saved : (if self.count == 0 then original else self.saved) ≡ original

pub data WatchCall : Type 0 where
  register : ℕ → WatchCall
  unregister : ℕ → WatchCall

unfoldable pub call : WatchCall → Leakwatch → Outcome Leakwatch
call (register fresh) self = ok (tinu_register_watch fresh self)
call (unregister handle) self = do (self', found) ← tinu_unregister_watch handle self; ok self'

unfoldable pub run_calls : List WatchCall → Leakwatch → Outcome Leakwatch
unfolding call
run_calls [] self = ok self
run_calls (c ∷ calls) self = call c self >>= run_calls calls

remove_handle-length :
    (hs : List ℕ) (handle : ℕ)
    → length hs
      ≡ (length (remove_handle hs handle).0 + (if (remove_handle hs handle).1 then 1 else 0))
unfolding remove_handle
remove_handle-length [] handle = refl
remove_handle-length (h ∷ hs) handle = ground (arith, remove_handle-length hs handle)

pub register-IsWatching :
    (self : Leakwatch) (original : Hook) (fresh : ℕ)
    → IsWatching self original
    → IsWatching (tinu_register_watch fresh self) original
unfolding tinu_register_watch hook_pause hook_resume leakwatch_enable
register-IsWatching self original fresh w = record {
  count = ground (arith, w.count);
  init = ground (arith, w.init);
  hook = ground (arith, w.hook, w.count);
  saved = ground (arith, w.hook, w.saved, w.count);
}

is_empty_lem : (xs : List ℕ) → is_empty xs ≡ (length xs == 0)
is_empty_lem [] = refl
is_empty_lem (x ∷ xs) = ground arith

-- The state after a watch is taken out.
abbrev without : ℕ → Leakwatch → Leakwatch
without handle self =
    if self.count == 1
    then record self {
      list = (remove_handle self.list handle).0;
      hook = self.saved;
      saved = unset;
      count = 0;
    }
    else record self {
      list = (remove_handle self.list handle).0;
      hook = leakwatch_hook;
      count = self.count - 1;
    }

unregister_found :
    (self : Leakwatch) (original : Hook) (handle : ℕ)
    → IsWatching self original
    → (remove_handle self.list handle).1 ≡ true
    → self.init ≡ true
    → tinu_unregister_watch handle self ≡ ok (without handle self, true)
unfolding tinu_unregister_watch hook_pause hook_resume leakwatch_disable leakwatch_clear
unregister_found self original handle w found init =
    let shorter = remove_handle-length self.list handle in
    let emptied = is_empty_lem (remove_handle self.list handle).0 in
    ground (arith, shorter, emptied, w.count, found, init)

without-IsWatching :
    (self : Leakwatch) (original : Hook) (handle : ℕ)
    → IsWatching self original
    → (remove_handle self.list handle).1 ≡ true
    → IsWatching (without handle self) original
without-IsWatching self original handle w found =
    let shorter = remove_handle-length self.list handle in
    record {
      count = ground (arith, shorter, w.count, found);
      init = ground (arith, shorter, w.count, found, w.init);
      hook = ground (arith, shorter, w.count, found, w.saved);
      saved = ground (arith, shorter, w.count, found, w.saved);
    }

-- The state after a handle is not found.
abbrev unfound : ℕ → Leakwatch → Leakwatch
unfound handle self = record self {
  list = (remove_handle self.list handle).0;
  hook = if self.count == 0 then self.hook else leakwatch_hook;
}

unregister_unfound :
    (self : Leakwatch) (handle : ℕ)
    → (remove_handle self.list handle).1 ≡ false
    → self.init ≡ true
    → tinu_unregister_watch handle self ≡ ok (unfound handle self, false)
unfolding tinu_unregister_watch hook_pause hook_resume
unregister_unfound self handle lost init = ground (arith, lost, init)

unfound-IsWatching :
    (self : Leakwatch) (original : Hook) (handle : ℕ)
    → IsWatching self original
    → (remove_handle self.list handle).1 ≡ false
    → IsWatching (unfound handle self) original
unfound-IsWatching self original handle w lost =
    let shorter = remove_handle-length self.list handle in
    record {
      count = ground (arith, shorter, w.count, lost);
      init = w.init;
      hook = ground (arith, w.hook);
      saved = w.saved;
    }

uninitialized :
    (self : Leakwatch) (handle : ℕ) → self.init ≡ false → call (unregister handle) self ≡ ok self
unfolding call tinu_unregister_watch
uninitialized self handle fresh = simp fresh

unregister-IsWatching :
    (self : Leakwatch) (original : Hook) (handle : ℕ)
    → IsWatching self original
    → (self' : Leakwatch) × (call (unregister handle) self ≡ ok self') × IsWatching self' original
unfolding call
unregister-IsWatching self original handle w = elim (Bool-cases self.init) [
  | inl init ↦ elim (Bool-cases (remove_handle self.list handle).1) [
    | inl found ↦ (
      without handle self,
      simp (unregister_found self original handle w found init),
      without-IsWatching self original handle w found,
    )
    | inr lost ↦ (
      unfound handle self,
      simp (unregister_unfound self handle lost init),
      unfound-IsWatching self original handle w lost,
    )
  ]
  | inr fresh ↦ (self, uninitialized self handle fresh, w)
]

call-IsWatching :
    (c : WatchCall) (self : Leakwatch) (original : Hook)
    → IsWatching self original
    → (self' : Leakwatch) × (call c self ≡ ok self') × IsWatching self' original
unfolding call
call-IsWatching (register fresh) self original w =
    (tinu_register_watch fresh self, refl, register-IsWatching self original fresh w)
call-IsWatching (unregister handle) self original w = unregister-IsWatching self original handle w

-- From a state in which `IsWatching` holds, any registering and unregistering of watches, of
-- unknown handles too, goes through without a failed assertion, and keeps the hooks right: those of
-- the watch are installed exactly while there is a watch, and the ones from before are back once
-- there is none.
pub run_calls-IsWatching :
    (calls : List WatchCall) (self : Leakwatch) (original : Hook)
    → IsWatching self original
    → (self' : Leakwatch) × (run_calls calls self ≡ ok self') × IsWatching self' original
unfolding run_calls
run_calls-IsWatching [] self original w = (self, refl, w)
run_calls-IsWatching (c ∷ calls) self original w =
    let (self', e, w') = call-IsWatching c self original w in
    let (self'', e', w'') = run_calls-IsWatching calls self' original w' in
    (self'', ap (λ m. m >>= run_calls calls) e ∙ e', w'')
