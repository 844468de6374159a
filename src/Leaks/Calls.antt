-- ===== src/Leaks/Calls.antt =====
-- The allocator's hooks of lib/leakwatch.c, which tell the watches of each call, and what is read
-- from the table of a watch. What the allocator returns is an argument.
use tinu.Prelude.{
  ℕ, ◌+◌, ◌%◌, ◌^◌, ◌≡◌, refl, ap, ap₂, ◌<◌, false, true, sym, All, Option, none, some, List, [],
  ◌∷◌, Str, bytes, ltb, lt→ltb, ◌==◌, if◌then◌else◌, Outcome, ok, abort,
}
use tinu.Message.{MessageTag}
use tinu.Message.Values.{msg_tag_ptr, msg_tag_int}
use tinu.Leaks.{
  MemoryEntry, LeakwatchOperation, malloc, realloc, free, HashTable, simple_callback, watch,
  leakwatch_hook, Leakwatch, hook_pause, hook_resume,
}
use tinu.Leaks.Live.{Shows, AreFree, perform_all, watch-Shows}

-- `callback` is what the watch of a handle does to the world.
module _ {W : Type 0} (callback : ℕ → LeakwatchOperation → W → W) where
  unfoldable pub alert_each : List ℕ → LeakwatchOperation → W → W
  alert_each [] op w = w
  alert_each (h ∷ hs) op w = alert_each hs op (callback h op w)

  unfoldable pub leakwatch_alert : Leakwatch → LeakwatchOperation → W → W
  unfolding alert_each
  leakwatch_alert self op w = alert_each self.list op w

  -- `res` is the result of the allocator.
  unfoldable pub leakwatch_malloc : ℕ → ℕ → Leakwatch → W → Leakwatch × W
  unfolding leakwatch_alert
  leakwatch_malloc res size self w =
      let paused = hook_pause self in
      (hook_resume paused, if res == 0 then w else leakwatch_alert paused (malloc res size) w)

  unfoldable pub leakwatch_realloc : ℕ → ℕ → ℕ → Leakwatch → W → Leakwatch × W
  unfolding leakwatch_alert
  leakwatch_realloc ptr res newsize self w =
      let paused = hook_pause self in
      (
        hook_resume paused,
        if res == 0 then w else leakwatch_alert paused (realloc ptr res newsize) w,
      )

  unfoldable pub leakwatch_free : ℕ → Leakwatch → W → Leakwatch × W
  unfolding leakwatch_alert
  leakwatch_free ptr self w =
      let paused = hook_pause self in (hook_resume paused, leakwatch_alert paused (free ptr) w)

  -- The hook for a call that the allocator serves.
  unfoldable pub serve : LeakwatchOperation → Leakwatch → W → Leakwatch × W
  unfolding leakwatch_malloc leakwatch_realloc leakwatch_free
  serve (malloc ptr size) self w = leakwatch_malloc ptr size self w
  serve (realloc oldptr ptr size) self w = leakwatch_realloc oldptr ptr size self w
  serve (free oldptr) self w = leakwatch_free oldptr self w

  unfoldable pub serve_all : List LeakwatchOperation → Leakwatch → W → Leakwatch × W
  unfolding serve
  serve_all [] self w = (self, w)
  serve_all (op ∷ ops) self w = let (self, w) = serve op self w in serve_all ops self w

-- `tinu_leakwatch_simple`: the table that is stored through `result`, which must hold NULL.
unfoldable pub tinu_leakwatch_simple : {T : Type 0} → HashTable T → Option T → Outcome T
tinu_leakwatch_simple table result = elim result [ none ↦ ok table.empty | some old ↦ abort ]

-- `tinu_leakwatch_summary` over the entries of the table.
unfoldable pub summary_from : List MemoryEntry → ℕ → ℕ
summary_from [] res = res
summary_from (e ∷ entries) res = summary_from entries ((res + e.size) % 2 ^ 64)

unfoldable pub tinu_leakwatch_summary : List MemoryEntry → ℕ
unfolding summary_from
tinu_leakwatch_summary entries = summary_from entries 0

-- `tinu_leakwatch_simple_dump`, without the backtraces: the messages, each with its tags.
unfoldable pub simple_dump : MemoryEntry → Str × List MessageTag
simple_dump self = (
  bytes "Memory leak found",
  msg_tag_ptr (bytes "pointer") self.ptr ∷ msg_tag_int (bytes "size") self.size ∷ [],
)

-- The allocator returned no NULL.
abbrev pub Served : LeakwatchOperation → Type 0
Served (malloc ptr size) = (ptr == 0) ≡ false
Served (realloc oldptr ptr size) = (ptr == 0) ≡ false
Served (free oldptr) = Unit

-- A watch is on and its hooks are installed.
pub record IsOn (self : Leakwatch) (handle : ℕ) : Type 0 where
  pub counted : 0 < self.count
  pub hooked : self.hook ≡ leakwatch_hook
  pub only : self.list ≡ handle ∷ []

resume-pause :
    (self : Leakwatch) (handle : ℕ) → IsOn self handle → hook_resume (hook_pause self) ≡ self
unfolding hook_resume hook_pause
resume-pause self handle on =
    let counted : ltb 0 self.count ≡ true = lt→ltb 0 self.count on.counted in
    simp counted (ap (λ k. record self { hook = k }) (sym on.hooked))

pause-list :
    (self : Leakwatch) (handle : ℕ) → IsOn self handle → (hook_pause self).list ≡ handle ∷ []
unfolding hook_pause
pause-list self handle on =
    let counted : ltb 0 self.count ≡ true = lt→ltb 0 self.count on.counted in simp counted on.only

module _ {T : Type 0} (table : HashTable T) where
  -- The only watch is a simple one.
  abbrev pub simple : ℕ → LeakwatchOperation → T → T
  simple handle op t = simple_callback table op t

  alert_one :
      (self : Leakwatch) (handle : ℕ) (op : LeakwatchOperation) (t : T)
      → IsOn self handle
      → leakwatch_alert simple (hook_pause self) op t ≡ simple_callback table op t
  unfolding leakwatch_alert alert_each
  alert_one self handle op t on = ap (λ hs. alert_each simple hs op t) (pause-list self handle on)

  serve_one :
      (self : Leakwatch) (handle : ℕ) (op : LeakwatchOperation) (t : T)
      → IsOn self handle
      → Served op
      → serve simple op self t ≡ (self, simple_callback table op t)
  unfolding serve leakwatch_malloc leakwatch_realloc leakwatch_free
  serve_one self handle (malloc ptr size) t on got = rw got (
      ap₂ (λ s u. (s, u)) (resume-pause self handle on)
        (alert_one self handle (malloc ptr size) t on))
  serve_one self handle (realloc oldptr ptr size) t on got = rw got (
      ap₂ (λ s u. (s, u)) (resume-pause self handle on)
        (alert_one self handle (realloc oldptr ptr size) t on))
  serve_one self handle (free oldptr) t on got =
      ap₂ (λ s u. (s, u)) (resume-pause self handle on) (alert_one self handle (free oldptr) t on)

  serve_all-watch :
      (self : Leakwatch) (handle : ℕ) (ops : List LeakwatchOperation) (t : T)
      → IsOn self handle
      → All Served ops
      → serve_all simple ops self t ≡ (self, watch table ops t)
  unfolding serve_all watch
  serve_all-watch self handle [] t on got = refl
  serve_all-watch self handle (op ∷ ops) t on got =
      rw (serve_one self handle op t on got.0)
        (serve_all-watch self handle ops (simple_callback table op t) on got.1)

  -- With a simple watch on as the only one, the calls of the allocator that return no NULL leave
  -- the hooks as they were, and the table of the watch, empty at first, holds exactly those live
  -- blocks that malloc made under the watch, each with its last size, wherever they were moved. A
  -- live block that was there before the watch, or that realloc made of NULL, is not in the table,
  -- moved or not. This is for an allocator that moves a block only to where no other one lives.
  pub serve_all-Shows :
      (self : Leakwatch) (handle : ℕ) (ops : List LeakwatchOperation)
      → IsOn self handle
      → All Served ops
      → AreFree ops (λ p. none)
      → (t : T) × (serve_all simple ops self table.empty ≡ (self, t))
        × Shows table t (perform_all ops (λ p. none))
  serve_all-Shows self handle ops on got free_ = (
    watch table ops table.empty,
    serve_all-watch self handle ops table.empty on got,
    watch-Shows table ops free_,
  )
