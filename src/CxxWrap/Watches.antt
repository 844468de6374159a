-- ===== src/CxxWrap/Watches.antt =====
-- CxxLeakwatch and CxxMessageHandler (lib/cxxwrap.cc): C++ objects that are told of allocations and
-- of messages.
use tinu.Prelude.{
  ℕ, ◌≡◌, refl, ◌∙◌, Option, none, some, List, [], ◌∷◌, map, ℤ, Outcome, ok, ◌>>=◌, bind_cong,
}
use tinu.Log.{Log, MessageHandler, log_register_message_handler, log_unregister_message_handler}
use tinu.Leaks.{
  LeakwatchOperation, malloc, realloc, free, Leakwatch, tinu_register_watch, tinu_unregister_watch,
}
use tinu.Backtrace.{Backtrace, backtrace_unreference, backtrace_reference}
use tinu.CxxWrap.Traces.{cxx_backtrace_copy, cxx_backtrace_destroy}

-- A call of a virtual function of CxxLeakwatch.
pub data Notification : Type 0 where
  notify_alloc : ℕ → ℕ → Notification
  notify_realloc : ℕ → ℕ → ℕ → Notification
  notify_free : ℕ → Notification

-- The switch of `cxx_leakwatch_callback`. A free has its pointer as `oldptr`, and NULL as `ptr`,
-- which is what is passed on.
unfoldable pub notified : LeakwatchOperation → Notification
notified (malloc ptr size) = notify_alloc ptr size
notified (realloc oldptr ptr size) = notify_realloc oldptr ptr size
notified (free oldptr) = notify_free 0

-- `cxx_leakwatch_callback`, which holds the trace as long as it runs. The virtual functions keep
-- no copy of it.
unfoldable pub cxx_leakwatch_callback :
    LeakwatchOperation → Option Backtrace → Outcome (Notification × Option Backtrace)
unfolding notified cxx_backtrace_copy cxx_backtrace_destroy
cxx_leakwatch_callback op memory = do
  memory ← cxx_backtrace_copy memory
  memory ← cxx_backtrace_destroy memory
  ok (notified op, memory)

-- `_leakwatch_alert` on a list of CxxLeakwatch objects, with the trace it has made: who is told of
-- what, in order, and the trace behind it.
unfoldable pub alert_objects :
    List ℕ
    → LeakwatchOperation
    → Option Backtrace
    → Outcome (List (ℕ × Notification) × Option Backtrace)
unfolding cxx_leakwatch_callback
alert_objects [] op memory = do memory ← backtrace_unreference memory; ok ([], memory)
alert_objects (object ∷ objects) op memory = do
  (told, memory) ← cxx_leakwatch_callback op memory
  (others, memory) ← alert_objects objects op memory
  ok ((object, told) ∷ others, memory)

callback-held :
    (op : LeakwatchOperation) (trace : Backtrace)
    → trace.refcnt ≡ 1
    → cxx_leakwatch_callback op (some trace) ≡ ok (notified op, some (record trace { refcnt = 1 }))
unfolding cxx_leakwatch_callback cxx_backtrace_copy cxx_backtrace_destroy backtrace_reference
    backtrace_unreference
callback-held op trace one = rw one refl

told_once :
    (objects : List ℕ) (op : LeakwatchOperation) (trace : Backtrace)
    → trace.refcnt ≡ 1
    → alert_objects objects op (some trace)
      ≡ ok (map (λ object. (object, notified op)) objects, none)
unfolding alert_objects backtrace_unreference
told_once [] op trace one = rw one refl
told_once (object ∷ objects) op trace one =
    bind_cong (callback-held op trace one) (λ q. refl)
    ∙ bind_cong (told_once objects op (record trace { refcnt = 1 }) refl) (λ q. refl)

-- Each C++ watch is told once of a call of the allocator, in the order of the list: of an
-- allocation with its address and size, of a reallocation with the old address, the new one and the
-- new size, and of a free with NULL, whatever its address; and the trace that was made for the
-- call, whose count is 1, lives until all are told and is freed then.
pub alert_objects-told :
    (objects : List ℕ) (trace : Backtrace) (oldptr ptr size : ℕ)
    → trace.refcnt ≡ 1
    → (alert_objects objects (malloc ptr size) (some trace)
        ≡ ok (map (λ object. (object, notify_alloc ptr size)) objects, none))
      × (alert_objects objects (realloc oldptr ptr size) (some trace)
          ≡ ok (map (λ object. (object, notify_realloc oldptr ptr size)) objects, none))
      × (alert_objects objects (free oldptr) (some trace)
          ≡ ok (map (λ object. (object, notify_free 0)) objects, none))
unfolding notified
alert_objects-told objects trace oldptr ptr size one = (
  told_once objects (malloc ptr size) trace one,
  told_once objects (realloc oldptr ptr size) trace one,
  told_once objects (free oldptr) trace one,
)

-- The constructor and the destructor of CxxLeakwatch; `fresh` is the address of the list entry.
unfoldable pub cxx_leakwatch_new : ℕ → Leakwatch → Leakwatch × ℕ
unfolding tinu_register_watch
cxx_leakwatch_new fresh watches = (tinu_register_watch fresh watches, fresh)

unfoldable pub cxx_leakwatch_destroy : ℕ → Leakwatch → Outcome Leakwatch
unfolding tinu_unregister_watch
cxx_leakwatch_destroy handle watches = do
  (watches, found) ← tinu_unregister_watch handle watches
  ok watches

module _ {W : Type 0} where
  -- The constructor of CxxMessageHandler; `callback` is `cxx_log_callback`, with `self` as its user
  -- data. The handle that is kept is `none` while messages are diverted.
  unfoldable pub cxx_message_handler_new : MessageHandler W → ℕ → ℤ → ℕ → Log W → Option ℕ × Log W
  unfolding log_register_message_handler
  cxx_message_handler_new callback fresh max_priority self log =
      log_register_message_handler fresh callback max_priority self log

  -- The destructor; a handle of NULL stands in no entry of the list.
  unfoldable pub cxx_message_handler_destroy : Option ℕ → Log W → Log W
  unfolding log_unregister_message_handler
  cxx_message_handler_destroy none log = log_unregister_message_handler 0 log
  cxx_message_handler_destroy (some handle) log = log_unregister_message_handler handle log
