-- ===== src/Main/Logging.antt =====
-- The handlers that `tinu_main` (lib/main.c) registers for messages.
use tinu.Prelude.{
  ℕ, ◌≡◌, ◌≢◌, ◌≤◌, ap, refl, ◌∙◌, int_ltb, Bool, true, false, Option, none, some, List, [], ◌∷◌,
  ◌++◌, ℤ, pos, negsuc, Str, if◌then◌else◌, arith,
}
use tinu.Log.{
  LogHandler, Log, MessageHandler, initial, log_register_message_handler,
  log_unregister_message_handler, unregister_from, log_clear,
}
use tinu.Message.Priority.{log_err, log_debug}
use tinu.Main.{Options}

-- The handlers of lib/log.c and `_stat_message_counter` on a world; LOGMSG_PROPAGATE is 1.
-- `open_file` is the FILE pointer and `statistics` the pointer to the statistics.
pub record Handlers (W : Type 0) : Type 0 where
  pub stderr : MessageHandler W
  pub fancy_stderr : MessageHandler W
  pub syslog : MessageHandler W
  pub file : MessageHandler W
  pub open_file : ℕ
  pub counter : MessageHandler W
  pub statistics : ℕ

-- The addresses of the entries that are registered.
pub record Addresses : Type 0 where
  pub watch_ : ℕ
  pub stderr : ℕ
  pub syslog : ℕ
  pub file : ℕ
  pub counter : ℕ

module _ {W : Type 0} (handlers : Handlers W) (fresh : Addresses) where
  -- The handler that reports errors until the options are read.
  unfoldable pub watch_errors : Log W → Log W
  unfolding log_register_message_handler
  watch_errors log = (log_register_message_handler fresh.watch_ handlers.stderr log_err 1 log).1

  unfoldable pub log_to_stderr : Options → Log W → Log W
  unfolding log_register_message_handler
  log_to_stderr options log =
      if options.silent
      then log
      else if options.fancy
      then (log_register_message_handler fresh.stderr handlers.fancy_stderr (pos options.priority) 1
          log).1
      else (log_register_message_handler fresh.stderr handlers.stderr (pos options.priority) 1
          log).1

  unfoldable pub log_to_syslog : Options → Log W → Log W
  unfolding log_register_message_handler
  log_to_syslog options log =
      if options.syslog
      then (log_register_message_handler fresh.syslog handlers.syslog (pos options.priority) 1
          log).1
      else log

  -- The log file, which is open.
  unfoldable pub log_to_file : Options → Log W → Log W
  unfolding log_register_message_handler
  log_to_file options log = elim options.file [
    | none ↦ log
    | some name ↦
        (log_register_message_handler fresh.file handlers.file (pos options.priority)
          handlers.open_file log).1
  ]

  -- What `stat_start` does to the log, if statistics are made.
  unfoldable pub count_messages : Bool → Log W → Log W
  unfolding log_register_message_handler
  count_messages counts log =
      if counts
      then (log_register_message_handler fresh.counter handlers.counter log_debug
          handlers.statistics log).1
      else log

  -- The calls of `tinu_main` on the log up to the run; `counts` is whether statistics are made.
  unfoldable pub start_log : Bool → Options → Log W → Log W
  unfolding watch_errors log_to_stderr log_to_syslog log_to_file log_unregister_message_handler
      count_messages
  start_log counts options log =
      let log = log_to_stderr options (watch_errors log) in
      let log = log_unregister_message_handler fresh.watch_ log in
      count_messages counts (log_to_file options (log_to_syslog options log))

  -- Behind the run: `stat_stop`, the log file, and `log_clear` at the exit. The second `stat_stop`
  -- of `stat_destroy` finds no handle.
  unfoldable pub finish_log : Bool → Options → Log W → Log W
  unfolding log_unregister_message_handler log_clear
  finish_log counts options log =
      let log = if counts then log_unregister_message_handler fresh.counter log else log in
      log_clear (elim options.file [
        | none ↦ log
        | some name ↦ log_unregister_message_handler fresh.file log
      ])

  -- An entry for the priority of the options.
  abbrev entry_of : ℕ → MessageHandler W → ℕ → Options → LogHandler W
  entry_of address handler user_data options = record {
    address = address;
    max_priority = pos options.priority;
    user_data = user_data;
    handler = handler;
  }

  -- The entry of the statistics, which is for every priority.
  abbrev counting_entry : LogHandler W
  counting_entry = record {
    address = fresh.counter;
    max_priority = log_debug;
    user_data = handlers.statistics;
    handler = handlers.counter;
  }

  -- What the options ask for.
  unfoldable pub asked : Options → List (LogHandler W)
  asked options =
      (elim options.file [
        | none ↦ []
        | some name ↦ entry_of fresh.file handlers.file handlers.open_file options ∷ []
      ])
      ++ ((if options.syslog then entry_of fresh.syslog handlers.syslog 1 options ∷ [] else [])
          ++ (if options.silent
              then []
              else entry_of fresh.stderr
                  (if options.fancy then handlers.fancy_stderr else handlers.stderr) 1 options
                ∷ []))

  unfoldable pub bound_asked : Options → ℤ
  bound_asked options = elim (asked options) [ [] ↦ negsuc 0 | h ∷ hs ↦ pos options.priority ]

  unfoldable pub wanted : Bool → Options → List (LogHandler W)
  unfolding asked
  wanted counts options = (if counts then counting_entry ∷ [] else []) ++ asked options

  unfoldable pub bound_of : Bool → Options → ℤ
  unfolding bound_asked
  bound_of counts options = if counts then log_debug else bound_asked options

  -- The options with the fields that matter in view.
  abbrev options_with : Options → Bool → Bool → Bool → Option Str → Options
  options_with o fancy silent syslog file = record o {
    fancy = fancy;
    silent = silent;
    syslog = syslog;
    file = file;
  }

  started :
      (o : Options) (fancy silent syslog : Bool) (file : Option Str)
      → fresh.watch_ ≢ fresh.stderr
      → let options = options_with o fancy silent syslog file in
        log_to_file options (
          log_to_syslog options (
            log_unregister_message_handler fresh.watch_
              (log_to_stderr options (watch_errors initial))))
        ≡ record {
          handlers = asked options;
          max_priority = bound_asked options;
          divert_handler = none;
          divert_user_data = 0;
        }
  unfolding asked bound_asked watch_errors log_to_stderr log_to_syslog log_to_file
      log_unregister_message_handler log_register_message_handler unregister_from
  started o fancy true true (some name) apart = ground arith
  started o fancy true true none apart = ground arith
  started o fancy true false (some name) apart = ground arith
  started o fancy true false none apart = ground arith
  started o true false true (some name) apart = ground (arith, apart)
  started o true false true none apart = ground (arith, apart)
  started o true false false (some name) apart = ground (arith, apart)
  started o true false false none apart = ground (arith, apart)
  started o false false true (some name) apart = ground (arith, apart)
  started o false false true none apart = ground (arith, apart)
  started o false false false (some name) apart = ground (arith, apart)
  started o false false false none apart = ground (arith, apart)

  -- The log behind the handlers of the options.
  abbrev asked_log : Options → Log W
  asked_log options = record {
    handlers = asked options;
    max_priority = bound_asked options;
    divert_handler = none;
    divert_user_data = 0;
  }

  abbrev wanted_log : Bool → Options → Log W
  wanted_log counts options = record {
    handlers = wanted counts options;
    max_priority = bound_of counts options;
    divert_handler = none;
    divert_user_data = 0;
  }

  raised :
      (hs : List (LogHandler W)) (p : ℕ)
      → p ≤ 7
      → let z : ℤ = elim hs [ [] ↦ negsuc 0 | h ∷ hs ↦ pos p ] in
        (if int_ltb z log_debug then log_debug else z) ≡ log_debug
  raised [] p small = refl
  raised (h ∷ hs) p small = ground arith

  counted :
      (counts : Bool) (options : Options)
      → options.priority ≤ 7
      → count_messages counts (asked_log options) ≡ wanted_log counts options
  unfolding count_messages log_register_message_handler wanted bound_of bound_asked
  counted true options small =
      ap
        (λ z. record {
          handlers = counting_entry ∷ asked options;
          max_priority = z;
          divert_handler = none;
          divert_user_data = 0;
        })
        (raised (asked options) options.priority small)
  counted false options small = refl

  -- The log of a program that starts, from a log without handlers that is not diverted, has exactly
  -- the handlers that the options ask for, for stderr unless it is silent, in colours or not, for
  -- syslog and for the file, newest first, each for the priority of the options; and in front of
  -- them the counter of messages, for every priority, if statistics are made. The bound is that of
  -- the counter, without it the priority of the options, and -1 without a handler; the handler for
  -- the errors of the options is gone. The address of its entry must not be that of the next, and
  -- the priority of the options one from 0 to 7.
  pub start_log-wanted :
      (counts : Bool) (options : Options)
      → fresh.watch_ ≢ fresh.stderr
      → options.priority ≤ 7
      → start_log counts options initial ≡ record {
        handlers = wanted counts options;
        max_priority = bound_of counts options;
        divert_handler = none;
        divert_user_data = 0;
      }
  unfolding start_log
  start_log-wanted counts options apart small =
      ap (count_messages counts)
        (started options options.fancy options.silent options.syslog options.file apart)
      ∙ counted counts options small
