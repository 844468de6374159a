-- ===== src/Log.antt =====
-- lib/log.c and lib/tinu/log.h: the handlers of log messages, and which of them a message reaches.
-- A handler is a function on `W`, the world it acts on; it does not change the log itself.
pub mod Bound
pub mod Delivery
pub mod Handlers
pub mod Fancy
use tinu.Prelude.{
  ℕ, Bool, true, false, ◌&&◌, ◌||◌, not, Option, none, some, List, [], ◌∷◌, ℤ, pos, negsuc, int_leb,
  int_ltb, Str, ◌==◌, if◌then◌else◌, Outcome, ok, ◌>>=◌,
}
use tinu.Message.{MessageTag, Message, msg_vcreate, msg_destroy}
use tinu.Message.Priority.{log_emerg, log_debug}

-- The message and the user data to the new world, and whether to propagate.
abbrev pub MessageHandler : Type 0 → Type 0
MessageHandler W = Message → ℕ → W → W × Bool

-- `address` is the pointer to the entry, the handle that registration returns.
pub record LogHandler (W : Type 0) : Type 0 where
  pub address : ℕ
  pub max_priority : ℤ
  pub user_data : ℕ
  pub handler : MessageHandler W

-- The globals `g_log_list`, `g_log_max_priority` and `g_log_diverted`.
pub record Log (W : Type 0) : Type 0 where
  pub handlers : List (LogHandler W)
  pub max_priority : ℤ
  pub divert_handler : Option (MessageHandler W)
  pub divert_user_data : ℕ

abbrev pub is_empty {ℓ} : {A : Type ℓ} → List A → Bool
is_empty [] = true
is_empty (x ∷ xs) = false

module _ {W : Type 0} where
  -- The globals as they are initialised.
  abbrev pub initial : Log W
  initial = record {
    handlers = [];
    max_priority = negsuc 0;
    divert_handler = none;
    divert_user_data = 0;
  }

  -- One round of the loop in `_log_alert_handlers`.
  unfoldable pub alert_one : LogHandler W → Message → W → W × Bool
  alert_one h msg w =
      if int_leb msg.priority h.max_priority then h.handler msg h.user_data w else (w, true)

  -- The loop, with its variable `propagate`.
  unfoldable pub alert_from : List (LogHandler W) → Bool → Message → W → W
  unfolding alert_one
  alert_from [] propagate msg w = w
  alert_from (h ∷ hs) false msg w = w
  alert_from (h ∷ hs) true msg w =
      let (w', propagate) = alert_one h msg w in alert_from hs propagate msg w'

  unfoldable pub log_alert_handlers : Log W → Message → W → W
  unfolding alert_from
  log_alert_handlers log msg w = alert_from log.handlers true msg w

  -- `fresh` is the pointer that `g_new0` returns.
  unfoldable pub log_register_message_handler :
      ℕ → MessageHandler W → ℤ → ℕ → Log W → Option ℕ × Log W
  log_register_message_handler fresh handler max_priority user_data log = elim log.divert_handler [
    | some _ ↦ (none, log)
    | none ↦ (
      some fresh,
      record log {
        handlers =
            record {
              address = fresh;
              max_priority = max_priority;
              user_data = user_data;
              handler = handler;
            }
            ∷ log.handlers;
        max_priority =
            if int_ltb log.max_priority max_priority then max_priority else log.max_priority;
      },
    )
  ]

  -- The loop of `log_unregister_message_handler`: the entries that stay, and the priority.
  unfoldable pub unregister_from : List (LogHandler W) → ℕ → ℤ → List (LogHandler W) × ℤ
  unregister_from [] handle max = ([], max)
  unregister_from (h ∷ hs) handle max =
      let gone = h.address == handle in
      let raised = if int_ltb max h.max_priority then h.max_priority else max in
      let (rest, max') = unregister_from hs handle (if gone then max else raised) in
      (if gone then rest else h ∷ rest, max')

  unfoldable pub log_unregister_message_handler : ℕ → Log W → Log W
  unfolding unregister_from
  log_unregister_message_handler handle log = elim log.divert_handler [
    | some _ ↦ log
    | none ↦
        let (rest, max) = unregister_from log.handlers handle log_emerg in
        record log { handlers = rest; max_priority = if is_empty rest then negsuc 0 else max }
  ]

  -- The test of `log_message` and `log_vformat` that no handler wants a priority.
  abbrev pub is_muted : Log W → ℤ → Bool
  is_muted log priority = is_empty log.handlers || int_ltb log.max_priority priority

  -- The world after a message, whoever takes it.
  unfoldable pub dispatch : Log W → Message → W → W
  unfolding log_alert_handlers
  dispatch log msg w = elim log.divert_handler [
    | some d ↦ (d msg log.divert_user_data w).0
    | none ↦ if is_muted log msg.priority then w else log_alert_handlers log msg w
  ]

  -- The world, and the tags that are freed.
  unfoldable pub log_message : Log W → Message → Bool → W → Outcome (W × List MessageTag)
  unfolding dispatch
  log_message log msg free_msg w = do
    freed ← (if free_msg then msg_destroy msg else ok [])
    ok (dispatch log msg w, freed)

  unfoldable pub log_vformat :
      ℕ → Log W → ℤ → Str → List MessageTag → W → Outcome (W × List MessageTag)
  log_vformat limit log priority msg ts w = elim log.divert_handler [
    | some d ↦ do
      self ← msg_vcreate limit priority msg ts
      freed ← msg_destroy self
      ok ((d self log.divert_user_data w).0, freed)
    | none ↦ if is_muted log priority then ok (w, ts) else (do
      self ← msg_vcreate limit priority msg ts
      freed ← msg_destroy self
      ok (log_alert_handlers log self w, freed))
  ]

  unfoldable pub log_format :
      ℕ → Log W → ℤ → Str → List MessageTag → W → Outcome (W × List MessageTag)
  unfolding log_vformat
  log_format limit log priority msg ts w = log_vformat limit log priority msg ts w

  -- The macro `log_wrap` behind log_error, log_warn and the others. Under it the tags are not
  -- even made, so none is freed.
  unfoldable pub log_wrap :
      ℕ → Log W → ℤ → Str → List MessageTag → W → Outcome (W × List MessageTag)
  unfolding log_format
  log_wrap limit log priority msg ts w =
      if int_leb priority log.max_priority
      then log_format limit log priority msg ts w
      else ok (w, [])

  unfoldable pub log_clear : Log W → Log W
  log_clear log = record log { handlers = []; max_priority = negsuc 0 }

  unfoldable pub log_divert : Option (MessageHandler W) → ℕ → Log W → Log W
  unfolding log_clear
  log_divert handler user_data log = record (log_clear log) {
    divert_handler = handler;
    divert_user_data = user_data;
    max_priority = log_debug;
  }
