-- ===== src/Log/Bound.antt =====
-- `g_log_max_priority` bounds what the handlers take, after any calls of the log's functions.
use tinu.Prelude.{
  ℕ, ◌≡◌, refl, Option, none, List, [], ◌∷◌, ℤ, negsuc, ◌≤ℤ◌, int_ltb, All, ◌==◌, if◌then◌else◌,
  arith, Bool-cases, Option-cases, inl, inr,
}
use tinu.Log.{
  MessageHandler, LogHandler, Log, log_register_message_handler, unregister_from,
  log_unregister_message_handler, log_clear, log_divert, is_empty,
}
use tinu.Message.Priority.{log_emerg}

-- The calls that change the log.
pub data LogCall (W : Type 0) : Type 0 where
  register : ℕ → MessageHandler W → ℤ → ℕ → LogCall W
  unregister : ℕ → LogCall W
  clear : LogCall W
  divert : Option (MessageHandler W) → ℕ → LogCall W

module _ {W : Type 0} where
  abbrev Below : ℤ → List (LogHandler W) → Type 0
  Below m = All (λ h. h.max_priority ≤ℤ m)

  -- No handler takes a message that the log's bound would keep from it.
  abbrev pub IsBound : Log W → Type 0
  IsBound log = All (λ h. h.max_priority ≤ℤ log.max_priority) log.handlers

  -- The entries without those of a handle.
  unfoldable pub without : ℕ → List (LogHandler W) → List (LogHandler W)
  without handle [] = []
  without handle (h ∷ hs) = if h.address == handle then without handle hs else h ∷ without handle hs

  -- The largest priority of the entries, but at least `m`.
  unfoldable pub top : List (LogHandler W) → ℤ → ℤ
  top [] m = m
  top (h ∷ hs) m = top hs (if int_ltb m h.max_priority then h.max_priority else m)

  Below-mono : (m n : ℤ) (hs : List (LogHandler W)) → m ≤ℤ n → Below m hs → Below n hs
  Below-mono m n [] h b = tt
  Below-mono m n (x ∷ hs) h b = (omega arith, Below-mono m n hs h b.1)

  top-ge : (hs : List (LogHandler W)) (m : ℤ) → m ≤ℤ top hs m
  unfolding top
  top-ge [] m = omega arith
  top-ge (h ∷ hs) m =
      ground (arith, top-ge hs (if int_ltb m h.max_priority then h.max_priority else m))

  top-Below : (hs : List (LogHandler W)) (m : ℤ) → Below (top hs m) hs
  unfolding top
  top-Below [] m = tt
  top-Below (h ∷ hs) m =
      let raised = if int_ltb m h.max_priority then h.max_priority else m in
      (ground (arith, top-ge hs raised), top-Below hs raised)

  unregister_from-top :
      (hs : List (LogHandler W)) (handle : ℕ) (m : ℤ)
      → unregister_from hs handle m ≡ (without handle hs, top (without handle hs) m)
  unfolding unregister_from without top
  unregister_from-top [] handle m = refl
  unregister_from-top (h ∷ hs) handle m = elim (Bool-cases (h.address == handle)) [
    | inl gone ↦ rw (gone, unregister_from-top hs handle m)
    | inr kept ↦ rw (
      kept,
      unregister_from-top hs handle (if int_ltb m h.max_priority then h.max_priority else m),
    )
  ]

  -- While messages are not diverted, `log_unregister_message_handler` leaves the entries of
  -- other handles, and as the bound their largest priority, at least LOG_EMERG, or -1 if none is
  -- left.
  pub log_unregister_lem :
      (handle : ℕ) (log : Log W)
      → log.divert_handler ≡ none
      → log_unregister_message_handler handle log ≡ record log {
        handlers = without handle log.handlers;
        max_priority =
            if is_empty (without handle log.handlers)
            then negsuc 0
            else top (without handle log.handlers) log_emerg;
      }
  unfolding log_unregister_message_handler
  log_unregister_lem handle log e =
      ground (arith, unregister_from-top log.handlers handle log_emerg)

  unfoldable pub step : Log W → LogCall W → Log W
  step log (register fresh handler max user_data) =
      (log_register_message_handler fresh handler max user_data log).1
  step log (unregister handle) = log_unregister_message_handler handle log
  step log clear = log_clear log
  step log (divert handler user_data) = log_divert handler user_data log

  unfoldable pub run : Log W → List (LogCall W) → Log W
  unfolding step
  run log [] = log
  run log (c ∷ cs) = run (step log c) cs

  pub register-IsBound :
      (fresh : ℕ) (handler : MessageHandler W) (max : ℤ) (user_data : ℕ) (log : Log W)
      → IsBound log
      → IsBound (log_register_message_handler fresh handler max user_data log).1
  unfolding log_register_message_handler
  register-IsBound fresh handler max user_data log b = elim (Option-cases log.divert_handler) [
    | inl e ↦
        rw (e, log_register_message_handler)
          (ground arith, Below-mono log.max_priority _ log.handlers (ground arith) b)
    | inr (d, e) ↦ rw (e, log_register_message_handler) b
  ]

  kept-IsBound :
      (hs : List (LogHandler W)) → Below (if is_empty hs then negsuc 0 else top hs log_emerg) hs
  kept-IsBound [] = tt
  kept-IsBound (h ∷ hs) = top-Below (h ∷ hs) log_emerg

  pub unregister-IsBound :
      (handle : ℕ) (log : Log W) → IsBound log → IsBound (log_unregister_message_handler handle log)
  unfolding log_unregister_message_handler
  unregister-IsBound handle log b = elim (Option-cases log.divert_handler) [
    | inl e ↦
        rw (e, log_unregister_message_handler, unregister_from-top log.handlers handle log_emerg)
          (kept-IsBound (without handle log.handlers))
    | inr (d, e) ↦ rw (e, log_unregister_message_handler) b
  ]

  -- Each call keeps the bound.
  step-IsBound : (log : Log W) (c : LogCall W) → IsBound log → IsBound (step log c)
  unfolding step log_clear log_divert
  step-IsBound log (register fresh handler max user_data) b =
      register-IsBound fresh handler max user_data log b
  step-IsBound log (unregister handle) b = unregister-IsBound handle log b
  step-IsBound log clear b = tt
  step-IsBound log (divert handler user_data) b = tt

  -- Any calls of the log's functions keep the bound: from a log in which no handler takes a message
  -- above `g_log_max_priority` they lead to such a log.
  pub run-IsBound : (log : Log W) (cs : List (LogCall W)) → IsBound log → IsBound (run log cs)
  unfolding run
  run-IsBound log [] b = b
  run-IsBound log (c ∷ cs) b = run-IsBound (step log c) cs (step-IsBound log c b)
