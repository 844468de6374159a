-- ===== src/Log/Delivery.antt =====
-- Whom a message reaches.
use tinu.Prelude.{
  ℕ, ◌≡◌, refl, true, false, ◌||◌, none, some, List, [], ◌∷◌, map, ℤ, ◌≤ℤ◌, int_leb, int_ltb, Str,
  length, All, if◌then◌else◌, arith, Bool-cases, inl, inr, ok,
}
use tinu.Message.{MessageTag, Message}
use tinu.Message.Append.{room, msg_vcreate_lem}
use tinu.Message.Tags.{fits, msg_destroy_lem}
use tinu.Log.{
  MessageHandler, LogHandler, Log, initial, alert_from, log_register_message_handler,
  log_unregister_message_handler, is_empty, is_muted, dispatch, log_vformat, log_divert, log_clear,
}
use tinu.Log.Bound.{
  IsBound, LogCall, step, register, unregister, clear, divert, run, run-IsBound, register-IsBound,
}

-- The message that `log_vformat` makes.
abbrev pub made : ℤ → Str → List MessageTag → Message
made priority msg ts = record {
  priority = priority;
  message = msg;
  tag_count = length ts;
  tags = map some ts;
}

module _ {W : Type 0} where
  -- The handlers one after the other, until one does not propagate.
  unfoldable pub run_until : List (LogHandler W) → Message → W → W
  run_until [] msg w = w
  run_until (h ∷ hs) msg w =
      let r = h.handler msg h.user_data w in
      let rest = run_until hs msg r.0 in if r.1 then rest else r.0

  -- The handlers that take messages of the priority.
  unfoldable pub takers : ℤ → List (LogHandler W) → List (LogHandler W)
  takers priority [] = []
  takers priority (h ∷ hs) =
      if int_leb priority h.max_priority then h ∷ takers priority hs else takers priority hs

  alert_from_stopped :
      (hs : List (LogHandler W)) (msg : Message) (w : W) → alert_from hs false msg w ≡ w
  unfolding alert_from
  alert_from_stopped [] msg w = refl
  alert_from_stopped (h ∷ hs) msg w = refl

  alert_from-run_until :
      (hs : List (LogHandler W)) (msg : Message) (w : W)
      → alert_from hs true msg w ≡ run_until (takers msg.priority hs) msg w
  unfolding alert_from run_until takers
  alert_from-run_until [] msg w = refl
  alert_from-run_until (h ∷ hs) msg w = elim (Bool-cases (int_leb msg.priority h.max_priority)) [
    | inl y ↦ rw y (elim (Bool-cases (h.handler msg h.user_data w).1) [
      | inl go ↦ rw go (alert_from-run_until hs msg (h.handler msg h.user_data w).0)
      | inr stop ↦ rw stop (alert_from_stopped hs msg _)
    ])
    | inr n ↦ rw n (alert_from-run_until hs msg w)
  ]

  takers_muted :
      (priority m : ℤ) (hs : List (LogHandler W))
      → All (λ h. h.max_priority ≤ℤ m) hs
      → int_ltb m priority ≡ true
      → takers priority hs ≡ []
  unfolding takers
  takers_muted priority m [] b h = refl
  takers_muted priority m (x ∷ hs) b h = ground (arith, b.0, takers_muted priority m hs b.1 h)

  takers_of_muted :
      (priority m : ℤ) (hs : List (LogHandler W))
      → All (λ h. h.max_priority ≤ℤ m) hs
      → (is_empty hs || int_ltb m priority) ≡ true
      → takers priority hs ≡ []
  unfolding takers
  takers_of_muted priority m [] b h = refl
  takers_of_muted priority m (x ∷ hs) b h = takers_muted priority m (x ∷ hs) b h

  -- While messages are not diverted and the bound holds, the test of the priority in
  -- `log_message` and `log_vformat` keeps a message from nobody: it reaches the handlers that
  -- take its priority, newest first, until one does not propagate.
  pub dispatch-run_until :
      (log : Log W) (msg : Message) (w : W)
      → IsBound log
      → log.divert_handler ≡ none
      → dispatch log msg w ≡ run_until (takers msg.priority log.handlers) msg w
  unfolding dispatch run_until
  dispatch-run_until log msg w b e =
      rw (e, dispatch)
        (elim (Bool-cases (is_muted log msg.priority)) [
          | inl muted ↦
              rw muted (rw (takers_of_muted msg.priority log.max_priority log.handlers b muted))
          | inr loud ↦ rw loud (alert_from-run_until log.handlers msg w)
        ])

  -- After any calls of the log's functions, as long as messages are not diverted, a message
  -- reaches the handlers that take its priority, newest first, until one does not propagate: the
  -- bound on the priority that the log keeps hides a message from nobody.
  pub run-run_until :
      (cs : List (LogCall W)) (msg : Message) (w : W)
      → (run initial cs).divert_handler ≡ none
      → dispatch (run initial cs) msg w
        ≡ run_until (takers msg.priority (run initial cs).handlers) msg w
  run-run_until cs msg w e = dispatch-run_until (run initial cs) msg w (run-IsBound initial cs tt) e

  -- A handler that has just been registered sees a message that it takes before all others, and
  -- the others see it, as before, exactly if the handler propagates it.
  pub dispatch-register :
      (fresh : ℕ) (handler : MessageHandler W) (max : ℤ) (user_data : ℕ) (log : Log W)
      (msg : Message) (w : W)
      → IsBound log
      → log.divert_handler ≡ none
      → msg.priority ≤ℤ max
      → dispatch (log_register_message_handler fresh handler max user_data log).1 msg w ≡ (
          if (handler msg user_data w).1
          then dispatch log msg (handler msg user_data w).0
          else (handler msg user_data w).0)
  unfolding log_register_message_handler run_until takers
  dispatch-register fresh handler max user_data log msg w b e takes =
      let (w', go) = handler msg user_data w in
      let log' = (log_register_message_handler fresh handler max user_data log).1 in
      ground (
        arith,
        dispatch-run_until log' msg w (register-IsBound fresh handler max user_data log b),
        dispatch-run_until log msg w' b e,
      )

  -- `log_vformat` frees each of the tags that it is given, once, whether a message is diverted,
  -- muted or delivered; where the array for the tags is granted it returns, and the message it
  -- makes of them goes where `log_message` would send it.
  pub log_vformat-dispatch :
      (limit : ℕ) (log : Log W) (priority : ℤ) (msg : Str) (ts : List MessageTag) (w : W)
      → fits limit (room limit 0 (length ts)) ≡ true
      → log_vformat limit log priority msg ts w ≡ ok (dispatch log (made priority msg ts) w, ts)
  unfolding log_vformat dispatch
  log_vformat-dispatch limit log priority msg ts w f =
      let create = msg_vcreate_lem limit priority msg ts in
      let free =
        msg_destroy_lem (made priority msg ts) {ts = ts} (record { count = refl; slots = refl }) in
      ground (arith, create, free)

  -- A call that does not set where messages are diverted to.
  abbrev pub KeepsDivert : LogCall W → Type 0
  KeepsDivert (divert handler user_data) = ⊥
  KeepsDivert _ = Unit {0}

  record IsDiverted (d : MessageHandler W) (user_data : ℕ) (log : Log W) : Type 0 where
    handler : log.divert_handler ≡ some d
    data_kept : log.divert_user_data ≡ user_data
    none_kept : log.handlers ≡ []

  step-IsDiverted :
      (d : MessageHandler W) (user_data : ℕ) (log : Log W) (c : LogCall W)
      → KeepsDivert c
      → IsDiverted d user_data log
      → IsDiverted d user_data (step log c)
  unfolding step log_register_message_handler log_unregister_message_handler log_clear
  step-IsDiverted d user_data log (register fresh handler max data') k v = ground arith
  step-IsDiverted d user_data log (unregister handle) k v = ground arith
  step-IsDiverted d user_data log clear k v = ground arith
  step-IsDiverted d user_data log (divert handler data') k v = absurd k

  run-IsDiverted :
      (cs : List (LogCall W)) {d : MessageHandler W} {user_data : ℕ} {log : Log W}
      → All KeepsDivert cs
      → IsDiverted d user_data log
      → IsDiverted d user_data (run log cs)
  unfolding run
  run-IsDiverted [] k v = v
  run-IsDiverted (c ∷ cs) {d} {user_data} {log} k v =
      run-IsDiverted cs k.1 (step-IsDiverted d user_data log c k.0 v)

  -- Once messages are diverted, registering, unregistering and clearing change nothing about it:
  -- the given handler alone gets every message, and no entry is kept.
  pub dispatch_diverted :
      (cs : List (LogCall W)) (d : MessageHandler W) (user_data : ℕ) (log : Log W) (msg : Message)
      (w : W)
      → All KeepsDivert cs
      → let after = run (log_divert (some d) user_data log) cs in
        (dispatch after msg w ≡ (d msg user_data w).0) × (after.handlers ≡ [])
  unfolding dispatch log_divert
  dispatch_diverted cs d user_data log msg w k =
      let start : IsDiverted d user_data (log_divert (some d) user_data log) = record {
        handler = refl;
        data_kept = refl;
        none_kept = refl;
      } in
      ground (arith, run-IsDiverted cs k start)
