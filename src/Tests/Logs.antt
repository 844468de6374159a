-- ===== src/Tests/Logs.antt =====
-- lib/log.c with handlers that note the user data they are called with.
use tinu.Prelude.{ℕ, zero, suc, ◌≡◌, refl, List, [], ◌∷◌, pos, true, false, bytes}
use tinu.Message.{Message}
use tinu.Log.{
  MessageHandler, initial, dispatch, log_register_message_handler, log_unregister_message_handler,
}
use tinu.Log.Bound.{
  IsBound, LogCall, register, unregister, run, without, top, log_unregister_lem, run-IsBound,
}
use tinu.Log.Delivery.{made, run_until, takers, run-run_until}

-- Notes the user data; propagates if it is even.
abbrev noting : MessageHandler (List ℕ)
noting msg data' w = (data' ∷ w, elim data' [ zero ↦ true | suc n ↦ false ])

abbrev calls : List (LogCall (List ℕ))
calls = register 100 noting (pos 7) 1 ∷ register 200 noting (pos 4) 0 ∷ unregister 300 ∷ []

abbrev warning : Message
warning = made (pos 4) (bytes "hot") []

-- The newest handler first, then the other, since the newest propagates.
dispatch_runs : dispatch (run initial calls) warning [] ≡ 1 ∷ 0 ∷ []
unfolding run dispatch log_register_message_handler log_unregister_message_handler
dispatch_runs = refl

log_unregister_lem_example :
    log_unregister_message_handler 200 (run initial calls) ≡ record (run initial calls) {
      handlers = without 200 (run initial calls).handlers;
      max_priority = pos 7;
    }
unfolding run log_register_message_handler log_unregister_message_handler without top
log_unregister_lem_example = log_unregister_lem 200 (run initial calls) refl

run-IsBound_example : IsBound (run initial calls)
run-IsBound_example = run-IsBound initial calls tt

run-run_until_example :
    dispatch (run initial calls) warning []
    ≡ run_until (takers (pos 4) (run initial calls).handlers) warning []
unfolding run log_register_message_handler log_unregister_message_handler
run-run_until_example = run-run_until calls warning [] refl
