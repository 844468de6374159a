-- ===== src/Message/Priority.antt =====
-- The names of the priorities, and the tags made of a text or a truth value (lib/message.c).
use tinu.Prelude.{
  zero, suc, ◌≡◌, refl, Bool, ◌&&◌, Option, some, [], ◌∷◌, ◌++◌, ℤ, pos, negsuc, int_leb, Str,
  bytes, strn_eq, Outcome, ok, abort, ◌>>◌, assert_that, arith, if◌then◌else◌,
}
use mathlib.Core.Option
use tinu.Names.{NameTable, entry, tinu_lookup_key, tinu_lookup_name}
use tinu.Message.{MessageTag}

abbrev pub log_emerg : ℤ
log_emerg = pos 0

abbrev pub log_err : ℤ
log_err = pos 3

abbrev pub log_debug : ℤ
log_debug = pos 7

unfoldable pub message_priority_names : NameTable
message_priority_names =
    entry (pos 0) (bytes "emergency") 9
    ∷ entry (pos 1) (bytes "alert") 5
    ∷ entry (pos 2) (bytes "critical") 8
    ∷ entry (pos 3) (bytes "error") 5
    ∷ entry (pos 4) (bytes "warning") 7
    ∷ entry (pos 5) (bytes "notice") 6
    ∷ entry (pos 6) (bytes "info") 4
    ∷ entry (pos 7) (bytes "debug") 5
    ∷ []

unfoldable pub msg_format_priority : ℤ → Outcome (Option Str)
unfolding message_priority_names
msg_format_priority priority = do
  assert_that (int_leb log_emerg priority && int_leb priority log_debug)
  ok (Option.map (λ r. r.0) (tinu_lookup_key message_priority_names priority))

unfoldable pub msg_get_priority_value : Str → ℤ
unfolding message_priority_names
msg_get_priority_value name = tinu_lookup_name message_priority_names name (negsuc 0) (negsuc 0)

unfoldable pub msg_tag_str : Str → Str → MessageTag
msg_tag_str tag string = record { tag = tag; value = bytes "\"" ++ (string ++ bytes "\"") }

unfoldable pub msg_tag_bool : Str → Bool → MessageTag
msg_tag_bool tag value = record { tag = tag; value = if value then bytes "true" else bytes "false" }

-- What a priority number must come to.
abbrev pub RoundTrips : ℤ → Type 0
RoundTrips p =
    (name : Str) × (msg_format_priority p ≡ ok (some name)) × (msg_get_priority_value name ≡ p)

-- Every priority from LOG_EMERG to LOG_DEBUG has a name that is read back as the priority; any
-- other number fails the assertion.
pub priority_round_trip :
    (p : ℤ)
    → (if int_leb log_emerg p && int_leb p log_debug
        then RoundTrips p
        else msg_format_priority p ≡ abort)
unfolding msg_format_priority msg_get_priority_value tinu_lookup_key tinu_lookup_name strn_eq
priority_round_trip (negsuc n) = ground arith
priority_round_trip (pos zero) = (bytes "emergency", refl, refl)
priority_round_trip (pos (suc zero)) = (bytes "alert", refl, refl)
priority_round_trip (pos (suc (suc zero))) = (bytes "critical", refl, refl)
priority_round_trip (pos (suc (suc (suc zero)))) = (bytes "error", refl, refl)
priority_round_trip (pos (suc (suc (suc (suc zero))))) = (bytes "warning", refl, refl)
priority_round_trip (pos (suc (suc (suc (suc (suc zero)))))) = (bytes "notice", refl, refl)
priority_round_trip (pos (suc (suc (suc (suc (suc (suc zero))))))) = (bytes "info", refl, refl)
priority_round_trip (pos (suc (suc (suc (suc (suc (suc (suc zero)))))))) =
    (bytes "debug", refl, refl)
priority_round_trip (pos (suc (suc (suc (suc (suc (suc (suc (suc n))))))))) = ground arith
