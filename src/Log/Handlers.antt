-- ===== src/Log/Handlers.antt =====
-- The handlers of lib/log.c that print a message, as the text that they print.
use tinu.Prelude.{
  ℕ, zero, suc, Bool, true, not, [], ◌∷◌, ◌++◌, ◌%◌, ◌^◌, ℤ, pos, negsuc, int_leb, leb, Str, bytes,
  ◌==◌, if◌then◌else◌, Outcome, ok, abort, ◌>>=◌, deref,
}
use tinu.Message.{Message, slot, msg_format_simple}
use tinu.Message.Priority.{msg_format_priority}

-- `msg_file_handler`: what goes into the file; it propagates the message.
unfoldable pub msg_file_handler : Message → Outcome (Str × Bool)
msg_file_handler msg = do
  buffer ← msg_format_simple msg
  name ← msg_format_priority msg.priority
  name ← deref name
  ok (bytes "[" ++ (name ++ (bytes "] " ++ (buffer ++ b'\n' ∷ []))), true)

-- `(gboolean)user_data`: the low 32 bits of the pointer.
abbrev pub as_gboolean : ℕ → Bool
as_gboolean user_data = not (user_data % 2 ^ 32 == 0)

-- `msg_stderr_handler`: the same text on stderr; the user data says whether it propagates.
unfoldable pub msg_stderr_handler : Message → ℕ → Outcome (Str × Bool)
unfolding msg_file_handler
msg_stderr_handler msg user_data = do
  printed ← msg_file_handler msg
  ok (printed.0, as_gboolean user_data)

-- `msg_syslog_handler`: the text that goes to syslog.
unfoldable pub msg_syslog_handler : Message → ℕ → Outcome (Str × Bool)
msg_syslog_handler msg user_data = do
  buffer ← msg_format_simple msg
  ok (buffer, as_gboolean user_data)

-- The switch of `msg_stderr_fancy_handler`.
unfoldable pub color : ℤ → Str
color priority = elim priority [
  | pos p ↦
      if leb p 2
      then (27 ∷ bytes "[41m") ++ (27 ∷ bytes "[1;37m")
      else if p == 3
      then 27 ∷ bytes "[1;31m"
      else if p == 4
      then 27 ∷ bytes "[1;33m"
      else if p == 7
      then 27 ∷ bytes "[1;30m"
      else 27 ∷ bytes "[1;34m"
  | negsuc p ↦ 27 ∷ bytes "[1;34m"
]

-- The loop over the tags from slot `i`.
unfoldable pub fancy_tags : ℕ → ℕ → Message → Outcome Str
unfolding slot
fancy_tags zero i msg = ok []
fancy_tags (suc n) i msg = do
  t ← slot msg.tags i
  rest ← fancy_tags n (suc i) msg
  ok (
      bytes " ["
      ++ ((27 ∷ bytes "[36m")
          ++ (t.tag ++ ((27 ∷ bytes "[0m=") ++ (t.value ++ (bytes "]" ++ rest))))))

unfoldable pub msg_stderr_fancy_handler : Message → ℕ → Outcome (Str × Bool)
unfolding color fancy_tags
msg_stderr_fancy_handler msg user_data = do
  name ← msg_format_priority msg.priority
  name ← deref name
  tags ← fancy_tags msg.tag_count 0 msg
  ok (
    bytes "["
        ++ (color msg.priority
            ++ (name ++ ((27 ∷ bytes "[0m] ") ++ (msg.message ++ (tags ++ b'\n' ∷ []))))),
    as_gboolean user_data,
  )

-- `msg_fail_handler`
unfoldable pub msg_fail_handler : Message → ℤ → Outcome Bool
msg_fail_handler msg user_data = if int_leb msg.priority user_data then abort else ok true
