-- ===== src/Tests/Messages.antt =====
-- lib/message.c at small messages.
use tinu.Prelude.{◌≡◌, refl, List, [], ◌∷◌, pos, some, bytes, ok, abort, crash, str_eq, ◌>>=◌}
use tinu.Message.{
  MessageTag, Message, renew, next_size, slot, store_slot, append_tag, append_tags, trim_tags,
  msg_vcreate, msg_copy, remove_tag_from, msg_remove_tag, msg_format_simple, shift_down,
}
use tinu.Message.Tags.{HasTags, erase_first, msg_copy_lem}
use tinu.Message.Remove.{msg_remove_tag-erase_first}
use tinu.Message.Append.{msg_vcreate_lem}
use tinu.Message.Values.{msg_tag_dump}
use tinu.Log.Handlers.{msg_stderr_fancy_handler, msg_stderr_handler}
use tinu.Log.Fancy.{without_colours, strip-msg_stderr_fancy_handler}
use tinu.Standard.Strip.{literal}

abbrev colour : MessageTag
colour = record { tag = bytes "colour"; value = bytes "red" }

abbrev line : MessageTag
line = record { tag = bytes "line"; value = bytes "12" }

abbrev two_tags : List MessageTag
two_tags = colour ∷ line ∷ []

abbrev message : Message
message = record {
  priority = pos 3;
  message = bytes "Oops";
  tag_count = 2;
  tags = some colour ∷ some line ∷ [];
}

message-HasTags : HasTags message two_tags
message-HasTags = record { count = refl; slots = refl }

-- Two tags go through an array of eight slots.
create_runs : msg_vcreate 8 (pos 3) (bytes "Oops") two_tags ≡ ok message
unfolding msg_vcreate append_tags append_tag trim_tags renew next_size store_slot
create_runs = refl

-- Seven slots are too few for them.
create_aborts : msg_vcreate 7 (pos 3) (bytes "Oops") two_tags ≡ abort
unfolding msg_vcreate append_tags append_tag trim_tags renew next_size store_slot
create_aborts = refl

remove_runs :
    msg_remove_tag 8 message (bytes "colour")
    ≡ ok (record message { tag_count = 1; tags = some line ∷ [] })
unfolding msg_remove_tag remove_tag_from slot shift_down renew str_eq
remove_runs = refl

format_runs : msg_format_simple message ≡ ok (bytes "Oops [colour=red] [line=12]")
unfolding msg_format_simple
format_runs = refl

msg_vcreate_lem_example : msg_vcreate 8 (pos 3) (bytes "Oops") two_tags ≡ ok message
msg_vcreate_lem_example = msg_vcreate_lem 8 (pos 3) (bytes "Oops") two_tags

msg_copy_lem_example : msg_copy message ≡ crash
msg_copy_lem_example = msg_copy_lem message message-HasTags

msg_remove_tag-erase_first_example :
    msg_remove_tag 8 message (bytes "colour")
    ≡ ok (record message { tag_count = 1; tags = some line ∷ [] })
unfolding erase_first str_eq
msg_remove_tag-erase_first_example =
    msg_remove_tag-erase_first 8 message (bytes "colour") message-HasTags refl

dumped : (msg_tag_dump (bytes "data") (0 ∷ 171 ∷ 255 ∷ [])).value ≡ bytes "00 AB FF "
unfolding msg_tag_dump
dumped = refl

strip-msg_stderr_fancy_handler_example :
    (msg_stderr_fancy_handler message 1 >>= without_colours) ≡ msg_stderr_handler message 1
strip-msg_stderr_fancy_handler_example =
    strip-msg_stderr_fancy_handler message two_tags message-HasTags 1 (literal (bytes "Oops") refl)
      (
        (literal (bytes "colour") refl, literal (bytes "red") refl),
        ((literal (bytes "line") refl, literal (bytes "12") refl), tt),
      )
