-- ===== src/Message/Values.antt =====
-- The tags of lib/message.c with a formatted value.
use tinu.Prelude.{
  ℕ, ◌+◌, ◌-◌, ◌*◌, ◌/◌, ◌%◌, ◌^◌, ◌<◌, ◌≡◌, refl, ap₂, ◌∙◌, false, List, [], ◌∷◌, ◌++◌, Str, bytes,
  ltb, leb, ◌==◌, if◌then◌else◌, All, show_int32, show_hex, arith,
}
use tinu.Message.{MessageTag}

-- `_msg_generate_tag` and `_msg_generate_vtag`, behind the formatting.
unfoldable pub msg_generate_tag : Str → Str → MessageTag
msg_generate_tag tag value = record { tag = tag; value = value }

unfoldable pub msg_tag_int : Str → ℕ → MessageTag
unfolding msg_generate_tag
msg_tag_int tag value = msg_generate_tag tag (show_int32 value)

unfoldable pub msg_tag_hex : Str → ℕ → MessageTag
unfolding msg_generate_tag
msg_tag_hex tag value = msg_generate_tag tag (bytes "0x" ++ show_hex (value % 2 ^ 32))

-- `%p` of NULL is "(nil)".
unfoldable pub msg_tag_ptr : Str → ℕ → MessageTag
unfolding msg_generate_tag
msg_tag_ptr tag ptr =
    msg_generate_tag tag (if ptr == 0 then bytes "(nil)" else bytes "0x" ++ show_hex ptr)

-- `strerror` is the library's.
unfoldable pub msg_tag_errno : (ℕ → Str) → ℕ → MessageTag
unfolding msg_generate_tag
msg_tag_errno strerror errno =
    msg_generate_tag (bytes "errno")
      (show_int32 errno ++ (bytes "(\"" ++ (strerror errno ++ bytes "\")")))

-- The name of the domain, the code and the message of a GError.
unfoldable pub msg_tag_gerror : Str → ℕ → Str → MessageTag
unfolding msg_generate_tag
msg_tag_gerror domain err_code message = msg_generate_tag (bytes "g_error") (
    bytes "domain="
    ++ (domain ++ (bytes " code=" ++ (show_int32 err_code ++ (bytes " msg=" ++ message)))))

-- A digit of `%02X`
unfoldable pub upper_digit : ℕ → ℕ
upper_digit d = if ltb d 10 then b'0' + d else b'A' + (d - 10)

-- The loop of `msg_tag_dump` over the bytes.
unfoldable pub dump_loop : List ℕ → Str
unfolding upper_digit
dump_loop [] = []
dump_loop (b ∷ data_) = upper_digit (b / 16) ∷ upper_digit (b % 16) ∷ b' ' ∷ dump_loop data_

unfoldable pub msg_tag_dump : Str → List ℕ → MessageTag
unfolding dump_loop
msg_tag_dump tag data_ = record { tag = tag; value = dump_loop data_ }

-- What a digit of a dump stands for.
unfoldable pub digit_value : ℕ → ℕ
digit_value c = if leb c b'9' then c - b'0' else c - b'A' + 10

-- The bytes of a dump, from the digits before each space.
unfoldable pub read_dump : Str → ℕ → List ℕ
unfolding digit_value
read_dump [] n = []
read_dump (c ∷ s) n =
    let done = n ∷ read_dump s 0 in
    let more = read_dump s (n * 16 + digit_value c) in if c == b' ' then done else more

digit_value-upper_digit : (d : ℕ) → d < 16 → digit_value (upper_digit d) ≡ d
unfolding digit_value upper_digit
digit_value-upper_digit d h = ground arith

upper_digit_printed : (d : ℕ) → d < 16 → (upper_digit d == b' ') ≡ false
unfolding upper_digit
upper_digit_printed d h = ground arith

read_dump_digit :
    (d n : ℕ) (s : Str) → d < 16 → read_dump (upper_digit d ∷ s) n ≡ read_dump s (n * 16 + d)
unfolding read_dump
read_dump_digit d n s h = rw (upper_digit_printed d h, digit_value-upper_digit d h)

read_dump_space : (n : ℕ) (s : Str) → read_dump (b' ' ∷ s) n ≡ n ∷ read_dump s 0
unfolding read_dump
read_dump_space n s = refl

read_dump-dump_loop :
    (data_ : List ℕ) → All (λ b. b < 256) data_ → read_dump (dump_loop data_) 0 ≡ data_
unfolding dump_loop
read_dump-dump_loop [] h = unfold read_dump in refl
read_dump-dump_loop (b ∷ data_) h =
    read_dump_digit (b / 16) 0 _ (omega (arith, h.0))
    ∙ read_dump_digit (b % 16) (0 * 16 + b / 16) _ (omega arith)
    ∙ read_dump_space ((0 * 16 + b / 16) * 16 + b % 16) (dump_loop data_)
    ∙ ap₂ ◌∷◌ (omega arith) (read_dump-dump_loop data_ h.1)

-- The value of a tag made by `msg_tag_dump` is read back as the bytes dumped, which are below 256.
pub read_dump-msg_tag_dump :
    (tag : Str) (data_ : List ℕ)
    → All (λ b. b < 256) data_
    → read_dump (msg_tag_dump tag data_).value 0 ≡ data_
unfolding msg_tag_dump
read_dump-msg_tag_dump tag data_ h = read_dump-dump_loop data_ h
