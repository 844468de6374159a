-- ===== src/Message.antt =====
-- lib/message.c and lib/tinu/message.h: log messages with an array of tags.
pub mod Slots
pub mod Append
pub mod Tags
pub mod Remove
pub mod Priority
pub mod Values
use tinu.Prelude.{
  ℕ, zero, suc, ◌+◌, ◌-◌, ◌*◌, ◌%◌, ◌^◌, ◌≡◌, Bool, true, false, ◌&&◌, not, Option, none, some,
  List, [], ◌∷◌, ◌++◌, ℤ, pos, negsuc, int_leb, Str, bytes, str_eq, length, get_elem?, set, take,
  drop, leb, ltb, ◌==◌, if◌then◌else◌, Outcome, ok, abort, crash, ◌>>=◌, ◌>>◌, assert_that, deref,
}
use tinu.Names.{NameTable, tinu_lookup_key, tinu_lookup_name}

pub record MessageTag : Type 0 where
  pub tag : Str
  pub value : Str

-- An array slot that was never written is `none`.
pub record Message : Type 0 where
  pub priority : ℤ
  pub message : Str
  pub tag_count : ℕ
  pub tags : List (Option MessageTag)

-- The array at its new size: what fits is kept, what is new is not initialised.
unfoldable pub resize {ℓ} : {A : Type ℓ} → ℕ → List (Option A) → List (Option A)
resize zero xs = []
resize (suc n) [] = none ∷ resize n []
resize (suc n) (x ∷ xs) = x ∷ resize n xs

-- The pointer stored in a slot of the array; outside it, or never written, the access is bad.
unfoldable pub slot {ℓ} : {A : Type ℓ} → List (Option A) → ℕ → Outcome A
slot xs i = deref (get_elem? xs i) >>= deref

unfoldable pub store_slot {ℓ} :
    {A : Type ℓ} → List (Option A) → ℕ → Option A → Outcome (List (Option A))
store_slot xs i v = if ltb i (length xs) then ok (set xs i v) else crash

-- `memmove(xs + i, xs + i + 1, n * sizeof *xs)`
unfoldable pub shift_down {ℓ} : {A : Type ℓ} → List A → ℕ → ℕ → List A
shift_down xs i n = take i xs ++ (take n (drop (suc i) xs) ++ drop (i + n) xs)

-- `_msg_tag_clear` for the slots 0 to `tag_count - 1`: the tags that are freed.
unfoldable pub clear_tags : ℕ → ℕ → Message → Outcome (List MessageTag)
unfolding slot
clear_tags zero i self = ok []
clear_tags (suc n) i self = do
  t ← slot self.tags i
  freed ← clear_tags n (suc i) self
  ok (t ∷ freed)

unfoldable pub msg_destroy : Message → Outcome (List MessageTag)
unfolding clear_tags
msg_destroy self = clear_tags self.tag_count 0 self

-- The copying loop from slot `i`, `n` rounds before its end: it reads the array of the result.
unfoldable pub copy_tags : ℕ → ℕ → Message → Outcome Message
unfolding slot store_slot
copy_tags zero i res = ok res
copy_tags (suc n) i res = do
  t ← slot res.tags i
  tags ← store_slot res.tags i (some (record { tag = t.tag; value = t.value }))
  copy_tags n (suc i) (record res { tags = tags })

unfoldable pub msg_copy : Message → Outcome Message
unfolding copy_tags
msg_copy self = copy_tags self.tag_count 0 (record self { tags = [] })

unfoldable pub find_tag_from : ℕ → ℕ → Message → Str → Outcome (Option MessageTag)
unfolding slot
find_tag_from zero i self name = ok none
find_tag_from (suc n) i self name = do
  t ← slot self.tags i
  let rest = find_tag_from n (suc i) self name
  if str_eq t.tag name then ok (some t) else rest

unfoldable pub msg_find_tag : Message → Str → Outcome (Option MessageTag)
unfolding find_tag_from
msg_find_tag self name = find_tag_from self.tag_count 0 self name

-- " [tag=value]" for the slots from `i`.
unfoldable pub format_tags : ℕ → ℕ → Message → Outcome Str
unfolding slot
format_tags zero i self = ok []
format_tags (suc n) i self = do
  t ← slot self.tags i
  rest ← format_tags n (suc i) self
  ok (bytes " [" ++ (t.tag ++ (bytes "=" ++ (t.value ++ (bytes "]" ++ rest)))))

unfoldable pub msg_format_simple : Message → Outcome Str
unfolding format_tags
msg_format_simple self = do tags ← format_tags self.tag_count 0 self; ok (self.message ++ tags)

-- `limit` is the largest number of pointers that `g_renew` can grant; beyond it GLib aborts.
module _ (limit : ℕ) where
  -- `g_renew` with a size of type gint: a negative one, read as unsigned, is never granted.
  unfoldable pub renew {ℓ} : {A : Type ℓ} → ℕ → List (Option A) → Outcome (List (Option A))
  unfolding resize
  renew n xs = if ltb n (2 ^ 31) && leb n limit then ok (resize n xs) else abort

  -- `*size = 4` or `*size <<= 1`, on 32 bits
  unfoldable pub next_size : ℕ → ℕ
  next_size size = if size == 0 then 4 else (size * 2) % 2 ^ 32

  unfoldable pub append_tag : Message → MessageTag → ℕ → Outcome (Message × ℕ)
  append_tag msg tag size = do
    (tags, size') ←
        (if leb msg.tag_count size
          then (do tags ← renew (next_size size) msg.tags; ok (tags, next_size size))
          else ok (msg.tags, size))
    tags' ← store_slot tags msg.tag_count (some tag)
    ok (record msg { tag_count = msg.tag_count + 1; tags = tags' }, size')

  -- The loop over the variable arguments, which a `NULL` ends.
  unfoldable pub append_tags : Message → List MessageTag → ℕ → Outcome (Message × ℕ)
  append_tags msg [] size = ok (msg, size)
  append_tags msg (t ∷ ts) size = do
    (msg', size') ← append_tag msg t size
    append_tags msg' ts size'

  -- The array is cut to the tags it holds.
  unfoldable pub trim_tags : Message → Outcome Message
  trim_tags msg = do tags ← renew msg.tag_count msg.tags; ok (record msg { tags = tags })

  unfoldable pub msg_vcreate : ℤ → Str → List MessageTag → Outcome Message
  msg_vcreate priority msg ts = do
    (self, size) ←
        append_tags (record { priority = priority; message = msg; tag_count = 0; tags = [] }) ts 0
    trim_tags self

  unfoldable pub msg_vappend : Message → List MessageTag → Outcome Message
  msg_vappend self ts = do (self', size) ← append_tags self ts self.tag_count; trim_tags self'

  -- The variable arguments are a list.
  unfoldable pub msg_create : ℤ → Str → List MessageTag → Outcome Message
  unfolding msg_vcreate
  msg_create priority msg ts = msg_vcreate priority msg ts

  unfoldable pub msg_append : Message → List MessageTag → Outcome Message
  unfolding msg_vappend
  msg_append self ts = msg_vappend self ts

  -- The loop of `msg_remove_tag` from slot `i`, `n` rounds before its end.
  unfoldable pub remove_tag_from : ℕ → ℕ → Message → Str → Outcome Message
  remove_tag_from zero i self tag = ok self
  remove_tag_from (suc n) i self tag = do
    t ← slot self.tags i
    let rest = remove_tag_from n (suc i) self tag
    if str_eq t.tag tag
        then (do
          let moved =
              if not (i + 1 == self.tag_count)
              then shift_down self.tags i (self.tag_count - i - 1)
              else self.tags
          tags ← renew (self.tag_count - 1) moved
          ok (record self { tag_count = self.tag_count - 1; tags = tags }))
        else rest

  unfoldable pub msg_remove_tag : Message → Str → Outcome Message
  msg_remove_tag self tag = remove_tag_from self.tag_count 0 self tag
