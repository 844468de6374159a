-- ===== src/Message/Tags.antt =====
-- Reading, removing and freeing the tags of a message, against the plain list of its tags.
use tinu.Prelude.{
  ℕ, zero, suc, ◌^◌, ◌≡◌, refl, Bool, Option, none, some, List, [], ◌∷◌, ◌++◌, map, length, drop,
  Str, bytes, str_eq, ok, crash, arith, if◌then◌else◌, ◌==◌, leb, ltb, ◌&&◌,
}
use tinu.Message.{
  MessageTag, Message, slot, clear_tags, msg_destroy, copy_tags, msg_copy, find_tag_from,
  msg_find_tag, format_tags, msg_format_simple,
}
use tinu.Message.Slots.{drop-suc, slot_of_drop}

-- A size that `g_renew` grants.
abbrev pub fits : ℕ → ℕ → Bool
fits limit size = ltb size (2 ^ 31) && leb size limit

-- The message holds exactly these tags, and its array has no slot beyond them.
pub record HasTags (m : Message) (ts : List MessageTag) : Type 0 where
  pub count : m.tag_count ≡ length ts
  pub slots : m.tags ≡ map some ts

-- The first tag of the name.
unfoldable pub find_first : Str → List MessageTag → Option MessageTag
find_first name [] = none
find_first name (t ∷ ts) = if str_eq t.tag name then some t else find_first name ts

-- The list without the first tag of the name.
unfoldable pub erase_first : Str → List MessageTag → List MessageTag
erase_first name [] = []
erase_first name (t ∷ ts) = if str_eq t.tag name then ts else t ∷ erase_first name ts

-- " [tag=value]" for each tag.
unfoldable pub show_tags : List MessageTag → Str
show_tags [] = []
show_tags (t ∷ ts) =
    bytes " [" ++ (t.tag ++ (bytes "=" ++ (t.value ++ (bytes "]" ++ show_tags ts))))

copy_tags_empty :
    (n : ℕ) (m : Message)
    → copy_tags n 0 (record m { tags = [] })
      ≡ (if n == 0 then ok (record m { tags = [] }) else crash)
unfolding copy_tags slot
copy_tags_empty zero m = refl
copy_tags_empty (suc n) m = ground arith

empty_slots : (ts : List MessageTag) → length ts ≡ 0 → map {B = Option MessageTag} some ts ≡ []
empty_slots [] e = refl
empty_slots (t ∷ ts) e = absurd (omega arith)

module _ (m : Message) where
  find_tag_from-find_first :
      (name : Str) (rest : List MessageTag) (i : ℕ)
      → drop i m.tags ≡ map some rest
      → find_tag_from (length rest) i m name ≡ ok (find_first name rest)
  unfolding find_tag_from find_first
  find_tag_from-find_first name [] i e = refl
  find_tag_from-find_first name (t ∷ rest) i e = ground (
    arith,
    slot_of_drop i m.tags {y = t} {ys = map some rest} e,
    find_tag_from-find_first name rest (suc i)
        (drop-suc i m.tags {y = some t} {ys = map some rest} e),
  )

  clear_tags_lem :
      (rest : List MessageTag) (i : ℕ)
      → drop i m.tags ≡ map some rest
      → clear_tags (length rest) i m ≡ ok rest
  unfolding clear_tags
  clear_tags_lem [] i e = refl
  clear_tags_lem (t ∷ rest) i e = rw (
    slot_of_drop i m.tags {y = t} {ys = map some rest} e,
    clear_tags_lem rest (suc i) (drop-suc i m.tags {y = some t} {ys = map some rest} e),
  )

  format_tags-show_tags :
      (rest : List MessageTag) (i : ℕ)
      → drop i m.tags ≡ map some rest
      → format_tags (length rest) i m ≡ ok (show_tags rest)
  unfolding format_tags show_tags
  format_tags-show_tags [] i e = refl
  format_tags-show_tags (t ∷ rest) i e = rw (
    slot_of_drop i m.tags {y = t} {ys = map some rest} e,
    format_tags-show_tags rest (suc i) (drop-suc i m.tags {y = some t} {ys = map some rest} e),
  )

  module _ {ts : List MessageTag} (h : HasTags m ts) where
    -- For a message whose slots are its tags, `msg_find_tag` returns the first tag of the name,
    -- `NULL` if there is none, and reads no slot outside the array.
    pub msg_find_tag-find_first : (name : Str) → msg_find_tag m name ≡ ok (find_first name ts)
    unfolding msg_find_tag
    msg_find_tag-find_first name = simp h.count (find_tag_from-find_first name ts 0 h.slots)

    -- For a message whose slots are its tags, `msg_destroy` frees every tag, each once.
    pub msg_destroy_lem : msg_destroy m ≡ ok ts
    unfolding msg_destroy
    msg_destroy_lem = simp h.count (clear_tags_lem ts 0 h.slots)

    -- For a message whose slots are its tags, `msg_format_simple` writes the text and behind it
    -- each tag, in order, in the form of `show_tags`.
    pub msg_format_simple-show_tags : msg_format_simple m ≡ ok (m.message ++ show_tags ts)
    unfolding msg_format_simple
    msg_format_simple-show_tags = simp (h.count, format_tags-show_tags ts 0 h.slots)

    -- For a message whose slots are its tags: if there is a tag, `msg_copy` reads through the
    -- array of the result, which is `NULL`, and crashes; without one it gives an equal message.
    pub msg_copy_lem : msg_copy m ≡ (if length ts == 0 then ok m else crash)
    unfolding msg_copy
    msg_copy_lem = ground (arith, copy_tags_empty m.tag_count m, empty_slots ts)
