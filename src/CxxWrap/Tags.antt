-- ===== src/CxxWrap/Tags.antt =====
-- CxxMessage (lib/cxxwrap.cc): a message with a map of its tags. The map is a std::map whose keys
-- and values are pointers, compared as pointers; NULL is 0.
use tinu.Prelude.{
  ℕ, zero, suc, ◌≡◌, Option, none, some, List, [], ◌∷◌, ◌++◌, Str, str_eq, length, get_elem?, ◌==◌,
  if◌then◌else◌, Outcome, ok, ◌>>=◌, deref, arith,
}
use tinu.Message.{MessageTag, Message, msg_append, msg_remove_tag}

-- `TagListWrapper`
abbrev pub TagListWrapper : Type 0
TagListWrapper = List (ℕ × ℕ)

unfoldable pub find : TagListWrapper → ℕ → Option ℕ
find [] key = none
find (e ∷ entries) key = if e.0 == key then some e.1 else find entries key

-- `wrapper[key] = value`
unfoldable pub insert : ℕ → ℕ → TagListWrapper → TagListWrapper
insert key value [] = (key, value) ∷ []
insert key value (e ∷ entries) =
    if e.0 == key then (key, value) ∷ entries else e ∷ insert key value entries

-- `pointers` are the `m_tag` and the `m_value` of the tags of `m_obj`, slot by slot.
pub record CxxMessage : Type 0 where
  pub obj : Message
  pub pointers : List (ℕ × ℕ)
  pub wrapper : TagListWrapper

-- The loop of `wrap_tags` from slot `i`, `n` rounds before its end.
unfoldable pub wrap_from : ℕ → ℕ → CxxMessage → Outcome CxxMessage
unfolding insert
wrap_from zero i self = ok self
wrap_from (suc n) i self = do
  tag ← deref (get_elem? self.pointers i)
  wrap_from n (suc i) (record self { wrapper = insert tag.0 tag.1 self.wrapper })

unfoldable pub wrap_tags : CxxMessage → Outcome CxxMessage
unfolding wrap_from
wrap_tags self = wrap_from self.obj.tag_count 0 (record self { wrapper = [] })

-- The constructor.
unfoldable pub cxx_message_new : Message → List (ℕ × ℕ) → Outcome CxxMessage
unfolding wrap_tags
cxx_message_new obj pointers = wrap_tags (record { obj = obj; pointers = pointers; wrapper = [] })

-- `operator[]`: what it returns, and the map, in which a key that is not there gets NULL.
unfoldable pub index : CxxMessage → ℕ → ℕ × CxxMessage
unfolding find insert
index self key = elim (find self.wrapper key) [
  | some value ↦ (value, self)
  | none ↦ (0, record self { wrapper = insert key 0 self.wrapper })
]

-- The pointers without those of the first tag of the name.
unfoldable pub erase_pointers : List MessageTag → Str → List (ℕ × ℕ) → List (ℕ × ℕ)
erase_pointers [] name ps = ps
erase_pointers (t ∷ ts) name [] = []
erase_pointers (t ∷ ts) name (p ∷ ps) =
    if str_eq t.tag name then ps else p ∷ erase_pointers ts name ps

-- The tags in the slots that were written.
unfoldable pub written : List (Option MessageTag) → List MessageTag
written [] = []
written (none ∷ slots) = written slots
written (some t ∷ slots) = t ∷ written slots

module _ (limit : ℕ) where
  -- `pointer` are the `m_tag` and the `m_value` of the tag.
  unfoldable pub add_tag_raw : CxxMessage → MessageTag → ℕ × ℕ → Outcome CxxMessage
  unfolding msg_append insert
  add_tag_raw self tag pointer = do
    obj ← msg_append limit self.obj (tag ∷ [])
    ok (record {
      obj = obj;
      pointers = self.pointers ++ pointer ∷ [];
      wrapper = insert pointer.0 pointer.1 self.wrapper;
    })

  -- `tag` is the pointer and `name` the text behind it.
  unfoldable pub remove_tag : CxxMessage → ℕ → Str → Outcome CxxMessage
  unfolding find msg_remove_tag erase_pointers written
  remove_tag self tag name = elim (find self.wrapper tag) [
    | none ↦ ok self
    | some _ ↦ do
      obj ← msg_remove_tag limit self.obj name
      ok (record self {
        obj = obj;
        pointers = erase_pointers (written self.obj.tags) name self.pointers;
      })
  ]

-- The value of the last of the tags that has the key.
unfoldable pub last_of : List (ℕ × ℕ) → ℕ → Option ℕ
last_of [] key = none
last_of (p ∷ ps) key = elim (last_of ps key) [
  | some value ↦ some value
  | none ↦ if p.0 == key then some p.1 else none
]

pub find-insert :
    (key value : ℕ) (entries : TagListWrapper) (k : ℕ)
    → find (insert key value entries) k ≡ (if key == k then some value else find entries k)
unfolding find insert
find-insert key value [] k = ground arith
find-insert key value (e ∷ entries) k = ground (arith, find-insert key value entries k)

pub last_of-append :
    (ps : List (ℕ × ℕ)) (p : ℕ × ℕ) (k : ℕ)
    → last_of (ps ++ p ∷ []) k ≡ (if p.0 == k then some p.1 else last_of ps k)
unfolding last_of
last_of-append [] p k = ground arith
last_of-append (q ∷ ps) p k = ground (arith, last_of-append ps p k)

-- The map has the tags of the message, the last one of a key, and nothing else.
pub record IsWrapped (self : CxxMessage) : Type 0 where
  pub slots : self.obj.tag_count ≡ length self.pointers
  pub agrees : (k : ℕ) → find self.wrapper k ≡ last_of self.pointers k
