-- ===== src/CxxWrap/Wrapped.antt =====
-- The map of CxxMessage (lib/cxxwrap.cc) against the tags of its message.
use tinu.Prelude.{
  ℕ, suc, ◌≡◌, refl, ap, sym, ◌∙◌, true, none, some, List, [], ◌∷◌, ◌++◌, Str, length,
  length-append, map, get_elem?, get_elem?-append, ◌==◌, ==_iff, if◌then◌else◌, ok, bind_cong,
  arith,
}
use mathlib.Core.List.{append_assoc, append-nil}
use tinu.Message.{MessageTag, Message, msg_append, msg_vappend, msg_remove_tag}
use tinu.Message.Tags.{HasTags, fits, erase_first}
use tinu.Message.Append.{room, msg_vappend_lem}
use tinu.Message.Remove.{msg_remove_tag-erase_first}
use tinu.CxxWrap.Tags.{
  TagListWrapper, find, insert, CxxMessage, wrap_from, wrap_tags, cxx_message_new, index,
  erase_pointers, written, add_tag_raw, remove_tag, last_of, find-insert, last_of-append, IsWrapped,
}

wrap_from-last_of :
    (self : CxxMessage) (done rest : List (ℕ × ℕ))
    → self.pointers ≡ done ++ rest
    → ((k : ℕ) → find self.wrapper k ≡ last_of done k)
    → (w : TagListWrapper) × (wrap_from (length rest) (length done) self
        ≡ ok (record self { wrapper = w }))
      × ((k : ℕ) → find w k ≡ last_of self.pointers k)
unfolding wrap_from
wrap_from-last_of self done [] same so_far =
    (self.wrapper, refl, λ k. so_far k ∙ ap (λ ps. last_of ps k) (sym (same ∙ append-nil done)))
wrap_from-last_of self done (p ∷ rest) same so_far =
    let here : get_elem? self.pointers (length done) ≡ some p =
      ap (λ ps. get_elem? ps (length done)) same ∙ get_elem?-append done p rest in
    let next : length (done ++ p ∷ []) ≡ suc (length done) =
      omega (arith, length-append done (p ∷ [])) in
    let (w, run, all) =
      wrap_from-last_of (record self { wrapper = insert p.0 p.1 self.wrapper }) (done ++ p ∷ [])
        rest (same ∙ sym (append_assoc done (p ∷ []) rest))
        (λ k.
          find-insert p.0 p.1 self.wrapper k
          ∙ ap (λ o. if p.0 == k then some p.1 else o) (so_far k)
          ∙ sym (last_of-append done p k)) in
    (w, rw here (rw next at run), all)

-- The map of a new CxxMessage has the tags of the message, each under the pointer to its name, and
-- nothing else, if every slot of the message has a tag.
pub cxx_message_new-IsWrapped :
    (obj : Message) (pointers : List (ℕ × ℕ))
    → obj.tag_count ≡ length pointers
    → (self : CxxMessage) × (cxx_message_new obj pointers ≡ ok self)
      × IsWrapped self
      × (self.obj ≡ obj)
unfolding cxx_message_new wrap_tags find last_of
cxx_message_new-IsWrapped obj pointers count =
    let start : CxxMessage = record { obj = obj; pointers = pointers; wrapper = [] } in
    let (w, run, all) = wrap_from-last_of start [] pointers refl (λ k. refl) in
    (
      record start { wrapper = w },
      ap (λ n. wrap_from n 0 start) count ∙ run,
      record { slots = count; agrees = all },
      refl,
    )

module _ (limit : ℕ) where
  -- Adding a tag to a message whose slots are its tags, within the limit and where the array for
  -- one more is granted, puts it behind the others, and the map still has the tags of the message
  -- and nothing else.
  pub add_tag_raw-IsWrapped :
      (self : CxxMessage) {ts : List MessageTag} (tag : MessageTag) (pointer : ℕ × ℕ)
      → IsWrapped self
      → HasTags self.obj ts
      → fits limit self.obj.tag_count ≡ true
      → fits limit (room limit (length ts) 1) ≡ true
      → (self' : CxxMessage) × (add_tag_raw limit self tag pointer ≡ ok self')
        × IsWrapped self'
        × HasTags self'.obj (ts ++ tag ∷ [])
  unfolding add_tag_raw msg_append
  add_tag_raw-IsWrapped self {ts} tag pointer wrapped has small granted =
      let obj : Message = record self.obj {
        tag_count = length (ts ++ tag ∷ []);
        tags = map some (ts ++ tag ∷ []);
      } in
      let appended : msg_vappend limit self.obj (tag ∷ []) ≡ ok obj =
        msg_vappend_lem limit self.obj (tag ∷ []) has small ∙ rw granted refl in
      (
        record {
          obj = obj;
          pointers = self.pointers ++ pointer ∷ [];
          wrapper = insert pointer.0 pointer.1 self.wrapper;
        },
        bind_cong appended (λ q. refl),
        record {
          slots = omega (
            arith,
            length-append ts (tag ∷ []),
            length-append self.pointers (pointer ∷ []),
            has.count,
            wrapped.slots,
          );
          agrees = λ k.
              find-insert pointer.0 pointer.1 self.wrapper k
              ∙ ap (λ o. if pointer.0 == k then some pointer.1 else o) (wrapped.agrees k)
              ∙ sym (last_of-append self.pointers pointer k);
        },
        record { count = refl; slots = refl },
      )

  erased :
      (self : CxxMessage) (name : Str) {ts : List MessageTag}
      → HasTags self.obj ts
      → fits limit self.obj.tag_count ≡ true
      → (obj : Message) × (msg_remove_tag limit self.obj name ≡ ok obj)
        × HasTags obj (erase_first name ts)
  erased self name {ts} has small = (
    record self.obj {
      tag_count = length (erase_first name ts);
      tags = map some (erase_first name ts);
    },
    msg_remove_tag-erase_first limit self.obj name has small,
    record { count = refl; slots = refl },
  )

  missing :
      (self : CxxMessage) (key : ℕ)
      → find self.wrapper key ≡ none
      → index self key ≡ (0, record self { wrapper = insert key 0 self.wrapper })
  unfolding index
  missing self key e = rw (index, e) refl

  -- With a pointer that is not that of a tag's own name, such as a literal of the same text,
  -- `operator[]` finds nothing and `remove_tag` removes nothing, whatever tags the message has.
  -- But `operator[]` puts the pointer into the map: after it, `remove_tag` with that
  -- pointer takes the first tag of the text out of the message. This is for a message whose
  -- slots are its tags, within the limit.
  pub remove_tag-index :
      (self : CxxMessage) {ts : List MessageTag} (key : ℕ) (name : Str)
      → IsWrapped self
      → HasTags self.obj ts
      → fits limit self.obj.tag_count ≡ true
      → last_of self.pointers key ≡ none
      → ((index self key).0 ≡ 0)
        × (remove_tag limit self key name ≡ ok self)
        × (self' : CxxMessage) × (remove_tag limit (index self key).1 key name ≡ ok self')
        × HasTags self'.obj (erase_first name ts)
  unfolding remove_tag
  remove_tag-index self {ts} key name wrapped has small foreign =
      let none_there : find self.wrapper key ≡ none = wrapped.agrees key ∙ foreign in
      let put = missing self key none_there in
      let there : find (insert key 0 self.wrapper) key ≡ some 0 =
        find-insert key 0 self.wrapper key ∙ rw ((==_iff key key).1 refl) refl in
      let (obj, gone, left) = erased self name has small in
      (
        ap (λ r. r.0) put,
        rw (none_there, remove_tag) refl,
        record self {
          obj = obj;
          pointers = erase_pointers (written self.obj.tags) name self.pointers;
          wrapper = insert key 0 self.wrapper;
        },
        rw put (rw (there, remove_tag) (bind_cong gone (λ q. refl))),
        left,
      )

  -- With the pointer of a tag's own name, `remove_tag` takes the first tag of the name out of the
  -- message, and the map still has an entry for the pointer, with the value it had. This is for a
  -- message whose slots are its tags, within the limit.
  pub remove_tag-stale :
      (self : CxxMessage) {ts : List MessageTag} (key value : ℕ) (name : Str)
      → IsWrapped self
      → HasTags self.obj ts
      → fits limit self.obj.tag_count ≡ true
      → last_of self.pointers key ≡ some value
      → (self' : CxxMessage) × (remove_tag limit self key name ≡ ok self')
        × HasTags self'.obj (erase_first name ts)
        × (find self'.wrapper key ≡ some value)
  unfolding remove_tag
  remove_tag-stale self {ts} key value name wrapped has small own =
      let there : find self.wrapper key ≡ some value = wrapped.agrees key ∙ own in
      let (obj, gone, left) = erased self name has small in
      (
        record self {
          obj = obj;
          pointers = erase_pointers (written self.obj.tags) name self.pointers;
        },
        rw (there, remove_tag) (bind_cong gone (λ q. refl)),
        left,
        there,
      )
