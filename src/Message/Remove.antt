-- ===== src/Message/Remove.antt =====
-- Removing a tag, against the list of tags without its first one of the name.
use tinu.Prelude.{
  ℕ, suc, ◌+◌, ◌-◌, ◌≡◌, sym, ◌∙◌, true, false, some, List, [], ◌∷◌, ◌++◌, map, length, Option, Str,
  str_eq, ok, arith, inl, inr, Bool-cases, length-append, if◌then◌else◌, ◌==◌, not,
}
use mathlib.Core.List.{append_assoc, map-append, append-nil}
use tinu.Message.{
  MessageTag, Message, resize, slot, renew, remove_tag_from, msg_remove_tag, shift_down,
}
use tinu.Message.Slots.{length-map-some, resize-append, shift_down_lem, slot-append}
use tinu.Message.Tags.{HasTags, fits, erase_first}

removed_slots {ℓ} :
    {A : Type ℓ} (xs : List (Option A)) (y : Option A) (ys : List (Option A)) (i count : ℕ)
    → i ≡ length xs
    → count ≡ length xs + suc (length ys)
    → resize
        (count - 1)
        (if not (i + 1 == count) then shift_down (xs ++ y ∷ ys) i (count - i - 1) else xs ++ y ∷ ys)
      ≡ xs ++ ys
removed_slots xs y [] i count e c =
    let last : (i + 1 == count) ≡ true = ground arith in
    let n : count - 1 ≡ length xs = omega arith in
    rw (last, n) (resize-append xs (y ∷ []) ∙ sym (append-nil xs))
removed_slots xs y (z ∷ ys) i count e c =
    let more : (i + 1 == count) ≡ false = ground arith in
    let n : count - 1 ≡ length (xs ++ z ∷ ys) = omega (arith, length-append xs (z ∷ ys)) in
    let k : count - i - 1 ≡ length (z ∷ ys) = omega arith in
    let (end, shifted) = shift_down_lem xs y (z ∷ ys) in
    rw (more, n, k, e, shifted, ← append_assoc) (resize-append (xs ++ z ∷ ys) end)

renew_of_fits {ℓ} :
    {A : Type ℓ} (limit n : ℕ) (xs : List (Option A))
    → fits limit n ≡ true
    → renew limit n xs ≡ ok (resize n xs)
unfolding renew
renew_of_fits limit n xs f = rw f

ok_message :
    (m : Message) {n k : ℕ} {xs ys : List (Option MessageTag)}
    → n ≡ k
    → xs ≡ ys
    → ok (record m { tag_count = n; tags = xs }) ≡ ok (record m { tag_count = k; tags = ys })
ok_message m e f = rw (e, f)

-- The loop of `msg_remove_tag` past the tags `done`, none of which has the name.
remove_tag_from-erase_first :
    (limit : ℕ) (self : Message) (name : Str) (rest done : List MessageTag)
    → self.tag_count ≡ length done + length rest
    → self.tags ≡ map some done ++ map some rest
    → fits limit self.tag_count ≡ true
    → remove_tag_from limit (length rest) (length done) self name
      ≡ ok (record self {
        tag_count = length done + length (erase_first name rest);
        tags = map some done ++ map some (erase_first name rest);
      })
unfolding remove_tag_from erase_first
remove_tag_from-erase_first limit self name [] done c e f = ground arith
remove_tag_from-erase_first limit self name (t ∷ rest) done c e f =
    let s : slot self.tags (length done) ≡ ok t = rw e (slot-append done t rest) in
    rw s (elim (Bool-cases (str_eq t.tag name)) [
      | inl hit ↦ rw hit (
          let fewer : fits limit (self.tag_count - 1) ≡ true = ground arith in
          let gone : resize (self.tag_count - 1) (
                if not (length done + 1 == self.tag_count)
                then shift_down self.tags (length done) (self.tag_count - length done - 1)
                else self.tags)
              ≡ map some done ++ map some rest =
            rw e (
              removed_slots (map some done) (some t) (map some rest) (length done) self.tag_count
                (sym (length-map-some done))
                (omega (arith, length-map-some done, length-map-some rest))) in
          rw (renew_of_fits limit (self.tag_count - 1) _ fewer, gone) (ground arith))
      | inr miss ↦ rw miss (
          let n : length (done ++ t ∷ []) ≡ suc (length done) =
            omega (arith, length-append done (t ∷ [])) in
          let tags = map-append some done (t ∷ []) in
          let ih =
            remove_tag_from-erase_first limit self name rest (done ++ t ∷ []) (omega arith)
              (rw (tags, append_assoc) e) f in
          (rw n at ih) ∙ ok_message self (omega arith) (rw (tags, append_assoc)))
    ])

-- For a message whose slots are its tags, within the limit, `msg_remove_tag` takes out the first
-- tag of the name, if there is one, and keeps the others in order.
pub msg_remove_tag-erase_first :
    (limit : ℕ) (m : Message) (name : Str) {ts : List MessageTag}
    → HasTags m ts
    → fits limit m.tag_count ≡ true
    → msg_remove_tag limit m name
      ≡ ok (record m {
        tag_count = length (erase_first name ts);
        tags = map some (erase_first name ts);
      })
unfolding msg_remove_tag
msg_remove_tag-erase_first limit m name {ts} h f =
    ground (arith, h.count, h.slots, remove_tag_from-erase_first limit m name ts [])
