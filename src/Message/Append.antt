-- ===== src/Message/Append.antt =====
-- Appending tags to a message: the sizes that the array goes through, and when that succeeds.
use tinu.Prelude.{
  ℕ, zero, suc, ◌+◌, ◌*◌, ◌^◌, ◌≤◌, ◌<◌, ◌≡◌, refl, ap, sym, ap₂, subst, ◌∙◌, true, Option, some,
  List, [], ◌∷◌, ◌++◌, map, length, ℤ, Str, ok, abort, ◌>>=◌, ◌≢◌, arith, inl, inr, Bool-cases,
  if◌then◌else◌, ◌==◌, leb, length-append,
}
use mathlib.Core.List.{append_assoc, map-append, append-nil}
use native.Mathlib.Nat.{pow-suc}
use tinu.Message.{
  MessageTag, Message, resize, renew, next_size, store_slot, append_tag, append_tags, trim_tags,
  msg_vcreate, msg_vappend,
}
use tinu.Message.Slots.{
  length-map-some, length-resize, resize-length, resize-resize, resize-append, set-resize,
}
use tinu.Message.Tags.{HasTags, fits}

-- Twice the size, from nothing to four.
abbrev pub grown : ℕ → ℕ
grown size = if size == 0 then 4 else size * 2

-- The size after `n` tags.
unfoldable pub grows : ℕ → ℕ → ℕ
grows zero size = size
grows (suc n) size = grows n (grown size)

grows-ge : (n size : ℕ) → size + n ≤ grows n size
unfolding grows
grows-ge zero size = omega arith
grows-ge (suc n) size = ground (arith, grows-ge n (grown size))

module _ (limit : ℕ) where
  fits_of_grows : (n size : ℕ) → fits limit (grows n size) ≡ true → fits limit size ≡ true
  fits_of_grows n size h = ground (arith, grows-ge n size)

  -- A message with the tags `ts`, in an array of `size` slots.
  abbrev filled : Message → List MessageTag → ℕ → Message
  filled m ts size = record m { tag_count = length ts; tags = resize size (map some ts) }

  next_size-grown : (size : ℕ) → fits limit size ≡ true → next_size limit size ≡ grown size
  unfolding next_size
  next_size-grown size h = ground arith

  renew-resize :
      (n size : ℕ) (xs : List (Option MessageTag))
      → length xs ≤ size
      → renew limit n (resize size xs) ≡ (if fits limit n then ok (resize n xs) else abort)
  unfolding renew
  renew-resize n size xs h = rw (resize-resize n size xs h)

  store_slot-resize :
      (n : ℕ) (ts : List MessageTag) (t : MessageTag)
      → length ts < n
      → store_slot (resize n (map some ts)) (length ts) (some t)
        ≡ ok (resize n (map some (ts ++ t ∷ [])))
  unfolding store_slot
  store_slot-resize n ts t h = ground (
    arith,
    length-resize n (map some ts),
    length-map-some ts,
    set-resize n (map some ts) (some t),
    map-append some ts (t ∷ []),
  )

  append_tag_lem :
      (m : Message) (ts : List MessageTag) (t : MessageTag) (size : ℕ)
      → length ts ≤ size
      → fits limit size ≡ true
      → append_tag limit (filled m ts size) t size ≡ (
          if fits limit (grown size)
          then ok (filled m (ts ++ t ∷ []) (grown size), grown size)
          else abort)
  unfolding append_tag
  append_tag_lem m ts t size h f =
      let small : leb (length ts) size ≡ true = ground arith in
      rw
        (
          small,
          next_size-grown size f,
          renew-resize (grown size) size (map some ts) (rw (length-map-some ts) h),
        )
        (elim (Bool-cases (fits limit (grown size))) [
          | inl y ↦
              rw (y, store_slot-resize (grown size) ts t (ground arith))
                (rw (length-append ts (t ∷ [])))
          | inr n ↦ rw n refl
        ])

  -- The loop over the tags: every size on the way is granted if the last one is.
  append_tags_lem :
      (m : Message) (new ts : List MessageTag) (size : ℕ)
      → length ts ≤ size
      → fits limit size ≡ true
      → append_tags limit (filled m ts size) new size ≡ (
          if fits limit (grows (length new) size)
          then ok (filled m (ts ++ new) (grows (length new) size), grows (length new) size)
          else abort)
  unfolding append_tags grows
  append_tags_lem m [] ts size h f = rw (f, append-nil)
  append_tags_lem m (t ∷ new) ts size h f =
      rw (append_tag_lem m ts t size h f) (elim (Bool-cases (fits limit (grown size))) [
        | inl y ↦ rw y (
            append_tags_lem m new (ts ++ t ∷ []) (grown size)
              (ground (arith, length-append ts (t ∷ []))) y
            ∙ rw (append_assoc ts (t ∷ []) new))
        | inr n ↦ rw n (ground (arith, fits_of_grows (length new) (grown size)))
      ])

  trim_tags_lem :
      (m : Message) (ts : List MessageTag) (size : ℕ)
      → length ts ≤ size
      → fits limit size ≡ true
      → trim_tags limit (filled m ts size)
        ≡ ok (record m { tag_count = length ts; tags = map some ts })
  unfolding trim_tags
  trim_tags_lem m ts size h f =
      rw (renew-resize (length ts) size (map some ts) (rw (length-map-some ts) h)) (
        ground
          (arith, resize-append (map some ts) [], length-map-some ts, append-nil (map some ts)))

  -- The largest array that appending `n` tags to `count` goes through.
  abbrev pub room : ℕ → ℕ → ℕ
  room count n = if n == 0 then count else if count == 0 then 2 ^ (n + 1) else count * 2 ^ n

  grows-pow : (n size : ℕ) → size ≢ 0 → grows n size ≡ size * 2 ^ n
  unfolding grows
  grows-pow zero size h = omega arith
  grows-pow (suc n) size h =
      let double : grown size ≡ size * 2 = ground arith in
      rw (double, pow-suc 2 n) (omega (arith, grows-pow n (size * 2) (omega arith)))

  grows-zero : (n : ℕ) → n ≢ 0 → grows n 0 ≡ 2 ^ (n + 1)
  unfolding grows
  grows-zero zero h = absurd (h refl)
  grows-zero (suc n) h =
      let two_more : suc n + 1 ≡ suc (suc n) = omega arith in
      rw (two_more, pow-suc 2 (suc n), pow-suc 2 n) (omega (arith, grows-pow n 4 (omega arith)))

  grows-room : (n count : ℕ) → grows n count ≡ room count n
  unfolding grows
  grows-room zero count = refl
  grows-room (suc n) zero = ground (arith, grows-zero (suc n))
  grows-room (suc n) (suc count) = ground (arith, grows-pow (suc n) (suc count))

  -- The message that holds exactly the tags `ts`.
  abbrev pub exactly : Message → List MessageTag → Message
  exactly m ts = record m { tag_count = length ts; tags = map some ts }

  loop_then_trim :
      (m : Message) (ts new : List MessageTag)
      → fits limit (length ts) ≡ true
      → (do (m', size) ← append_tags limit (exactly m ts) new (length ts); trim_tags limit m') ≡ (
          if fits limit (grows (length new) (length ts)) then ok (exactly m (ts ++ new)) else abort)
  loop_then_trim m ts new f =
      let start : exactly m ts ≡ filled m ts (length ts) =
        ap (λ xs. record m { tag_count = length ts; tags = xs })
          (ground (arith, resize-length (map some ts), length-map-some ts)) in
      rw (start, append_tags_lem m new ts (length ts) (omega arith) f)
        (elim (Bool-cases (fits limit (grows (length new) (length ts)))) [
          | inl y ↦ rw y (
              trim_tags_lem m (ts ++ new) (grows (length new) (length ts))
                (omega (arith, length-append ts new, grows-ge (length new) (length ts))) y)
          | inr n ↦ rw n
        ])

  -- `msg_vcreate` makes the message with exactly the given tags if the array for them is granted;
  -- that array doubles at every tag after the first, to 2 ^ (n + 1) slots for n tags, and where
  -- this is more than `g_renew` grants, or not a positive gint, the call aborts.
  pub msg_vcreate_lem :
      (priority : ℤ) (msg : Str) (ts : List MessageTag)
      → msg_vcreate limit priority msg ts ≡ (
          if fits limit (room 0 (length ts))
          then ok (record {
            priority = priority;
            message = msg;
            tag_count = length ts;
            tags = map some ts;
          })
          else abort)
  unfolding msg_vcreate
  msg_vcreate_lem priority msg ts = rw (← grows-room (length ts) 0) (
      loop_then_trim (record { priority = priority; message = msg; tag_count = 0; tags = [] }) [] ts
        (ground arith))

  -- For a message whose slots are its tags, within the limit, `msg_vappend` puts the given tags
  -- behind those of the message if the array is granted, which starts at the tags it has and
  -- doubles at every new one, and aborts otherwise.
  pub msg_vappend_lem :
      (m : Message) {ts : List MessageTag} (new : List MessageTag)
      → HasTags m ts
      → fits limit m.tag_count ≡ true
      → msg_vappend limit m new
        ≡ (if fits limit (room (length ts) (length new)) then ok (exactly m (ts ++ new)) else abort)
  unfolding msg_vappend
  msg_vappend_lem m {ts} new h f =
      let same : exactly m ts ≡ m =
        ap₂ (λ n xs. record m { tag_count = n; tags = xs }) (sym h.count) (sym h.slots) in
      subst
        (λ k. msg_vappend limit k new ≡ (
          if fits limit (room (length ts) (length new)) then ok (exactly m (ts ++ new)) else abort))
        same
        (rw (← grows-room (length new) (length ts)) (loop_then_trim m ts new (rw h.count at f)))
