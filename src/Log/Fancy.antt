-- ===== src/Log/Fancy.antt =====
-- The handler for a terminal prints what the handler for a file prints, in colours.
use tinu.Prelude.{
  ℕ, suc, ◌≡◌, refl, ap, sym, ◌∙◌, Bool, true, Bool-cases, inl, inr, Option, none, some, List, [],
  ◌∷◌, ◌++◌, ℤ, pos, negsuc, leb, drop, length, map, Str, bytes, ◌==◌, All, Outcome, ok, abort,
  crash, ◌>>=◌, deref,
}
use mathlib.Core.List.{append_assoc}
use tinu.Message.{MessageTag, Message}
use tinu.Message.Priority.{msg_format_priority}
use tinu.Message.Slots.{drop-suc, slot_of_drop}
use tinu.Message.Tags.{HasTags, show_tags, msg_format_simple-show_tags}
use tinu.Log.Handlers.{
  as_gboolean, color, fancy_tags, msg_stderr_fancy_handler, msg_stderr_handler, msg_file_handler,
}
use tinu.Standard.Titles.{PlainName, priority-PlainName}
use tinu.Standard.Strip.{
  strip, Shows-strip, strip_from, Shows, Shows-plain, Shows-append, IsPlain, literal,
}

-- " [tag=value]" for each tag, with the name in colour.
unfoldable paint_tags : List MessageTag → Str
paint_tags [] = []
paint_tags (t ∷ ts) =
    bytes " ["
    ++ ((27 ∷ bytes "[36m")
        ++ (t.tag ++ ((27 ∷ bytes "[0m=") ++ (t.value ++ (bytes "]" ++ paint_tags ts)))))

abbrev pub PlainTag : MessageTag → Type 0
PlainTag t = IsPlain t.tag × IsPlain t.value

fancy_tags-paint_tags :
    (m : Message) (rest : List MessageTag) (i : ℕ)
    → drop i m.tags ≡ map some rest
    → fancy_tags (length rest) i m ≡ ok (paint_tags rest)
unfolding fancy_tags paint_tags
fancy_tags-paint_tags m [] i e = refl
fancy_tags-paint_tags m (t ∷ rest) i e = rw (
  slot_of_drop i m.tags {y = t} {ys = map some rest} e,
  fancy_tags-paint_tags m rest (suc i) (drop-suc i m.tags {y = some t} {ys = map some rest} e),
)

-- Texts in front of others, as they are printed and as they show.
abbrev printed : List (Str × Str) → Str → Str
printed [] s = s
printed (p ∷ ps) s = p.0 ++ printed ps s

abbrev shown : List (Str × Str) → Str → Str
shown [] s = s
shown (p ∷ ps) s = p.1 ++ shown ps s

Shows-segments :
    (ps : List (Str × Str)) (s t : Str)
    → All (λ p. Shows p.0 p.1) ps
    → Shows s t
    → Shows (printed ps s) (shown ps t)
Shows-segments [] s t h k = k
Shows-segments (p ∷ ps) s t h k =
    Shows-append p.0 (printed ps s) p.1 (shown ps t) h.0 (Shows-segments ps s t h.1 k)

color-Shows : (p : ℤ) → Shows (color p) []
unfolding color strip_from
color-Shows (negsuc p) rest = refl
color-Shows (pos p) rest = elim (Bool-cases (leb p 2)) [
  | inl fatal ↦ rw fatal refl
  | inr other ↦ rw other (elim (Bool-cases (p == 3)) [
    | inl err ↦ rw err refl
    | inr other' ↦ rw other' (elim (Bool-cases (p == 4)) [
      | inl warning ↦ rw warning refl
      | inr other'' ↦
          rw other'' (elim (Bool-cases (p == 7)) [
            | inl debug ↦ rw debug refl
            | inr default ↦ rw default refl
          ])
    ])
  ])
]

cyan-Shows : Shows (27 ∷ bytes "[36m") []
unfolding strip_from
cyan-Shows rest = refl

equals-Shows : Shows (27 ∷ bytes "[0m=") (bytes "=")
unfolding strip_from
equals-Shows rest = refl

reset-Shows : Shows (27 ∷ bytes "[0m] ") (bytes "] ")
unfolding strip_from
reset-Shows rest = refl

paint_tags-Shows : (ts : List MessageTag) → All PlainTag ts → Shows (paint_tags ts) (show_tags ts)
unfolding paint_tags show_tags
paint_tags-Shows [] h = Shows-plain [] tt
paint_tags-Shows (t ∷ ts) h =
    Shows-segments
      ((bytes " [", bytes " [")
        ∷ (27 ∷ bytes "[36m", [])
        ∷ (t.tag, t.tag)
        ∷ (27 ∷ bytes "[0m=", bytes "=")
        ∷ (t.value, t.value)
        ∷ (bytes "]", bytes "]")
        ∷ [])
      (paint_tags ts) (show_tags ts)
      (
        Shows-plain (bytes " [") (literal (bytes " [") refl),
        (
          cyan-Shows,
          (
            Shows-plain t.tag h.0.0,
            (
              equals-Shows,
              (Shows-plain t.value h.0.1, (Shows-plain (bytes "]") (literal (bytes "]") refl), tt)),
            ),
          ),
        ),
      )
      (paint_tags-Shows ts h.1)

abbrev pub without_colours : Str × Bool → Outcome (Str × Bool)
without_colours r = ok (strip r.0, r.1)

abbrev asking : Bool → Str × Bool → Outcome (Str × Bool)
asking b r = ok (r.0, b)

module _ (m : Message) (ts : List MessageTag) (h : HasTags m ts) where
  fancy_tags_lem : fancy_tags m.tag_count 0 m ≡ ok (paint_tags ts)
  fancy_tags_lem = simp h.count (fancy_tags-paint_tags m ts 0 h.slots)

  fancy-Shows :
      (name : Str)
      → IsPlain name
      → IsPlain m.message
      → All PlainTag ts
      → Shows
          (bytes "["
            ++ (color m.priority
                ++ (name
                    ++ ((27 ∷ bytes "[0m] ") ++ (m.message ++ (paint_tags ts ++ b'\n' ∷ []))))))
          (bytes "[" ++ (name ++ (bytes "] " ++ (m.message ++ (show_tags ts ++ b'\n' ∷ [])))))
  fancy-Shows name n text tags =
      Shows-segments
        ((bytes "[", bytes "[")
          ∷ (color m.priority, [])
          ∷ (name, name)
          ∷ (27 ∷ bytes "[0m] ", bytes "] ")
          ∷ (m.message, m.message)
          ∷ (paint_tags ts, show_tags ts)
          ∷ [])
        (b'\n' ∷ []) (b'\n' ∷ [])
        (
          Shows-plain (bytes "[") (literal (bytes "[") refl),
          (
            color-Shows m.priority,
            (
              Shows-plain name n,
              (reset-Shows, (Shows-plain m.message text, (paint_tags-Shows ts tags, tt))),
            ),
          ),
        )
        (Shows-plain (b'\n' ∷ []) (refl, tt))

  abbrev fancy_output : Outcome (Option Str) → Bool → Outcome (Str × Bool)
  fancy_output o b = do
    name ← o
    name ← deref name
    ok (
      bytes "["
          ++ (color m.priority
              ++ (name ++ ((27 ∷ bytes "[0m] ") ++ (m.message ++ (paint_tags ts ++ b'\n' ∷ []))))),
      b,
    )

  abbrev plain_output : Outcome (Option Str) → Outcome (Str × Bool)
  plain_output o = do
    name ← o
    name ← deref name
    ok (bytes "[" ++ (name ++ (bytes "] " ++ ((m.message ++ show_tags ts) ++ b'\n' ∷ []))), true)

  -- What both handlers do with the name of the priority.
  fancy_named :
      (o : Outcome (Option Str)) (b : Bool)
      → PlainName o
      → IsPlain m.message
      → All PlainTag ts
      → (fancy_output o b >>= without_colours) ≡ (plain_output o >>= asking b)
  fancy_named (ok (some name)) b n text tags =
      ap (λ s. ok (s, b))
        (Shows-strip _ _ (fancy-Shows name n text tags)
          ∙ ap (λ s. bytes "[" ++ (name ++ (bytes "] " ++ s)))
              (sym (append_assoc m.message (show_tags ts) (b'\n' ∷ []))))
  fancy_named (ok none) b n text tags = refl
  fancy_named abort b n text tags = refl
  fancy_named crash b n text tags = refl

  pub strip-msg_stderr_fancy_handler :
      (user_data : ℕ)
      → IsPlain m.message
      → All PlainTag ts
      → (msg_stderr_fancy_handler m user_data >>= without_colours) ≡ msg_stderr_handler m user_data
  unfolding msg_stderr_fancy_handler msg_stderr_handler msg_file_handler
  strip-msg_stderr_fancy_handler user_data text tags =
      rw (fancy_tags_lem, msg_format_simple-show_tags m h)
        (fancy_named (msg_format_priority m.priority) (as_gboolean user_data)
          (priority-PlainName m.priority) text tags)
