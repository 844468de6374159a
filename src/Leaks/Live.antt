-- ===== src/Leaks/Live.antt =====
-- The table of a watch against the plain map of live blocks.
use tinu.Prelude.{
  ℕ, ◌≡◌, refl, ap, sym, ◌∙◌, ◌⊎◌, Bool, true, false, Option, none, some, List, [], ◌∷◌, ◌==◌,
  if◌then◌else◌, arith, Option-cases, inl, inr,
}
use mathlib.Core.Option
use tinu.Leaks.{
  MemoryEntry, LeakwatchOperation, malloc, realloc, free, HashTable, simple_callback, watch,
}

-- A block of the allocator, and whether `malloc` made it while the watch was on, wherever it was
-- moved since. One that was there before, or that `realloc` made of NULL, is not.
pub record Block : Type 0 where
  pub size : ℕ
  pub by_malloc : Bool

-- The live block at an address, as far as the calls show; none is at NULL.
abbrev pub Live : Type 0
Live = ℕ → Option Block

unfoldable pub assign : ℕ → Option Block → Live → Live
assign p v live q = if p == q then v else live q

unfoldable pub made : Option Block → Bool
made none = false
made (some b) = b.by_malloc

-- What the calls do to the blocks of the allocator. A `realloc` always leaves a live block of the
-- new size behind, also of NULL or of a block that was not seen before.
unfoldable pub perform : LeakwatchOperation → Live → Live
unfolding assign made
perform (malloc p n) live = assign p (some (record { size = n; by_malloc = true })) live
perform (realloc p q n) live =
    assign q (some (record { size = n; by_malloc = made (live p) })) (assign p none live)
perform (free p) live = assign p none live

unfoldable pub perform_all : List LeakwatchOperation → Live → Live
unfolding perform
perform_all [] live = live
perform_all (op ∷ ops) live = perform_all ops (perform op live)

-- The size of a block that malloc made.
unfoldable pub seen : Option Block → Option ℕ
seen none = none
seen (some b) = if b.by_malloc then some b.size else none

-- A block is moved to where no other one lives.
abbrev pub IsFree : LeakwatchOperation → Live → Type 0
IsFree (malloc p n) live = Unit
IsFree (realloc p q n) live = (p ≡ q) ⊎ (live q ≡ none)
IsFree (free p) live = Unit

abbrev pub AreFree : List LeakwatchOperation → Live → Type 0
AreFree [] live = Unit
AreFree (op ∷ ops) live = IsFree op live × AreFree ops (perform op live)

known_made : (b : Option Block) (n : ℕ) → seen b ≡ some n → made b ≡ true
unfolding seen made
known_made none n h = cc
known_made (some b) n h = ground (arith, h)

unknown_made : (b : Option Block) → seen b ≡ none → made b ≡ false
unfolding seen made
unknown_made none h = refl
unknown_made (some b) h = ground (arith, h)

module _ {T : Type 0} (table : HashTable T) where
  -- The table has the blocks that malloc made, with their sizes, and no other.
  abbrev pub Shows : T → Live → Type 0
  Shows t live = (p : ℕ) → Option.map (λ e. e.size) (table.lookup t p) ≡ seen (live p)

  simple_callback-Shows :
      (op : LeakwatchOperation) (t : T) (live : Live)
      → IsFree op live
      → Shows t live
      → Shows (simple_callback table op t) (perform op live)
  unfolding simple_callback perform assign seen made
  simple_callback-Shows (malloc p n) t live ok_ h q =
      ground (arith, table.lookup-insert t p (record { ptr = p; size = n }) q, h q)
  simple_callback-Shows (realloc p r n) t live ok_ h q = elim (Option-cases (table.lookup t p)) [
    | inl gone ↦
        let unseen : seen (live p) ≡ none = sym (h p) ∙ ap (Option.map (λ e. e.size)) gone in
        let out = unknown_made (live p) unseen in
        elim ok_ [
          | inl same ↦ ground (arith, gone, out, unseen, h q, same)
          | inr empty_ ↦ ground (arith, gone, out, unseen, h q, empty_)
        ]
    | inr (e, known) ↦
        let sized : seen (live p) ≡ some e.size = sym (h p) ∙ ap (Option.map (λ e. e.size)) known in
        let in_ = known_made (live p) e.size sized in
        let new : MemoryEntry = record { ptr = r; size = n } in
        ground (
          arith,
          known,
          in_,
          h q,
          table.lookup-insert t p (record e { size = n }) q,
          table.lookup-insert (table.remove t p) r new q,
          table.lookup-remove t p q,
        )
  ]
  simple_callback-Shows (free p) t live ok_ h q = ground (arith, table.lookup-remove t p q, h q)

  pub from :
      (ops : List LeakwatchOperation) (t : T) (live : Live)
      → AreFree ops live
      → Shows t live
      → Shows (watch table ops t) (perform_all ops live)
  unfolding watch perform_all
  from [] t live free_ h = h
  from (op ∷ ops) t live free_ h =
      from ops (simple_callback table op t) (perform op live) free_.1
        (simple_callback-Shows op t live free_.0 h)

  -- Whatever blocks are allocated, moved to free addresses and released, the table of a watch that
  -- starts empty holds exactly the live blocks that malloc made since, each with its last size: a
  -- block that was there before the watch stays out, and so does one that realloc made of NULL,
  -- moved or freed.
  pub watch-Shows :
      (ops : List LeakwatchOperation)
      → AreFree ops (λ p. none)
      → Shows (watch table ops table.empty) (perform_all ops (λ p. none))
  unfolding seen
  watch-Shows ops free_ =
      from ops table.empty (λ p. none) free_
        (λ p. ap (Option.map (λ e. e.size)) (table.lookup-empty p))
