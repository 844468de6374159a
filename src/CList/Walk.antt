-- ===== src/CList/Walk.antt =====
-- Going round a ring: `clist_foreach` and the loops with an iterator.
use tinu.Prelude.{
  ℕ, zero, suc, ◌≡◌, refl, ◌≢◌, ◌<◌, ◌≤◌, Bool, true, false, List, [], ◌∷◌, map, ◌==◌, arith, ok,
  if◌then◌else◌, length, Bool-cases, inl, inr,
}
use mathlib.Core.List.{foldl}
use tinu.CList.{
  foreach_loop, clist_foreach, clist_iter_new, clist_iter_next, clist_iter_data, walk_loop, walk,
}
use tinu.CList.Heap.{null, Store}
use tinu.CList.Ring.{Cells, first, last, has, Chain, IsRing, load-ok}

abbrev pub values : Cells → List ℕ
values = map (λ c. c.1)

module _ {W : Type 0} where
  -- The callback on each value in turn, until one call returns FALSE.
  unfoldable pub each : (ℕ → W → W × Bool) → List ℕ → W → W × Bool
  each cb [] w = (w, true)
  each cb (v ∷ vs) w =
      let r = cb v w in let rest = each cb vs r.0 in if r.1 then rest else (r.0, false)

  foreach_loop-each :
      (s : Store) (fuel self : ℕ) (cb : ℕ → W → W × Bool) (w : W) (p v : ℕ) (ys : Cells) (b : ℕ)
      → has self ys ≡ false
      → Chain s.cell b ((p, v) ∷ ys) self
      → length ys < fuel
      → foreach_loop fuel p self cb w s ≡ ok (each cb (v ∷ values ys) w, s)
  unfolding foreach_loop each
  foreach_loop-each s zero self cb w p v ys b out h enough = absurd (omega arith)
  foreach_loop-each s (suc fuel) self cb w p v [] b out h enough =
      rw (load-ok s p h.0 h.1) (ground arith)
  foreach_loop-each s (suc fuel) self cb w p v ((q, u) ∷ ys) b out h enough =
      let far : (q == self) ≡ false = ground arith in
      rw (load-ok s p h.0 h.1) (elim (Bool-cases (cb v w).1) [
        | inl go ↦
            rw (go, far)
              (foreach_loop-each s fuel self cb (cb v w).0 q u ys p (ground arith) h.2
                (omega arith))
        | inr stop ↦ rw stop
      ])

  -- `clist_foreach` calls the callback on the data of a ring from the head on, until a call
  -- returns FALSE, and says whether none did; fuel for as many rounds as there are nodes is enough.
  pub clist_foreach-each :
      (s : Store) (fuel : ℕ) (cb : ℕ → W → W × Bool) (w : W) (xs : Cells)
      → IsRing s.cell xs
      → length xs ≤ fuel
      → clist_foreach fuel (first xs null) cb w s ≡ ok (each cb (values xs) w, s)
  unfolding clist_foreach each
  clist_foreach-each s fuel cb w [] ring enough = refl
  clist_foreach-each s fuel cb w ((p, v) ∷ xs) ring enough = ground (
    arith,
    foreach_loop-each s fuel p cb w p v xs (last xs p) ring.apart.0 ring.linked (omega arith),
  )

  walk_loop-foldl :
      (s : Store) (fuel start : ℕ) (body : ℕ → W → W) (w : W) (p v : ℕ) (ys : Cells) (b : ℕ)
      → start ≢ null
      → has start ys ≡ false
      → Chain s.cell b ((p, v) ∷ ys) start
      → length ys < fuel
      → walk_loop fuel (record { start = start; act = p }) body w s
        ≡ ok (foldl (λ w' v'. body v' w') w (values ys), s)
  unfolding walk_loop clist_iter_next clist_iter_data
  walk_loop-foldl s zero start body w p v ys b m out h enough = absurd (omega arith)
  walk_loop-foldl s (suc fuel) start body w p v [] b m out h enough =
      ground (arith, load-ok s p h.0 h.1)
  walk_loop-foldl s (suc fuel) start body w p v ((q, u) ∷ ys) b m out h enough = ground (
    arith,
    load-ok s p h.0 h.1,
    load-ok s q h.2.0 h.2.1,
    walk_loop-foldl s fuel start body (body u w) q u ys p m (ground arith) h.2 (omega arith),
  )

  -- The loop with an iterator runs its body on the data of every node of a ring, once and in
  -- order from the head, and ends after one more round than there are nodes.
  pub walk-foldl :
      (s : Store) (fuel : ℕ) (body : ℕ → W → W) (w : W) (xs : Cells)
      → IsRing s.cell xs
      → length xs < fuel
      → walk fuel (first xs null) body w s ≡ ok (foldl (λ w' v. body v w') w (values xs), s)
  unfolding walk walk_loop clist_iter_next clist_iter_data clist_iter_new
  walk-foldl s zero body w xs ring enough = absurd (omega arith)
  walk-foldl s (suc fuel) body w [] ring enough = refl
  walk-foldl s (suc fuel) body w ((p, v) ∷ xs) ring enough = ground (
    arith,
    load-ok s p ring.linked.0 ring.linked.1,
    walk_loop-foldl s fuel p body (body v w) p v xs (last xs p) ring.linked.0 ring.apart.0
        ring.linked (omega arith),
  )
