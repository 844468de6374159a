-- ===== src/Message/Slots.antt =====
-- Arrays of slots: growing, cutting, writing and reading them.
use tinu.Prelude.{
  ℕ, zero, suc, ◌+◌, ◌≤◌, ◌<◌, ◌≡◌, refl, ap, Option, none, some, List, [], ◌∷◌, ◌++◌, map, length,
  get_elem?, set, take, drop, ok, arith,
}
use tinu.Message.{resize, slot, shift_down}

module _ {ℓ} {A : Type ℓ} where
  pub length-map-some : (xs : List A) → length (map some xs) ≡ length xs
  length-map-some [] = refl
  length-map-some (x ∷ xs) = ap suc (length-map-some xs)

  pub length-resize : (n : ℕ) (xs : List (Option A)) → length (resize n xs) ≡ n
  unfolding resize
  length-resize zero xs = refl
  length-resize (suc n) [] = ap suc (length-resize n [])
  length-resize (suc n) (x ∷ xs) = ap suc (length-resize n xs)

  pub resize-length : (xs : List (Option A)) → resize (length xs) xs ≡ xs
  unfolding resize
  resize-length [] = refl
  resize-length (x ∷ xs) = ap (◌∷◌ x) (resize-length xs)

  pub resize-append : (xs ys : List (Option A)) → resize (length xs) (xs ++ ys) ≡ xs
  unfolding resize
  resize-append [] ys = refl
  resize-append (x ∷ xs) ys = ap (◌∷◌ x) (resize-append xs ys)

  resize-resize_nil : (m n : ℕ) → resize {A = A} m (resize n []) ≡ resize m []
  unfolding resize
  resize-resize_nil zero n = refl
  resize-resize_nil (suc m) zero = refl
  resize-resize_nil (suc m) (suc n) = ap (◌∷◌ none) (resize-resize_nil m n)

  -- What was not cut off survives a change of size.
  pub resize-resize :
      (m n : ℕ) (xs : List (Option A)) → length xs ≤ n → resize m (resize n xs) ≡ resize m xs
  unfolding resize
  resize-resize m n [] h = resize-resize_nil m n
  resize-resize zero n (x ∷ xs) h = refl
  resize-resize (suc m) zero (x ∷ xs) h = absurd (omega arith)
  resize-resize (suc m) (suc n) (x ∷ xs) h = ap (◌∷◌ x) (resize-resize m n xs (omega arith))

  -- A write to the first free slot.
  pub set-resize :
      (m : ℕ) (xs : List (Option A)) (v : Option A)
      → length xs < m
      → set (resize m xs) (length xs) v ≡ resize m (xs ++ v ∷ [])
  unfolding resize
  set-resize zero xs v h = absurd (omega arith)
  set-resize (suc m) [] v h = refl
  set-resize (suc m) (x ∷ xs) v h = ap (◌∷◌ x) (set-resize m xs v (omega arith))

  get_elem?_of_drop :
      (i : ℕ) (xs : List A) {y : A} {ys : List A} → drop i xs ≡ y ∷ ys → get_elem? xs i ≡ some y
  get_elem?_of_drop zero [] e = cc
  get_elem?_of_drop zero (x ∷ xs) e = cc
  get_elem?_of_drop (suc i) [] e = cc
  get_elem?_of_drop (suc i) (x ∷ xs) e = get_elem?_of_drop i xs e

  pub drop-suc :
      (i : ℕ) (xs : List A) {y : A} {ys : List A} → drop i xs ≡ y ∷ ys → drop (suc i) xs ≡ ys
  drop-suc zero [] e = cc
  drop-suc zero (x ∷ xs) e = cc
  drop-suc (suc i) [] e = cc
  drop-suc (suc i) (x ∷ xs) e = drop-suc i xs e

  pub take-length-append : (xs ys : List A) → take (length xs) (xs ++ ys) ≡ xs
  take-length-append [] ys = refl
  take-length-append (x ∷ xs) ys = ap (◌∷◌ x) (take-length-append xs ys)

  take-length : (xs : List A) → take (length xs) xs ≡ xs
  take-length [] = refl
  take-length (x ∷ xs) = ap (◌∷◌ x) (take-length xs)

  drop-length-append : (xs ys : List A) → drop (length xs) (xs ++ ys) ≡ ys
  drop-length-append [] ys = refl
  drop-length-append (x ∷ xs) ys = drop-length-append xs ys

  -- The block behind slot `length xs` moves down over it, and leaves a copy of its end behind.
  pub shift_down_lem :
      (xs : List A) (y : A) (ys : List A)
      → (end : List A) × (shift_down (xs ++ y ∷ ys) (length xs) (length ys) ≡ xs ++ (ys ++ end))
  unfolding shift_down
  shift_down_lem xs y ys = (
    drop (length xs + length ys) (xs ++ y ∷ ys),
    rw (
      take-length-append xs (y ∷ ys),
      drop-suc (length xs) (xs ++ y ∷ ys) (drop-length-append xs (y ∷ ys)),
      take-length ys,
    ),
  )

module _ {ℓ} {A : Type ℓ} where
  -- Reading the slot where the written ones still to come begin.
  pub slot_of_drop :
      (i : ℕ) (xs : List (Option A)) {y : A} {ys : List (Option A)}
      → drop i xs ≡ some y ∷ ys
      → slot xs i ≡ ok y
  unfolding slot
  slot_of_drop i xs e = rw (get_elem?_of_drop i xs e)

  pub slot-append :
      (xs : List A) (y : A) (ys : List A)
      → slot (map some xs ++ some y ∷ map some ys) (length xs) ≡ ok y
  slot-append xs y ys =
      slot_of_drop (length xs) _ {ys = map some ys}
        (rw (← length-map-some xs) (drop-length-append (map some xs) (some y ∷ map some ys)))
