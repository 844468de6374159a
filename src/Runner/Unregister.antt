-- ===== src/Runner/Unregister.antt =====
-- The loop of `test_unregister_hook` (lib/test.c), which removes entries of the list that its
-- iterator goes over.
use tinu.Prelude.{
  ℕ, zero, suc, ◌+◌, ◌≤◌, ◌≡◌, refl, ap, ◌∙◌, sym, Bool, true, false, Bool-cases, inl, inr, List,
  [], ◌∷◌, ◌++◌, length, length-append, if◌then◌else◌, All, arith,
}
use mathlib.Core.List.{append_assoc, append-nil}

-- One round of the loop of `test_unregister_hook` over a list: the entries that are freed, those
-- that are left, and whether it goes on. `passed` are the entries before the one the iterator
-- stands at. An entry that is freed leaves the iterator at the next one, which `clist_iter_next`
-- then passes over; behind the last one that is the first, and the loop goes on from there.
unfoldable pub unregister_round :
    {A : Type 0} → (A → Bool) → List A → List A → List A × (List A × Bool)
unregister_round matches passed [] = ([], (passed, false))
unregister_round matches passed (e ∷ []) =
    if matches e then (e ∷ [], (passed, true)) else ([], (passed ++ e ∷ [], false))
unregister_round matches passed (e ∷ next ∷ es) =
    let skipping = unregister_round matches (passed ++ next ∷ []) es in
    let going_on = unregister_round matches (passed ++ e ∷ []) (next ∷ es) in
    if matches e then (e ∷ skipping.0, skipping.1) else going_on

-- The rounds from the second entry on, behind one that freed the last entry.
unfoldable pub unregister_rounds : {A : Type 0} → ℕ → (A → Bool) → List A × (List A × Bool) → List A
unfolding unregister_round
unregister_rounds fuel matches (freed, (left, false)) = freed
unregister_rounds fuel matches (freed, ([], true)) = freed
unregister_rounds zero matches (freed, (first ∷ es, true)) = freed
unregister_rounds (suc fuel) matches (freed, (first ∷ es, true)) =
    freed ++ unregister_rounds fuel matches (unregister_round matches (first ∷ []) es)

-- The entries that the loop frees; each further round has an entry less, so that as many rounds as
-- entries are enough.
unfoldable pub unregister_loop : {A : Type 0} → (A → Bool) → List A → List A
unfolding unregister_rounds
unregister_loop matches es = unregister_rounds (length es) matches (unregister_round matches [] es)

module _ {A : Type 0} (matches : A → Bool) where
  -- A round that goes on has freed an entry.
  round-shrinks :
      (passed es : List A)
      → let r = unregister_round matches passed es in
        length r.1.0 + (if r.1.1 then 1 else 0) ≤ length passed + length es
  unfolding unregister_round
  round-shrinks passed [] = omega arith
  round-shrinks passed (e ∷ []) = elim (Bool-cases (matches e)) [
    | inl hit ↦ rw hit (omega arith)
    | inr miss ↦ rw miss (omega (arith, length-append passed (e ∷ [])))
  ]
  round-shrinks passed (e ∷ next ∷ es) = elim (Bool-cases (matches e)) [
    | inl hit ↦
        rw hit
          (omega (arith, length-append passed (next ∷ []), round-shrinks (passed ++ next ∷ []) es))
    | inr miss ↦
        rw miss (
          omega
            (arith, length-append passed (e ∷ []), round-shrinks (passed ++ e ∷ []) (next ∷ es)))
  ]

  -- More rounds than entries change nothing.
  rounds-enough :
      (n : ℕ) (freed left : List A) (again : Bool)
      → length left + (if again then 1 else 0) ≤ suc n
      → unregister_rounds (suc n) matches (freed, (left, again))
        ≡ unregister_rounds n matches (freed, (left, again))
  unfolding unregister_rounds
  rounds-enough n freed left false le = refl
  rounds-enough n freed [] true le = refl
  rounds-enough zero freed (first ∷ es) true le = absurd (omega (arith, le))
  rounds-enough (suc n) freed (first ∷ es) true le =
      let r = unregister_round matches (first ∷ []) es in
      ap (λ fs. freed ++ fs)
        (rounds-enough n r.0 r.1.0 r.1.1 (omega (arith, le, round-shrinks (first ∷ []) es)))

  -- A round over entries of which the last one alone is freed.
  round-last :
      (passed es : List A) (own : A)
      → All (λ e. matches e ≡ false) es
      → matches own ≡ true
      → unregister_round matches passed (es ++ own ∷ []) ≡ (own ∷ [], (passed ++ es, true))
  unfolding unregister_round
  round-last passed [] own others mine =
      rw mine (ap (λ ks. (own ∷ [], (ks, true))) (sym (append-nil passed)))
  round-last passed (e ∷ []) own others mine =
      rw (others.0, unregister_round)
        (round-last (passed ++ e ∷ []) [] own tt mine
          ∙ ap (λ ks. (own ∷ [], (ks, true))) (append_assoc passed (e ∷ []) []))
  round-last passed (e ∷ next ∷ es) own others mine =
      rw (others.0, unregister_round)
        (round-last (passed ++ e ∷ []) (next ∷ es) own others.1 mine
          ∙ ap (λ ks. (own ∷ [], (ks, true))) (append_assoc passed (e ∷ []) (next ∷ es)))

  -- A round that frees nothing.
  round-none :
      (passed es : List A)
      → All (λ e. matches e ≡ false) es
      → unregister_round matches passed es ≡ ([], (passed ++ es, false))
  unfolding unregister_round
  round-none passed [] others = ap (λ ks. ([], (ks, false))) (sym (append-nil passed))
  round-none passed (e ∷ []) others = rw others.0 refl
  round-none passed (e ∷ next ∷ es) others = rw others.0 (
      round-none (passed ++ e ∷ []) (next ∷ es) others.1
      ∙ ap (λ ks. ([], (ks, false))) (append_assoc passed (e ∷ []) (next ∷ es)))

  -- The loop frees an entry at the end of the list that is the only one to free.
  pub loop-last :
      (es : List A) (own : A)
      → All (λ e. matches e ≡ false) es
      → matches own ≡ true
      → unregister_loop matches (es ++ own ∷ []) ≡ own ∷ []
  unfolding unregister_loop unregister_rounds
  loop-last [] own others mine = ap (unregister_rounds 1 matches) (round-last [] [] own tt mine)
  loop-last (e ∷ es) own others mine =
      ap (unregister_rounds (suc (length (es ++ own ∷ []))) matches)
        (round-last [] (e ∷ es) own others mine)
      ∙ ap (λ r. own ∷ unregister_rounds (length (es ++ own ∷ [])) matches r)
          (round-none (e ∷ []) es others.1)

  -- Rounds beyond those of the loop change nothing.
  loop-more :
      (k : ℕ) (es : List A)
      → unregister_rounds (length es + k) matches (unregister_round matches [] es)
        ≡ unregister_loop matches es
  unfolding unregister_loop
  loop-more zero es =
      let same : length es + 0 ≡ length es = omega arith in
      ap (λ n. unregister_rounds n matches (unregister_round matches [] es)) same
  loop-more (suc k) es =
      let r = unregister_round matches [] es in
      let one_more : length es + suc k ≡ suc (length es + k) = omega arith in
      ap (λ n. unregister_rounds n matches r) one_more
      ∙ rounds-enough (length es + k) r.0 r.1.0 r.1.1 (omega (arith, round-shrinks [] es))
      ∙ loop-more k es
