-- ===== src/External/Replace.antt =====
-- The template of the program report against replacing every "%s" in one sweep.
use tinu.Prelude.{
  ℕ, zero, suc, ◌<◌, ◌≡◌, refl, ap, ◌∙◌, false, none, some, List, [], ◌∷◌, ◌++◌, Str, bytes, length,
  length-append, All, arith, Option-cases, inl, inr,
}
use mathlib.Core.List.{append_assoc}
use tinu.External.{at_percent_s, find_percent_s, replace_loop, report_replace}

-- The pieces with `separator` between them.
unfoldable pub join : Str → Str → List Str → Str
join separator p [] = p
join separator p (q ∷ ps) = p ++ (separator ++ join separator q ps)

abbrev pub percent_s : Str
percent_s = bytes "%s"

-- No "%s" stands in the text.
abbrev pub IsPlain : Str → Type 0
IsPlain p = find_percent_s p ≡ none

at_percent_s-append :
    (c : ℕ) (p rest : Str)
    → at_percent_s (c ∷ p) ≡ false
    → at_percent_s (c ∷ (p ++ (percent_s ++ rest))) ≡ false
unfolding at_percent_s
at_percent_s-append c [] rest h = ground arith
at_percent_s-append c (d ∷ p) rest h = h

IsPlain-cons : (c : ℕ) (p : Str) → IsPlain (c ∷ p) → (at_percent_s (c ∷ p) ≡ false) × IsPlain p
unfolding find_percent_s
IsPlain-cons c p h = elim (Option-cases (find_percent_s p)) [
  | inl plain ↦ ground arith
  | inr (r, hit) ↦ ground (arith, hit)
]

find_percent_s-append :
    (p rest : Str) → IsPlain p → find_percent_s (p ++ (percent_s ++ rest)) ≡ some (p, rest)
unfolding find_percent_s
find_percent_s-append [] rest h = unfold at_percent_s in refl
find_percent_s-append (c ∷ p) rest h =
    let (off, plain) = IsPlain-cons c p h in
    rw (at_percent_s-append c p rest off, find_percent_s-append p rest plain)

replace_loop-join :
    (p : Str) (ps : List Str) (argument string : Str) (fuel : ℕ)
    → IsPlain p
    → All IsPlain ps
    → length (join percent_s p ps) < fuel
    → replace_loop fuel (join percent_s p ps) argument string ≡ some (string ++ join argument p ps)
unfolding replace_loop join
replace_loop-join p ps argument string zero h hs enough = elim enough [ ]
replace_loop-join p [] argument string (suc fuel) h hs enough = rw (h, replace_loop)
replace_loop-join p (q ∷ ps) argument string (suc fuel) h hs enough =
    let found = find_percent_s-append p (join percent_s q ps) h in
    let shorter = length-append p (percent_s ++ join percent_s q ps) in
    rw (found, replace_loop)
      (replace_loop-join q ps argument (string ++ (p ++ argument)) fuel hs.0 hs.1
          (omega (arith, shorter))
        ∙ ap some (
            append_assoc string (p ++ argument) (join argument q ps)
            ∙ ap (◌++◌ string) (append_assoc p argument (join argument q ps))))

-- `_prg_report_replace` ends, and puts the argument in the place of every "%s": of pieces without
-- a "%s", joined by "%s", it makes the same pieces joined by the argument.
pub report_replace-join :
    (p : Str) (ps : List Str) (argument : Str)
    → IsPlain p
    → All IsPlain ps
    → report_replace (join percent_s p ps) argument ≡ some (join argument p ps)
unfolding report_replace
report_replace-join p ps argument h hs =
    replace_loop-join p ps argument [] (suc (length (join percent_s p ps))) h hs (omega arith)
