-- ===== src/Standard/Strip.antt =====
-- Texts with escape sequences, and what they show.
use tinu.Prelude.{
  ℕ, zero, suc, ◌-◌, ◌^◌, ◌≡◌, refl, ap, sym, ◌∙◌, Bool, true, false, not, ◌&&◌, [], ◌∷◌, ◌++◌, Str,
  length, ◌==◌, ltb, if◌then◌else◌, show_nat, show_int32, pad_right, pad_left, replicate,
  show_nat-AllDigits, AllDigits, All, All-append, Bool-cases, inl, inr, arith,
}
use mathlib.Core.List.{append_assoc, append-nil}

-- A text without its escape sequences: each goes from ESC to the next `m`.
unfoldable pub strip_from : Bool → Str → Str
strip_from escaped [] = []
strip_from escaped (c ∷ s) =
    let inside = strip_from true s in
    let outside = strip_from false s in
    if escaped
    then if c == b'm' then outside else inside
    else if c == 27
    then inside
    else c ∷ outside

abbrev pub strip : Str → Str
strip = strip_from false

-- `s` with its escape sequences complete, which leave `t`.
abbrev pub Shows : Str → Str → Type 0
Shows s t = (rest : Str) → strip (s ++ rest) ≡ t ++ strip rest

abbrev pub IsPlain : Str → Type 0
IsPlain s = All (λ c. (c == 27) ≡ false) s

pub Shows-plain : (s : Str) → IsPlain s → Shows s s
unfolding strip_from
Shows-plain [] h rest = refl
Shows-plain (c ∷ s) h rest = simp (h.0, Shows-plain s h.1 rest)

pub Shows-append : (s s' t t' : Str) → Shows s t → Shows s' t' → Shows (s ++ s') (t ++ t')
Shows-append s s' t t' h h' rest =
    ap strip (append_assoc s s' rest)
    ∙ h (s' ++ rest)
    ∙ ap (◌++◌ t) (h' rest)
    ∙ sym (append_assoc t t' (strip rest))

pub IsPlain-append : (s t : Str) → IsPlain s → IsPlain t → IsPlain (s ++ t)
IsPlain-append s t h k = All-append (λ c. (c == 27) ≡ false) s t h k

pub AllDigits-IsPlain : (s : Str) → AllDigits s → IsPlain s
AllDigits-IsPlain [] h = tt
AllDigits-IsPlain (c ∷ s) h = (ground (arith, h.0), AllDigits-IsPlain s h.1)

pub show_int32-IsPlain : (n : ℕ) → IsPlain (show_int32 n)
unfolding show_int32
show_int32-IsPlain n = elim (Bool-cases (ltb n (2 ^ 31))) [
  | inl small ↦ rw small (AllDigits-IsPlain (show_nat n) (show_nat-AllDigits n))
  | inr large ↦
      rw large (refl, AllDigits-IsPlain (show_nat (2 ^ 32 - n)) (show_nat-AllDigits (2 ^ 32 - n)))
]

spaces-IsPlain : (n : ℕ) → IsPlain (replicate n b' ')
spaces-IsPlain zero = tt
spaces-IsPlain (suc n) = (refl, spaces-IsPlain n)

pub pad_right-IsPlain : (width : ℕ) (s : Str) → IsPlain s → IsPlain (pad_right width s)
unfolding pad_right
pad_right-IsPlain width s h = IsPlain-append s _ h (spaces-IsPlain (width - length s))

pub pad_left-IsPlain : (width : ℕ) (s : Str) → IsPlain s → IsPlain (pad_left width s)
unfolding pad_left
pad_left-IsPlain width s h = IsPlain-append _ s (spaces-IsPlain (width - length s)) h

-- For the literals.
abbrev pub is_plain : Str → Bool
is_plain [] = true
is_plain (c ∷ s) = not (c == 27) && is_plain s

pub literal : (s : Str) → is_plain s ≡ true → IsPlain s
literal [] h = tt
literal (c ∷ s) h = (ground arith, literal s (ground arith))

pub Shows-strip : (s t : Str) → Shows s t → strip s ≡ t
Shows-strip s t h = ap strip (sym (append-nil s)) ∙ h [] ∙ unfold strip_from in append-nil t
