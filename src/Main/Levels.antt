-- ===== src/Main/Levels.antt =====
-- Numbers as levels: what the option callbacks of lib/main.c make of what a number is printed as.
use tinu.Prelude.{
  ℕ, zero, suc, ◌/◌, ◌%◌, ◌^◌, ◌≤◌, ◌<◌, ◌≡◌, refl, ap, subst, ◌∙◌, Bool, true, false, none, some,
  [], ◌∷◌, ℤ, pos, negsuc, Str, strn_eq, length, leb, ◌==◌, if◌then◌else◌, Bool-cases, inl, inr,
  All, AllDigits, digits, decimal_digit, show_nat, show_nat-AllDigits, scan_digits,
  scan_digits-show_nat, is_digit, arith,
}
use tinu.Names.{NameTable, lookup_name_from, tinu_lookup_name, effective_length}
use tinu.Message.Priority.{msg_get_priority_value, message_priority_names}
use tinu.Reporting.{statistics_verbosity_names}
use tinu.Main.Callbacks.{
  is_space, skip_spaces, number_from, strtoul, to_signed, opt_priority, opt_stat_verb,
}

digits-cons :
    (f n c : ℕ) (out : Str) → (d : ℕ) × (s : Str) × (digits decimal_digit 10 f n (c ∷ out) ≡ d ∷ s)
unfolding digits
digits-cons zero n c out = (c, out, refl)
digits-cons (suc f) n c out =
    let (d, s, e) = digits-cons f (n / 10) (decimal_digit (n % 10)) (c ∷ out) in
    elim (Bool-cases (n == 0)) [ inl done ↦ (c, out, rw done refl) | inr more ↦ (d, s, rw more e) ]

show_nat-cons : (n : ℕ) → (d : ℕ) × (s : Str) × (show_nat n ≡ d ∷ s)
unfolding show_nat digits
show_nat-cons n = elim (Bool-cases (n == 0)) [
  | inl zero_ ↦ (b'0', [], rw zero_ refl)
  | inr more ↦
      let (d, s, e) = digits-cons n (n / 10) (decimal_digit (n % 10)) [] in (d, s, rw more e)
]

-- The name begins with a small letter.
abbrev is_word : Str → Bool
is_word [] = false
is_word (x ∷ name) = leb b'a' x

not_word :
    (name : Str) (c k : ℕ) (s : Str)
    → c ≤ b'9'
    → is_word name ≡ true
    → strn_eq (suc k) name (c ∷ s) ≡ false
unfolding strn_eq
not_word [] c k s h word = cc
not_word (x ∷ name) c k s h word = ground (arith, word)

lookup_name_from_digit :
    (table : NameTable) (c k : ℕ) (s : Str) (errkey : ℤ)
    → c ≤ b'9'
    → All (λ e. is_word e.name ≡ true) table
    → lookup_name_from table (c ∷ s) (suc k) errkey ≡ errkey
unfolding lookup_name_from strn_eq
lookup_name_from_digit [] c k s errkey h words = refl
lookup_name_from_digit (e ∷ table) c k s errkey h words =
    rw (not_word e.name c k s h words.0)
      (ground (arith, lookup_name_from_digit table c k s errkey h words.1))

module _ (c : ℕ) (s : Str) (n : ℕ) (ds : AllDigits (c ∷ s))
    (value : scan_digits (c ∷ s) 0 ≡ (n, [])) (small : n < 2 ^ 64) where
  skip_number : skip_spaces (c ∷ s) ≡ c ∷ s
  unfolding skip_spaces is_space
  skip_number = ground (arith, ds.0)

  number_from_number : (whole : Str) → number_from false whole (c ∷ s) ≡ (n, [])
  unfolding number_from
  number_from_number whole =
      let digit : is_digit c ≡ true = ground (arith, ds.0) in
      let fits : leb (2 ^ 64) n ≡ false = ground arith in rw (digit, value, fits) refl

  strtoul_number : strtoul (c ∷ s) ≡ (n, [])
  unfolding strtoul
  strtoul_number =
      let minus : (c == b'-') ≡ false = ground (arith, ds.0) in
      let plus : (c == b'+') ≡ false = ground (arith, ds.0) in
      rw (skip_number, strtoul, minus, plus) (number_from_number (c ∷ s))

  named_number :
      (table : NameTable)
      → All (λ e. is_word e.name ≡ true) table
      → tinu_lookup_name table (c ∷ s) (negsuc 0) (negsuc 0) ≡ negsuc 0
  unfolding tinu_lookup_name effective_length
  named_number table words = lookup_name_from_digit table c (length s) s (negsuc 0) ds.0.1 words

  opt_priority_digits :
      opt_priority (c ∷ s) ≡ (if leb (n % 2 ^ 32) 7 then some (pos (n % 2 ^ 32)) else none)
  unfolding opt_priority to_signed msg_get_priority_value message_priority_names
  opt_priority_digits =
      rw
        (
          named_number message_priority_names
              (refl, (refl, (refl, (refl, (refl, (refl, (refl, (refl, tt)))))))),
          strtoul_number,
        )
        (ground arith)

  opt_stat_verb_digits : opt_stat_verb (c ∷ s) ≡ (if leb n 4 then some (pos n) else none)
  unfolding opt_stat_verb to_signed statistics_verbosity_names
  opt_stat_verb_digits =
      rw
        (
          named_number statistics_verbosity_names (refl, (refl, (refl, (refl, (refl, tt))))),
          strtoul_number,
        )
        (ground arith)

-- A priority given as a decimal number below 2 ^ 64 is taken by its last 32 bits: it is set if
-- these are a priority, from 0 to 7, and refused otherwise; a verbosity is set if the whole number
-- is one from 0 to 4.
pub level-show_nat :
    (n : ℕ)
    → n < 2 ^ 64
    → (opt_priority (show_nat n) ≡ (if leb (n % 2 ^ 32) 7 then some (pos (n % 2 ^ 32)) else none))
      × (opt_stat_verb (show_nat n) ≡ (if leb n 4 then some (pos n) else none))
level-show_nat n small =
    let (c, s, e) = show_nat-cons n in
    let ds : AllDigits (c ∷ s) = subst AllDigits e (show_nat-AllDigits n) in
    let value : scan_digits (c ∷ s) 0 ≡ (n, []) =
      subst (λ t. scan_digits t 0 ≡ (n, [])) e (scan_digits-show_nat n) in
    (
      ap opt_priority e ∙ opt_priority_digits c s n ds value small,
      ap opt_stat_verb e ∙ opt_stat_verb_digits c s n ds value small,
    )
