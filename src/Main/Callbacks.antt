-- ===== src/Main/Callbacks.antt =====
-- The options of lib/main.c that take a level: a name of a table, or a number.
use tinu.Prelude.{
  ℕ, suc, ◌-◌, ◌%◌, ◌^◌, Bool, true, false, ◌&&◌, ◌||◌, Option, none, some, [], ◌∷◌, ℤ, pos, negsuc,
  int_eq, int_leb, Str, ltb, leb, ◌==◌, if◌then◌else◌, is_digit, scan_digits,
}
use tinu.Names.{tinu_lookup_name}
use tinu.Message.Priority.{msg_get_priority_value, log_emerg, log_debug}
use tinu.Reporting.{statistics_verbosity_names, stat_verb_none, stat_verb_verbose}

-- `isspace` in the C locale
unfoldable pub is_space : ℕ → Bool
is_space c = c == b' ' || leb 9 c && leb c 13

unfoldable pub skip_spaces : Str → Str
unfolding is_space
skip_spaces [] = []
skip_spaces (c ∷ s) = let rest = skip_spaces s in if is_space c then rest else c ∷ s

-- The digits behind a sign, with the text to return if there are none; a value that is too large
-- is ULONG_MAX.
unfoldable pub number_from : Bool → Str → Str → ℕ × Str
number_from negative whole [] = (0, whole)
number_from negative whole (c ∷ s) =
    let (n, rest) = scan_digits (c ∷ s) 0 in
    if is_digit c
    then (
      if leb (2 ^ 64) n then 2 ^ 64 - 1 else if negative then (2 ^ 64 - n) % 2 ^ 64 else n,
      rest,
    )
    else (0, whole)

-- `strtoul(s, &endl, 10)`: the value of 64 bits and what `endl` points to.
unfoldable pub strtoul : Str → ℕ × Str
unfolding skip_spaces number_from
strtoul s = elim (skip_spaces s) [
  | [] ↦ (0, s)
  | c ∷ rest ↦
      if c == b'-'
      then number_from true s rest
      else if c == b'+'
      then number_from false s rest
      else number_from false s (c ∷ rest)
]

-- A value of `w + 1` bits as a signed one.
unfoldable pub to_signed : ℕ → ℕ → ℤ
to_signed w n =
    let low = n % 2 ^ suc w in if ltb low (2 ^ w) then pos low else negsuc (2 ^ suc w - 1 - low)

abbrev pub is_end : Str → Bool
is_end [] = true
is_end (c ∷ s) = false

-- `_tinu_opt_priority`: the new `g_opt_priority`, a gint, or `none` for the result FALSE.
unfoldable pub opt_priority : Str → Option ℤ
unfolding strtoul to_signed
opt_priority value =
    let named = msg_get_priority_value value in
    let (number, endl) = strtoul value in
    let numbered = to_signed 31 number in
    let priority =
      if int_eq named (negsuc 0)
      then if is_end endl && int_leb log_emerg numbered && int_leb numbered log_debug
        then numbered
        else negsuc 0
      else named in
    if int_eq priority (negsuc 0) then none else some priority

-- `_tinu_opt_stat_verb`, where the key has 64 bits.
unfoldable pub opt_stat_verb : Str → Option ℤ
unfolding strtoul to_signed
opt_stat_verb value =
    let named = tinu_lookup_name statistics_verbosity_names value (negsuc 0) (negsuc 0) in
    let (number, endl) = strtoul value in
    let numbered = to_signed 63 number in
    let key =
      if int_eq named (negsuc 0)
      then if is_end endl
          && int_leb (pos stat_verb_none) numbered
          && int_leb numbered (pos stat_verb_verbose)
        then numbered
        else negsuc 0
      else named in
    if int_eq key (negsuc 0) then none else some key
