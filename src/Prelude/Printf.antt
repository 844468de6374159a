-- ===== src/Prelude/Printf.antt =====
-- What the formats of the C library's printf and strtoul come to, for the conversions used.
use Prim.Native.Nat.{ℕ, zero, suc, ◌+◌, ◌-◌, ◌*◌, ◌/◌, ◌%◌, ◌^◌, ◌≤◌, ◌<◌}
use mathlib.Core.Path.{◌≡◌, ◌∙◌}
use mathlib.Core.Logic.{inl, inr}
use mathlib.Core.Bool.{Bool, ◌&&◌}
use mathlib.Core.List.{[], ◌∷◌, ◌++◌}
use native.Mathlib.Omega.{arith}
use tinu.Prelude.Tests.{ltb, leb, ◌==◌, if◌then◌else◌, Bool-cases}
use tinu.Prelude.Lists.{length, replicate, All}
use tinu.Prelude.Text.{Str}

-- The digits of `n` in front of `out`, in the base given.
unfoldable pub digits : (ℕ → ℕ) → ℕ → ℕ → ℕ → Str → Str
digits digit base zero n out = out
digits digit base (suc f) n out =
    let more = digits digit base f (n / base) (digit (n % base) ∷ out) in
    if n == 0 then out else more

unfoldable pub decimal_digit : ℕ → ℕ
decimal_digit d = b'0' + d

unfoldable pub hex_digit : ℕ → ℕ
hex_digit d = if ltb d 10 then b'0' + d else b'a' + (d - 10)

-- `%u`, and `%d` of a number that is not negative
unfoldable pub show_nat : ℕ → Str
show_nat n = if n == 0 then b'0' ∷ [] else digits decimal_digit 10 (suc n) n []

-- `%d` of the 32 bits of `n`
unfoldable pub show_int32 : ℕ → Str
unfolding show_nat
show_int32 n = if ltb n (2 ^ 31) then show_nat n else b'-' ∷ show_nat (2 ^ 32 - n)

-- `%x`
unfoldable pub show_hex : ℕ → Str
unfolding digits hex_digit
show_hex n = if n == 0 then b'0' ∷ [] else digits hex_digit 16 (suc n) n []

-- `%-*s` and `%*d`
unfoldable pub pad_right : ℕ → Str → Str
pad_right width s = s ++ replicate (width - length s) b' '

unfoldable pub pad_left : ℕ → Str → Str
pad_left width s = replicate (width - length s) b' ' ++ s

abbrev pub is_digit : ℕ → Bool
is_digit c = leb b'0' c && leb c b'9'

-- The number that leading decimal digits add to `n`, and what follows them.
unfoldable pub scan_digits : Str → ℕ → ℕ × Str
scan_digits [] n = (n, [])
scan_digits (c ∷ s) n =
    let more = scan_digits s (n * 10 + (c - b'0')) in if is_digit c then more else (n, c ∷ s)

abbrev pub AllDigits : Str → Type 0
AllDigits = All (λ c. (b'0' ≤ c) × (c ≤ b'9'))

digits-AllDigits :
    (f n : ℕ) (out : Str) → AllDigits out → AllDigits (digits decimal_digit 10 f n out)
unfolding digits decimal_digit
digits-AllDigits zero n out h = h
digits-AllDigits (suc f) n out h = elim (Bool-cases (n == 0)) [
  | inl done ↦ rw done h
  | inr more ↦
      rw more (digits-AllDigits f (n / 10) ((b'0' + n % 10) ∷ out) ((omega arith, omega arith), h))
]

pub show_nat-AllDigits : (n : ℕ) → AllDigits (show_nat n)
unfolding show_nat
show_nat-AllDigits n = elim (Bool-cases (n == 0)) [
  | inl none_left ↦ rw none_left (omega arith)
  | inr more ↦ rw more (digits-AllDigits (suc n) n [] tt)
]

scan_digits-digits :
    (f n : ℕ) (out : Str)
    → n < f
    → scan_digits (digits decimal_digit 10 f n out) 0 ≡ scan_digits out n
unfolding digits decimal_digit scan_digits
scan_digits-digits zero n out h = elim h [ ]
scan_digits-digits (suc f) n out h = elim (Bool-cases (n == 0)) [
  | inl done ↦ ground (arith, done)
  | inr more ↦
      rw more (
        scan_digits-digits f (n / 10) ((b'0' + n % 10) ∷ out) (ground (arith, more)) ∙ ground arith)
]

-- What is printed is read back.
pub scan_digits-show_nat : (n : ℕ) → scan_digits (show_nat n) 0 ≡ (n, [])
unfolding show_nat scan_digits
scan_digits-show_nat n = elim (Bool-cases (n == 0)) [
  | inl done ↦ ground (arith, done)
  | inr more ↦ rw more (scan_digits-digits (suc n) n [] (omega arith))
]
