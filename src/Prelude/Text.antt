-- ===== src/Prelude/Text.antt =====
-- C strings as lists of their bytes, the terminating NUL left out.
use Prim.Native.Char.{code}
use Prim.Native.String.{String}
use Prim.Native.Nat.{ℕ, zero, suc}
use mathlib.Core.Path.{◌≡◌, refl}
use mathlib.Core.Logic.{◌↔◌}
use mathlib.Core.Bool.{Bool, true, false, ◌&&◌}
use mathlib.Core.List.{List, [], ◌∷◌}
use native.Mathlib.Omega.{arith}
use tinu.Prelude.Tests.{◌==◌}
use tinu.Prelude.Lists.{length}

abbrev pub Str : Type 0
Str = List ℕ

-- The bytes of an ASCII literal.
abbrev pub bytes : String → Str
bytes String.[] = []
bytes (String.◌∷◌ c s) = code c ∷ bytes s

-- `strcmp(a, b) == 0`
unfoldable pub str_eq : Str → Str → Bool
str_eq [] [] = true
str_eq [] (y ∷ b) = false
str_eq (x ∷ a) [] = false
str_eq (x ∷ a) (y ∷ b) = x == y && str_eq a b

-- `strncmp(a, b, n) == 0`
unfoldable pub strn_eq : ℕ → Str → Str → Bool
strn_eq zero a b = true
strn_eq (suc n) [] [] = true
strn_eq (suc n) [] (y ∷ b) = false
strn_eq (suc n) (x ∷ a) [] = false
strn_eq (suc n) (x ∷ a) (y ∷ b) = x == y && strn_eq n a b

pub str_eq_iff : (a b : Str) → (str_eq a b ≡ true) ↔ (a ≡ b)
unfolding str_eq
str_eq_iff [] [] = ground arith
str_eq_iff [] (y ∷ b) = ground arith
str_eq_iff (x ∷ a) [] = ground arith
str_eq_iff (x ∷ a) (y ∷ b) = ground (arith, str_eq_iff a b)

pub str_eq_refl : (a : Str) → str_eq a a ≡ true
str_eq_refl a = (str_eq_iff a a).1 refl

-- Over two strings of the length compared, `strncmp` is `strcmp`.
pub strn_eq-str_eq : (n : ℕ) (a b : Str) → length a ≡ n → length b ≡ n → strn_eq n a b ≡ str_eq a b
unfolding strn_eq str_eq
strn_eq-str_eq zero [] [] p q = refl
strn_eq-str_eq zero [] (y ∷ b) p q = absurd (omega arith)
strn_eq-str_eq zero (x ∷ a) b p q = absurd (omega arith)
strn_eq-str_eq (suc n) [] b p q = absurd (omega arith)
strn_eq-str_eq (suc n) (x ∷ a) [] p q = absurd (omega arith)
strn_eq-str_eq (suc n) (x ∷ a) (y ∷ b) p q = rw (strn_eq-str_eq n a b (omega arith) (omega arith))
