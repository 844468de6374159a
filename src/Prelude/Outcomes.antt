-- ===== src/Prelude/Outcomes.antt =====
-- What a call of the C code comes to: a value, a failed assertion or allocation, or a fault.
use mathlib.Core.Path.{◌≡◌, refl, ap, ◌∙◌}
use mathlib.Core.Bool.{Bool, true, false}
use mathlib.Core.Option.{Option, none, some}

-- `abort` is a failed `g_assert` or an allocation that GLib refuses; `crash` is an access through
-- `NULL` or outside an array, or to a value that was never written.
pub data Outcome {ℓ} (A : Type ℓ) : Type ℓ where
  ok : A → Outcome A
  abort : Outcome A
  crash : Outcome A

infixl 5 ◌>>=◌ ◌>>◌
abbrev pub ◌>>=◌ {ℓ κ} : {A : Type ℓ} {B : Type κ} → Outcome A → (A → Outcome B) → Outcome B
ok a >>= f = f a
abort >>= f = abort
crash >>= f = crash

abbrev pub ◌>>◌ {ℓ} : {B : Type ℓ} → Outcome (Unit {0}) → Outcome B → Outcome B
m >> k = m >>= λ _. k

abbrev pub assert_that : Bool → Outcome (Unit {0})
assert_that true = ok tt
assert_that false = abort

-- The value behind a pointer that may be bad.
abbrev pub deref {ℓ} : {A : Type ℓ} → Option A → Outcome A
deref none = crash
deref (some a) = ok a

module _ {A B : Type 0} where
  pub bind_pointwise :
      (n : Outcome A) {f g : A → Outcome B} → ((a : A) → f a ≡ g a) → (n >>= f) ≡ (n >>= g)
  bind_pointwise (ok a) h = h a
  bind_pointwise abort h = refl
  bind_pointwise crash h = refl

  pub bind_cong :
      {m n : Outcome A} {f g : A → Outcome B}
      → m ≡ n
      → ((a : A) → f a ≡ g a)
      → (m >>= f) ≡ (n >>= g)
  bind_cong {m} {n} {f} {g} e h = ap (λ k. k >>= f) e ∙ bind_pointwise n h

module _ {A B C : Type 0} where
  pub bind_assoc :
      (m : Outcome A) (f : A → Outcome B) (g : B → Outcome C)
      → (m >>= f >>= g) ≡ (m >>= λ a. f a >>= g)
  bind_assoc (ok a) f g = refl
  bind_assoc abort f g = refl
  bind_assoc crash f g = refl
