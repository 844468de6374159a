-- ===== src/Backtrace/Counting.antt =====
-- The reference count of a backtrace against the number of its holders.
use tinu.Prelude.{
  ℕ, zero, suc, ◌+◌, ◌-◌, ◌%◌, ◌^◌, ◌<◌, ◌≡◌, refl, false, Option, none, some, List, [], ◌∷◌,
  length, ◌==◌, arith, Outcome, ok, crash, ◌>>=◌,
}
use tinu.Backtrace.{Backtrace, backtrace_reference, backtrace_unreference}

pub data Step : Type 0 where
  reference : Step
  unreference : Step

unfoldable pub run : List Step → Option Backtrace → Outcome (Option Backtrace)
run [] memory = ok memory
run (reference ∷ steps) memory = do memory ← backtrace_reference memory; run steps memory
run (unreference ∷ steps) memory = do memory ← backtrace_unreference memory; run steps memory

-- How many hold the backtrace behind the steps; with no holder left a step is not allowed.
unfoldable pub holders : List Step → ℕ → Option ℕ
holders [] n = some n
holders (s ∷ steps) zero = none
holders (reference ∷ steps) (suc n) = holders steps (suc (suc n))
holders (unreference ∷ steps) (suc n) = holders steps n

-- The memory with a backtrace that `n` hold.
abbrev pub held : Backtrace → ℕ → Option Backtrace
held trace zero = none
held trace (suc n) = some (record trace { refcnt = suc n })

-- With `n` holders and too few steps for the 32-bit count to overflow, the object stays, with the
-- number of its holders as its count, until that number is zero; then it is freed at once, and
-- any step behind that goes through a freed pointer.
pub run-holders :
    (steps : List Step) (n : ℕ) (trace : Backtrace)
    → length steps + n < 2 ^ 32
    → run steps (held trace n)
      ≡ elim (holders steps n) [ none ↦ crash | some k ↦ ok (held trace k) ]
unfolding run holders backtrace_reference backtrace_unreference
run-holders [] n trace h = refl
run-holders (reference ∷ steps) zero trace h = refl
run-holders (unreference ∷ steps) zero trace h = refl
run-holders (reference ∷ steps) (suc n) trace h =
    let same : (suc n + 1) % 2 ^ 32 ≡ suc (suc n) = omega arith in
    rw same (run-holders steps (suc (suc n)) trace (omega arith))
run-holders (unreference ∷ steps) (suc zero) trace h = run-holders steps zero trace (omega arith)
run-holders (unreference ∷ steps) (suc (suc n)) trace h =
    let same : (suc (suc n) + (2 ^ 32 - 1)) % 2 ^ 32 ≡ suc n = omega arith in
    let more : (suc n == 0) ≡ false = ground arith in
    rw (same, more) (run-holders steps (suc n) trace (omega arith))
