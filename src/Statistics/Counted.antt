-- ===== src/Statistics/Counted.antt =====
-- How the counters of the statistics grow.
use tinu.Prelude.{ℕ, ◌+◌, ◌%◌, ◌^◌, ◌≡◌, refl, Bool, true, false, ok, arith, if◌then◌else◌, not}
use tinu.Runner.{
  TestCaseResult, test_none, test_passed, test_failed, test_abort, test_segfault, test_internal,
  is_passed, expected,
}
use tinu.Statistics.{TestStatistics, increment, count_result}

-- The counters grow by `p`, `f` and `g`, up to the width of 32 bits.
pub record Counted (s s' : TestStatistics) (p f g : ℕ) : Type 0 where
  pub passes : s'.passed % 2 ^ 32 ≡ (s.passed + p) % 2 ^ 32
  pub failures : s'.failed % 2 ^ 32 ≡ (s.failed + f) % 2 ^ 32
  pub faults : s'.sigsegv % 2 ^ 32 ≡ (s.sigsegv + g) % 2 ^ 32

pub Counted-refl : (s : TestStatistics) → Counted s s 0 0 0
Counted-refl s = record { passes = omega arith; failures = omega arith; faults = omega arith }

pub Counted-trans :
    (s s' s'' : TestStatistics) (p f g p' f' g' : ℕ)
    → Counted s s' p f g
    → Counted s' s'' p' f' g'
    → Counted s s'' (p + p') (f + f') (g + g')
Counted-trans s s' s'' p f g p' f' g' a b = record {
  passes = omega (arith, a.passes, b.passes);
  failures = omega (arith, a.failures, b.failures);
  faults = omega (arith, a.faults, b.faults);
}

unfoldable pub is_fault : TestCaseResult → Bool
is_fault test_segfault = true
is_fault _ = false

abbrev pub tally : Bool → ℕ
tally b = if b then 1 else 0

abbrev pub counted_state : TestStatistics → TestCaseResult → TestStatistics
counted_state s r = record s {
  passed = if is_passed r then increment s.passed else s.passed;
  failed = if is_passed r then s.failed else increment s.failed;
  sigsegv = if is_fault r then increment s.sigsegv else s.sigsegv;
}

pub count_result_lem :
    (s : TestStatistics) (r : TestCaseResult)
    → expected r ≡ true
    → count_result r s ≡ ok (counted_state s r)
unfolding count_result is_passed is_fault expected
count_result_lem s test_none good = cc
count_result_lem s test_passed good = refl
count_result_lem s test_failed good = refl
count_result_lem s test_abort good = refl
count_result_lem s test_internal good = refl
count_result_lem s test_segfault good = refl

increment-tally :
    (b : Bool) (n : ℕ) → (if b then increment n else n) % 2 ^ 32 ≡ (n + tally b) % 2 ^ 32
unfolding increment
increment-tally true n = omega arith
increment-tally false n = omega arith

increment-tally-not :
    (b : Bool) (n : ℕ) → (if b then n else increment n) % 2 ^ 32 ≡ (n + tally (not b)) % 2 ^ 32
unfolding increment
increment-tally-not true n = omega arith
increment-tally-not false n = omega arith

pub counted_state-Counted :
    (s : TestStatistics) (r : TestCaseResult)
    → Counted s
        (counted_state s r)
        (tally (is_passed r))
        (tally (not (is_passed r)))
        (tally (is_fault r))
counted_state-Counted s r = record {
  passes = increment-tally (is_passed r) s.passed;
  failures = increment-tally-not (is_passed r) s.failed;
  faults = increment-tally (is_fault r) s.sigsegv;
}
