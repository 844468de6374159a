-- ===== src/Statistics/Cases.antt =====
-- What a run of the cases of a suite leaves in the statistics, entry by entry.
use tinu.Prelude.{
  ℕ, suc, ◌+◌, ◌*◌, ◌≡◌, refl, sym, ap, ◌∙◌, Bool, true, Bool-cases, inl, inr, List, [], ◌∷◌, ◌++◌,
  length, Outcome, ok, arith, if◌then◌else◌,
}
use mathlib.Core.List.{append_assoc, append-nil}
use tinu.Suites.{TestCase}
use tinu.Runner.{
  CasePtr, Event, asserted, before_test, after_test, leakinfo, sigabrt, sigsegv, Action, assertion,
  raise, TestContext,
}
use tinu.Runner.Trace.{events, actions, feed, feed-append}
use tinu.Runner.Verdict.{case_result, case_result-expected, case_events, cases_events}
use tinu.Statistics.{StatTestInfo, StatSuiteInfo, TestStatistics, stat_hook, stat_hooks}
use tinu.Statistics.Counted.{tally, counted_state}
use tinu.Statistics.Feeding.{hooks-stat_hook}
use tinu.Statistics.Expected.{
  asserts, asserts_passed, case_info, case_infos, all_asserts, all_asserts_passed,
}
use tinu.Statistics.Positions.{
  open_suite, open_case, in_suite, in_case, stat_hook_assert-in_case, stat_hook_case_begin-in_suite,
  stat_hook_leakwatch-in_case, stat_hook_case_end-in_suite,
}

-- `n` readings of the clock are made, and no message is counted.
pub record Reads (s s' : TestStatistics) (n : ℕ) : Type 0 where
  pub reads : s'.readings ≡ s.readings + n
  pub messages : s'.messages ≡ s.messages

ok_open :
    (s : TestStatistics) (infos : List StatSuiteInfo) (i start : ℕ) {a p b q : ℕ}
    {xs ys : List StatTestInfo}
    → a ≡ b
    → p ≡ q
    → xs ≡ ys
    → ok (in_suite s infos (open_suite i start a p xs))
      ≡ ok (in_suite s infos (open_suite i start b q ys))
ok_open s infos i start e f g = simp (e, f, g)

open_more :
    (s : TestStatistics) (infos : List StatSuiteInfo) (cases : List StatTestInfo) (t : CasePtr)
    (i start start' : ℕ) {a p a' p' b q b' q' : ℕ}
    → a ≡ b
    → p ≡ q
    → a' ≡ b'
    → p' ≡ q'
    → ok (in_case s infos (open_suite i start a p []) cases (open_case t start' a' p' 0))
      ≡ ok (in_case s infos (open_suite i start b q []) cases (open_case t start' b' q' 0))
open_more s infos cases t i start start' e f g h = simp (e, f, g, h)

module _ (clock : ℕ → ℕ) (self : TestContext (Outcome TestStatistics))
    (hooked : self.hooks ≡ stat_hooks clock) where
  -- One event, and then more.
  pub feed_one :
      (e : Event) (es : List Event) (s : TestStatistics) {s' : TestStatistics}
      → stat_hook clock e s ≡ ok s'
      → feed self (e ∷ es) (ok s) ≡ feed self es (ok s')
  unfolding feed
  feed_one e es s h = ap (feed self es) (hooks-stat_hook clock self hooked e s ∙ h)

  pub feed_last :
      (e : Event) (s : TestStatistics) {s' : TestStatistics}
      → stat_hook clock e s ≡ ok s'
      → feed self (e ∷ []) (ok s) ≡ ok s'
  unfolding feed
  feed_last e s h = feed_one e [] s h

  pub feed_then :
      (es fs : List Event) (w : Outcome TestStatistics) {w' : Outcome TestStatistics}
      → feed self es w ≡ w'
      → feed self (es ++ fs) w ≡ feed self fs w'
  feed_then es fs w h = feed-append self es fs w ∙ ap (feed self fs) h

  feed-events :
      (s : TestStatistics) (infos : List StatSuiteInfo) (i start a p : ℕ)
      (cases : List StatTestInfo) (t : CasePtr) (start' a' p' : ℕ) (acts : List Action)
      → feed self
          (events acts)
          (ok (in_case s infos (open_suite i start a p []) cases (open_case t start' a' p' 0)))
        ≡ ok (
            in_case s infos
              (open_suite i start (a + asserts acts) (p + asserts_passed acts) [])
              cases
              (open_case t start' (a' + asserts acts) (p' + asserts_passed acts) 0))
  unfolding events asserts asserts_passed feed stat_hook
  feed-events s infos i start a p cases t start' a' p' [] =
      open_more s infos cases t i start start' (omega arith) (omega arith) (omega arith)
        (omega arith)
  feed-events s infos i start a p cases t start' a' p' (assertion c ∷ acts) =
      feed_one (asserted c) (events acts) _
        (stat_hook_assert-in_case s infos c i start a p cases t start' a' p' 0)
      ∙ feed-events s infos i start (a + 1) (p + tally c) cases t start' (a' + 1) (p' + tally c)
          acts
      ∙ open_more s infos cases t i start start' (omega arith) (omega arith) (omega arith)
          (omega arith)
  feed-events s infos i start a p cases t start' a' p' (raise sigabrt ∷ acts) =
      hooks-stat_hook clock self hooked _ _
      ∙ open_more s infos cases t i start start' (omega arith) (omega arith) (omega arith)
          (omega arith)
  feed-events s infos i start a p cases t start' a' p' (raise sigsegv ∷ acts) =
      hooks-stat_hook clock self hooked _ _
      ∙ open_more s infos cases t i start start' (omega arith) (omega arith) (omega arith)
          (omega arith)

module _ (clock : ℕ → ℕ) (self : TestContext (Outcome TestStatistics))
    (hooked : self.hooks ≡ stat_hooks clock) (code : ℕ → ℕ → List Action) (leaked : CasePtr → ℕ)
    (leakwatch : Bool) where
  feed-leakinfo :
      (s : TestStatistics) (infos : List StatSuiteInfo) (info : StatSuiteInfo)
      (cases : List StatTestInfo) (t : CasePtr) (start a p : ℕ) (es : List Event)
      → feed self
          ((if leakwatch then leakinfo t (leaked t) ∷ [] else []) ++ es)
          (ok (in_case s infos info cases (open_case t start a p 0)))
        ≡ feed self es (
            ok (
              in_case s infos info cases
                (open_case t start a p (if leakwatch then leaked t else 0))))
  unfolding stat_hook
  feed-leakinfo s infos info cases t start a p es = elim (Bool-cases leakwatch) [
    | inl on ↦ rw on (
        feed_one clock self hooked (leakinfo t (leaked t)) es _
          (stat_hook_leakwatch-in_case clock s infos info cases t start a p 0 (leaked t)))
    | inr off ↦ rw off refl
  ]

  -- The counters and the readings after a case.
  abbrev after_case : TestStatistics → TestCase → TestStatistics
  after_case s test =
      counted_state (record s { readings = s.readings + 1 + 1 })
        (case_result code leaked true leakwatch test)

  feed-case_events :
      (s : TestStatistics) (infos : List StatSuiteInfo) (i start a p : ℕ)
      (cases : List StatTestInfo) (t : CasePtr) (test : TestCase)
      → feed self
          (case_events code leaked true leakwatch t test)
          (ok (in_suite s infos (open_suite i start a p cases)))
        ≡ ok (
            in_suite (after_case s test) infos (
              open_suite i start
                (a + asserts (actions code test))
                (p + asserts_passed (actions code test))
                (cases ++ case_info clock code leaked leakwatch s.readings t test ∷ [])))
  unfolding case_events stat_hook
  feed-case_events s infos i start a p cases t test =
      let acts = actions code test in
      let r = case_result code leaked true leakwatch test in
      let begun = record s { readings = s.readings + 1 } in
      let info = open_suite i start (a + asserts acts) (p + asserts_passed acts) [] in
      feed_one clock self hooked (before_test t) _ _
        (stat_hook_case_begin-in_suite clock s infos (open_suite i start a p cases) t)
      ∙ feed_then clock self hooked (events acts) _ _ (
          feed-events clock self hooked begun infos i start a p cases t (clock s.readings) 0 0 acts
          ∙ open_more begun infos cases t i start (clock s.readings) refl refl (omega arith)
              (omega arith))
      ∙ feed-leakinfo begun infos info cases t (clock s.readings) (asserts acts)
          (asserts_passed acts) (after_test t r ∷ [])
      ∙ feed_last clock self hooked (after_test t r) _ (
          stat_hook_case_end-in_suite clock begun infos info cases t r (clock s.readings)
            (asserts acts) (asserts_passed acts) (if leakwatch then leaked t else 0)
            (case_result-expected code leaked true leakwatch test))

  pub feed-cases_events :
      (s : TestStatistics) (infos : List StatSuiteInfo) (i j start a p : ℕ)
      (cases : List StatTestInfo) (tests : List TestCase)
      → (s' : TestStatistics) × (feed self
            (cases_events code leaked true leakwatch i j tests)
            (ok (in_suite s infos (open_suite i start a p cases)))
          ≡ ok (
              in_suite s' infos (
                open_suite i start
                  (a + all_asserts code tests)
                  (p + all_asserts_passed code tests)
                  (cases ++ case_infos clock code leaked leakwatch i j s.readings tests))))
        × Reads s s' (2 * length tests)
  unfolding cases_events all_asserts all_asserts_passed case_infos feed
  feed-cases_events s infos i j start a p cases [] = (
    s,
    ok_open s infos i start (omega arith) (omega arith) (sym (append-nil cases)),
    record { reads = omega arith; messages = refl },
  )
  feed-cases_events s infos i j start a p cases (test ∷ tests) =
      let t : CasePtr = record { suite = i; case = j } in
      let acts = actions code test in
      let case = case_info clock code leaked leakwatch s.readings t test in
      let (s', run, reads) =
        feed-cases_events (after_case s test) infos i (suc j) start (a + asserts acts)
          (p + asserts_passed acts) (cases ++ case ∷ []) tests in
      (
        s',
        feed_then clock self hooked (case_events code leaked true leakwatch t test) _ _
              (feed-case_events s infos i start a p cases t test)
            ∙ run
            ∙ ok_open s' infos i start (omega arith) (omega arith)
                (append_assoc cases (case ∷ []) _),
        record { reads = omega (arith, reads.reads); messages = reads.messages },
      )
