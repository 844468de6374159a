-- ===== src/Runner/Trace.antt =====
-- What running the code of a test comes to, by the list of what the code does.
use tinu.Prelude.{
  ℕ, ◌≡◌, refl, ap, sym, ◌∙◌, Bool, true, false, ◌||◌, not, Option, none, some, List, [], ◌∷◌, ◌++◌,
  ◌==◌, if◌then◌else◌, Outcome, ok, bind_cong, bind_assoc, ◌>>=◌, arith, Bool-cases, inl, inr,
}
use tinu.Suites.{TestCase}
use tinu.Runner.{
  TestCaseResult, test_none, test_passed, test_failed, test_abort, test_segfault, CasePtr, Event,
  asserted, signal_abort, signal_segfault, before_test, Signal, sigabrt, sigsegv, Action, assertion,
  raise, TestContext, Running, test_run_hooks, signal_handler, tinu_test_assert, perform, call,
  pass, test_case_run_intern,
}

unfoldable pub first_signal : List Action → Option Signal
first_signal [] = none
first_signal (assertion c ∷ actions) = first_signal actions
first_signal (raise s ∷ actions) = some s

-- An assertion fails somewhere.
unfoldable pub fails : List Action → Bool
fails [] = false
fails (assertion c ∷ actions) = not c || fails actions
fails (raise s ∷ actions) = fails actions

-- The events up to the first signal.
unfoldable pub events : List Action → List Event
events [] = []
events (assertion c ∷ actions) = asserted c ∷ events actions
events (raise sigabrt ∷ actions) = signal_abort ∷ []
events (raise sigsegv ∷ actions) = signal_segfault ∷ []

-- The first signal decides; without one a failed assertion, and else what was there before.
unfoldable pub verdict_from : TestCaseResult → List Action → TestCaseResult
unfolding first_signal fails
verdict_from result actions = elim (first_signal actions) [
  | some sigabrt ↦ test_abort
  | some sigsegv ↦ test_segfault
  | none ↦ if fails actions then test_failed else result
]

abbrev pub verdict : List Action → TestCaseResult
verdict = verdict_from test_passed

verdict_from-assertion :
    (result : TestCaseResult) (c : Bool) (acts : List Action)
    → verdict_from (if not c then test_failed else result) acts
      ≡ verdict_from result (assertion c ∷ acts)
unfolding verdict_from first_signal fails
verdict_from-assertion result true acts = refl
verdict_from-assertion result false acts = ground arith

abbrev pub is_none : Option Signal → Bool
is_none none = true
is_none (some s) = false

pass-verdict :
    (acts : List Action)
    → (if is_none (first_signal acts)
        then pass (verdict_from test_none acts)
        else verdict_from test_none acts)
      ≡ verdict acts
unfolding verdict_from pass
pass-verdict acts = ground arith

-- All that the functions of a test do, one behind the other.
abbrev pub body : (ℕ → ℕ → List Action) → ℕ → ℕ → List Action
body code user_data function = if not (function == 0) then code function user_data else []

abbrev pub actions : (ℕ → ℕ → List Action) → TestCase → List Action
actions code test =
    body code test.user_data test.setup
    ++ (body code test.user_data test.test ++ body code test.user_data test.cleanup)

module _ {W : Type 0} where
  -- The hooks get a list of events.
  unfoldable pub feed : TestContext W → List Event → W → W
  feed self [] w = w
  feed self (e ∷ es) w = feed self es (test_run_hooks self e w)

  pub feed-append :
      (self : TestContext W) (es fs : List Event) (w : W)
      → feed self (es ++ fs) w ≡ feed self fs (feed self es w)
  unfolding feed
  feed-append self [] fs w = refl
  feed-append self (e ∷ es) fs w = feed-append self es fs (test_run_hooks self e w)

module _ {W : Type 0} (code : ℕ → ℕ → List Action) (leaked : CasePtr → ℕ) (switched : Bool) where
  abbrev go : TestContext W → List Action → W → TestCaseResult → Outcome (Running W)
  go = perform code leaked switched

  abbrev resume : TestContext W → List Action → Running W → Outcome (Running W)
  resume self rest r = if r.ended then go self rest r.world r.result else ok r

  perform-append :
      (self : TestContext W) (acts bs : List Action) (w : W) (result : TestCaseResult)
      → go self (acts ++ bs) w result ≡ (go self acts w result >>= resume self bs)
  unfolding perform signal_handler
  perform-append self [] bs w result = refl
  perform-append self (assertion c ∷ acts) bs w result = perform-append self acts bs _ _
  perform-append self (raise sigabrt ∷ acts) bs w result = ground arith
  perform-append self (raise sigsegv ∷ acts) bs w result = ground arith

  call-resume :
      (self : TestContext W) (user_data function : ℕ) (r : Running W)
      → call code leaked switched self user_data function r
        ≡ resume self (body code user_data function) r
  unfolding call perform
  call-resume self user_data function r = ground arith

  perform-events :
      (self : TestContext W) (acts : List Action) (w : W) (result : TestCaseResult)
      → self.sighandle ≡ true
      → go self acts w result
        ≡ ok (record {
          world = feed self (events acts) w;
          result = verdict_from result acts;
          ended = is_none (first_signal acts);
        })
  unfolding perform signal_handler tinu_test_assert feed events verdict_from first_signal fails
  perform-events self [] w result on = refl
  perform-events self (assertion c ∷ acts) w result on =
      perform-events self acts (test_run_hooks self (asserted c) w)
        (if not c then test_failed else result) on
      ∙ ap
          (λ r. ok (record {
            world = feed self (events acts) (test_run_hooks self (asserted c) w);
            result = r;
            ended = is_none (first_signal acts);
          }))
          (verdict_from-assertion result c acts)
  perform-events self (raise sigabrt ∷ acts) w result on = rw on
  perform-events self (raise sigsegv ∷ acts) w result on = rw on

  resume-append :
      (self : TestContext W) (bs cs : List Action) (r : Running W)
      → resume self (bs ++ cs) r ≡ (resume self bs r >>= resume self cs)
  resume-append self bs cs r = elim (Bool-cases r.ended) [
    | inl on ↦ simp on (perform-append self bs cs r.world r.result)
    | inr off ↦ simp off
  ]

  -- The three calls of `_test_case_run_intern` in a row.
  call-actions :
      (self : TestContext W) (test : TestCase) (r : Running W)
      → (call code leaked switched self test.user_data test.setup r
          >>= call code leaked switched self test.user_data test.test
          >>= call code leaked switched self test.user_data test.cleanup)
        ≡ resume self (actions code test) r
  call-actions self test r =
      let first = call-resume self test.user_data test.setup r in
      bind_cong (bind_cong first (call-resume self test.user_data test.test))
        (call-resume self test.user_data test.cleanup)
      ∙ bind_assoc (resume self (body code test.user_data test.setup) r) _ _
      ∙ bind_cong refl (λ q. sym (
          resume-append self (body code test.user_data test.test)
            (body code test.user_data test.cleanup) q))
      ∙ sym (resume-append self (body code test.user_data test.setup) _ r)

  -- `_test_case_run_intern` runs the three functions as one list of actions.
  pub test_case_run_intern_lem :
      (self : TestContext W) (ptr : CasePtr) (test : TestCase) (w : W)
      → self.sighandle ≡ true
      → test_case_run_intern code leaked switched self ptr test w
        ≡ ok (
          feed self (before_test ptr ∷ events (actions code test)) w,
          verdict (actions code test),
        )
  unfolding test_case_run_intern feed
  test_case_run_intern_lem self ptr test w on =
      let start : Running W = record {
        world = test_run_hooks self (before_test ptr) w;
        result = test_none;
        ended = true;
      } in
      let whole =
        call-actions self test start
        ∙ perform-events self (actions code test) start.world test_none on in
      let begun = call code leaked switched self test.user_data test.setup start in
      sym (
        bind_assoc (begun >>= call code leaked switched self test.user_data test.test) _ _
        ∙ bind_assoc begun _ _)
      ∙ bind_cong whole (λ q. refl)
      ∙ ap (λ v. ok (feed self (events (actions code test)) start.world, v))
          (pass-verdict (actions code test))
