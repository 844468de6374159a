-- ===== src/Statistics/Feeding.antt =====
-- Lists of events fed to the hooks of the statistics.
use tinu.Prelude.{ℕ, ◌+◌, ◌≡◌, refl, ap, ◌∙◌, List, [], ◌∷◌, ◌++◌, Outcome, ok, arith}
use tinu.Runner.{
  CasePtr, Event, asserted, signal_abort, signal_segfault, before_test, after_test, before_suite,
  after_suite, leakinfo, sigabrt, sigsegv, Action, assertion, raise, TestContext, test_run_hooks,
  run_entries, hook_id,
}
use tinu.Runner.Trace.{events, feed, feed-append}
use tinu.Statistics.{TestStatistics, stat_hook, stat_hook_assert, stat_hooks}
use tinu.Statistics.Counted.{Counted-refl, Counted-trans}
use tinu.Statistics.Ready.{InTest, Leads, stat_hook_assert-InTest}

entries :
    (clock : ℕ → ℕ) (e : Event) (s : TestStatistics)
    → run_entries (stat_hooks clock (hook_id e)) e (ok s) ≡ stat_hook clock e s
unfolding run_entries stat_hooks hook_id
entries clock (asserted c) s = refl
entries clock signal_abort s = refl
entries clock signal_segfault s = refl
entries clock (before_test t) s = refl
entries clock (after_test t r) s = refl
entries clock (before_suite i) s = refl
entries clock (after_suite i b) s = refl
entries clock (leakinfo t n) s = refl

module _ (clock : ℕ → ℕ) (self : TestContext (Outcome TestStatistics))
    (hooked : self.hooks ≡ stat_hooks clock) where
  -- The events lead to a state with `P`, and the counters grow by `p`, `f` and `g`.
  abbrev pub Goes : TestStatistics → List Event → (TestStatistics → Type 0) → ℕ → ℕ → ℕ → Type 0
  Goes s es P p f g = Leads s (feed self es (ok s)) P p f g

  pub hooks-stat_hook :
      (e : Event) (s : TestStatistics) → test_run_hooks self e (ok s) ≡ stat_hook clock e s
  unfolding test_run_hooks
  hooks-stat_hook e s = ap (λ hs. run_entries (hs (hook_id e)) e (ok s)) hooked ∙ entries clock e s

  pub Goes-one :
      (s : TestStatistics) (e : Event) {P : TestStatistics → Type 0} {p f g : ℕ}
      → Leads s (stat_hook clock e s) P p f g
      → Goes s (e ∷ []) P p f g
  unfolding feed
  Goes-one s e (s', run, h, n) = (s', hooks-stat_hook e s ∙ run, h, n)

  pub Goes-append :
      (s : TestStatistics) (es fs : List Event) {P Q : TestStatistics → Type 0} {p f g p' f' g' : ℕ}
      → Goes s es P p f g
      → ((s' : TestStatistics) → P s' → Goes s' fs Q p' f' g')
      → Goes s (es ++ fs) Q (p + p') (f + f') (g + g')
  Goes-append s es fs {p = p} {f = f} {g = g} {p' = p'} {f' = f'} {g' = g'} (s', run, h, n) next =
      let (s'', run', h', n') = next s' h in
      (
        s'',
        feed-append self es fs (ok s) ∙ ap (feed self fs) run ∙ run',
        h',
        Counted-trans s s' s'' p f g p' f' g' n n',
      )

  pub Goes-cast :
      (s : TestStatistics) (es : List Event) {P : TestStatistics → Type 0} {p f g p' f' g' : ℕ}
      → Goes s es P p f g
      → p ≡ p'
      → f ≡ f'
      → g ≡ g'
      → Goes s es P p' f' g'
  Goes-cast s es (s', run, h, n) a b c = (
    s',
    run,
    h,
    record {
      passes = omega (arith, n.passes, a);
      failures = omega (arith, n.failures, b);
      faults = omega (arith, n.faults, c);
    },
  )

  pub Goes-events :
      (s : TestStatistics) (i : ℕ) (t : CasePtr) (acts : List Action)
      → InTest s i t
      → Goes s (events acts) (λ s'. InTest s' i t) 0 0 0
  unfolding events feed stat_hook stat_hook_assert
  Goes-events s i t [] h = (s, refl, h, Counted-refl s)
  Goes-events s i t (assertion c ∷ acts) h =
      Goes-append s (asserted c ∷ []) (events acts)
        (Goes-one s (asserted c) (stat_hook_assert-InTest s i t c h))
        (λ s' h'. Goes-events s' i t acts h')
  Goes-events s i t (raise sigabrt ∷ acts) h = Goes-one s signal_abort (s, refl, h, Counted-refl s)
  Goes-events s i t (raise sigsegv ∷ acts) h =
      Goes-one s signal_segfault (s, refl, h, Counted-refl s)
