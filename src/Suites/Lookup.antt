-- ===== src/Suites/Lookup.antt =====
-- What `_test_suite_lookup` returns.
use tinu.Prelude.{
  ℕ, suc, ◌+◌, ◌≡◌, refl, ap, ◌∙◌, Bool, true, false, Option, none, some, [], ◌∷◌, Str, str_eq,
  length, if◌then◌else◌, arith,
}
use tinu.Suites.{TestSuite, Suites, suite_from, test_suite_lookup}

-- The position of the first suite of the name, counted from `i`.
unfoldable pub find_suite : Suites → ℕ → Str → Option ℕ
find_suite [] i name = none
find_suite (s ∷ ss) i name = if str_eq s.name name then some i else find_suite ss (suc i) name

-- The last position, or what came before it.
abbrev last_position : Suites → ℕ → Option ℕ → Option ℕ
last_position [] i res = res
last_position (s ∷ ss) i res = last_position ss (suc i) (some i)

suite_from-hit :
    (ss : Suites) (i k : ℕ) (name : Str) (res : Option ℕ)
    → find_suite ss i name ≡ some k
    → suite_from ss i name res ≡ (some k, true)
unfolding find_suite suite_from
suite_from-hit [] i k name res e = cc
suite_from-hit (s ∷ ss) i k name res e = ground (arith, suite_from-hit ss (suc i) k name (some i))

suite_from-miss :
    (ss : Suites) (i : ℕ) (name : Str) (res : Option ℕ)
    → find_suite ss i name ≡ none
    → suite_from ss i name res ≡ (last_position ss i res, false)
unfolding find_suite suite_from
suite_from-miss [] i name res e = refl
suite_from-miss (s ∷ ss) i name res e = ground (arith, suite_from-miss ss (suc i) name (some i))

last_position_lem :
    (s : TestSuite) (ss : Suites) (i : ℕ) (res : Option ℕ)
    → last_position (s ∷ ss) i res ≡ some (i + length ss)
last_position_lem s [] i res = ap some (omega arith)
last_position_lem s (t ∷ ss) i res = last_position_lem t ss (suc i) (some i) ∙ ap some (omega arith)

-- Asked for a suite that exists, `_test_suite_lookup` finds the first one of the name, whether or
-- not it may make a new one, and changes nothing.
pub lookup_known :
    (suites : Suites) (name : Str) (new : Bool) {k : ℕ}
    → find_suite suites 0 name ≡ some k
    → test_suite_lookup suites name new ≡ (suites, some k)
unfolding test_suite_lookup
lookup_known suites name new {k} e = rw (suite_from-hit suites 0 k name none e)

-- Asked for a suite that does not exist and told not to make it, `_test_suite_lookup` returns
-- the last suite of a context that has one, and not `NULL`.
pub lookup_unknown :
    (s : TestSuite) (ss : Suites) (name : Str)
    → find_suite (s ∷ ss) 0 name ≡ none
    → test_suite_lookup (s ∷ ss) name false ≡ (s ∷ ss, some (length ss))
unfolding test_suite_lookup
lookup_unknown s ss name e =
    rw (suite_from-miss (s ∷ ss) 0 name none e, last_position_lem s ss 0 none)
      (ap (λ n. (s ∷ ss, some n)) (omega arith))
