-- ===== src/Standard/Titles.antt =====
-- The names that the report of lib/report-standard.c prints of results and priorities.
use tinu.Prelude.{
  ℕ, zero, suc, ◌≡◌, refl, Bool-cases, inl, inr, Bool, true, false, Option, none, some, List, [],
  ◌∷◌, ◌++◌, Str, get_elem?, All, ℤ, pos, int_eq, assert_that, ◌>>◌, Outcome, ok, abort, crash,
  ◌>>=◌, deref,
}
use mathlib.Core.Option
use tinu.Runner.{TestCaseResult}
use tinu.Standard.Printing.{int, str}
use tinu.Standard.Strip.{is_plain, literal, literal, Shows-append, IsPlain}
use tinu.Standard.{priority_format, priority_line, show_messages}
use tinu.Standard.Agreeing.{
  Agrees, both_ok, both_abort, both_crash, Agrees-bind, Agrees-same, done, plain, a_left, a_right,
  vfprintf-Agrees,
}
use tinu.Names.{NameTable, tinu_lookup_key}
use tinu.Runner.Labels.{result_number, test_result_name, test_case_result_names}
use tinu.Message.Priority.{msg_format_priority, message_priority_names}

abbrev PlainEntry : Option (Str × ℕ) → Type 0
PlainEntry none = Unit
PlainEntry (some r) = IsPlain r.0

abbrev pub PlainName : Outcome (Option Str) → Type 0
PlainName (ok (some name)) = IsPlain name
PlainName m = Unit

lookup-PlainEntry :
    (table : NameTable) (key : ℤ)
    → All (λ e. is_plain e.name ≡ true) table
    → PlainEntry (tinu_lookup_key table key)
unfolding tinu_lookup_key
lookup-PlainEntry [] key h = tt
lookup-PlainEntry (e ∷ table) key h = elim (Bool-cases (int_eq e.key key)) [
  | inl same ↦ rw same (literal e.name h.0)
  | inr other ↦ rw other (lookup-PlainEntry table key h.1)
]

asserted-PlainName :
    (b : Bool) (o : Option (Str × ℕ))
    → PlainEntry o
    → PlainName (assert_that b >> ok (Option.map (λ r. r.0) o))
asserted-PlainName true (some r) h = h
asserted-PlainName true none h = tt
asserted-PlainName false o h = tt

pub result_name-PlainName :
    (result : TestCaseResult) → PlainName (test_result_name (result_number result))
unfolding test_result_name test_case_result_names
result_name-PlainName result =
    asserted-PlainName _ _ (
      lookup-PlainEntry _ (result_number result) (refl, (refl, (refl, (refl, (refl, (refl, tt)))))))

pub priority-PlainName : (i : ℤ) → PlainName (msg_format_priority i)
unfolding msg_format_priority message_priority_names
priority-PlainName i =
    asserted-PlainName _ _
      (lookup-PlainEntry _ i (refl, (refl, (refl, (refl, (refl, (refl, (refl, (refl, tt)))))))))

pub Agrees-name :
    (m : Outcome (Option Str)) {f g : Str → Outcome Str}
    → PlainName m
    → ((name : Str) → IsPlain name → Agrees (f name) (g name))
    → Agrees (m >>= λ o. deref o >>= f) (m >>= λ o. deref o >>= g)
Agrees-name (ok (some name)) h k = k name h
Agrees-name (ok none) h k = both_crash
Agrees-name abort h k = both_abort
Agrees-name crash h k = both_crash

-- A part of the report, and what stands behind it.
pub Agrees-append :
    {m n m' n' : Outcome Str}
    → Agrees m n
    → Agrees m' n'
    → Agrees (m >>= λ s. m' >>= λ t. ok (s ++ t)) (n >>= λ s. n' >>= λ t. ok (s ++ t))
Agrees-append h h' =
    Agrees-bind h (λ s t e. Agrees-bind h' (λ s' t' e'. both_ok (Shows-append s s' t t' e e')))

priority_line-Agrees : (i count : ℕ) → Agrees (priority_line i count) (priority_line i count)
unfolding priority_line
priority_line-Agrees i count =
    Agrees-name (msg_format_priority (pos i)) (priority-PlainName (pos i)) (λ name h.
      vfprintf-Agrees priority_format priority_format (int 25 ∷ str name ∷ int 10 ∷ int count ∷ [])
        (int 25 ∷ str name ∷ int 10 ∷ int count ∷ [])
        (plain refl (a_left h (plain refl (a_right (plain refl done))))))

pub show_messages-Agrees :
    (n i : ℕ) (messages : List ℕ) → Agrees (show_messages n i messages) (show_messages n i messages)
unfolding show_messages
show_messages-Agrees zero i messages = both_ok (λ rest. refl)
show_messages-Agrees (suc n) i messages = Agrees-same (deref (get_elem? messages i)) (λ count.
    Agrees-append (priority_line-Agrees i count) (show_messages-Agrees n (suc i) messages))
