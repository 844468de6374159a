-- ===== src/Backtrace/Trace.antt =====
-- The tag of lib/backtrace.c that names the frames of a backtrace.
use tinu.Prelude.{
  ℕ, suc, ◌+◌, ◌^◌, ◌<◌, ◌≡◌, refl, ap, sym, ◌∙◌, false, Option, none, some, List, [], ◌∷◌, ◌++◌,
  Str, bytes, length, length-append, map, get_elem?, take, drop, All, ◌==◌, if◌then◌else◌,
  Bool-cases, inl, inr, arith, Outcome, ok, ◌>>=◌, bind_cong, deref,
}
use mathlib.Core.List.{append_assoc}
use tinu.Message.Slots.{drop-suc, take-length-append}
use tinu.Backtrace.Frames.{get_elem?-drop}
use tinu.External.Replace.{join}
use tinu.Message.{MessageTag}
use tinu.Backtrace.{
  Backtrace, DlInfo, function_name, backtrace_resolve_info, trace_names, msg_tag_trace,
  backtrace_create, backtrace_unreference,
}

element_of_drop :
    (xs : List ℕ) (i : ℕ) {y : ℕ} {ys : List ℕ} → drop i xs ≡ y ∷ ys → get_elem? xs i ≡ some y
element_of_drop xs i e =
    ap (get_elem? xs) (omega arith) ∙ sym (get_elem?-drop xs i 0) ∙ ap (λ l. get_elem? l 0) e

-- `msg_tag_trace_current`: the backtrace that it makes is freed behind it; one that could not be
-- made is NULL.
unfoldable pub msg_tag_trace_current :
    (ℕ → Option DlInfo) → (Str → Option Str) → Option (List ℕ) → Str → ℕ → Outcome MessageTag
unfolding backtrace_create backtrace_unreference msg_tag_trace
msg_tag_trace_current dladdr demangler frames tag skip = do
  trace ← deref (backtrace_create frames skip).0
  res ← msg_tag_trace dladdr demangler tag trace
  memory ← backtrace_unreference (some trace)
  ok res

-- What stands in a trace for the address of a frame.
module _ (dladdr : ℕ → Option DlInfo) (demangler : Str → Option Str) where
  unfoldable pub frame_name : ℕ → Str
  frame_name addr =
      if addr == 0
      then bytes "???"
      else elim (dladdr addr) [ none ↦ [] | some info ↦ function_name dladdr demangler info ]

  -- The frame has a symbol, or it is NULL.
  abbrev pub IsKnown : ℕ → Type 0
  IsKnown addr = (addr == 0) ≡ false → (info : DlInfo) × (dladdr addr ≡ some info)

  -- The names of the frames from slot `i`, each with the comma behind it.
  unfoldable listed : List ℕ → Str → Str
  listed [] str = str
  listed (addr ∷ addrs) str = listed addrs (str ++ (frame_name addr ++ bytes ", "))

  trace_step :
      (addr : ℕ) (f : Str → Outcome Str) (str : Str)
      → IsKnown addr
      → (backtrace_resolve_info dladdr demangler addr >>= λ entry. f (elim entry [
        | some entry ↦ str ++ (entry.function ++ bytes ", ")
        | none ↦ str ++ bytes "???, "
      ]))
        ≡ f (str ++ (frame_name addr ++ bytes ", "))
  unfolding backtrace_resolve_info frame_name
  trace_step addr f str known = elim (Bool-cases (addr == 0)) [
    | inl null ↦ rw null refl
    | inr frame ↦ rw (frame, (known frame).1) refl
  ]

  trace_names-listed :
      (self : Backtrace) (addrs : List ℕ) (i : ℕ) (str : Str)
      → drop i self.symbols ≡ addrs
      → All IsKnown addrs
      → trace_names dladdr demangler (length addrs) i self str ≡ ok (listed addrs str)
  unfolding trace_names listed
  trace_names-listed self [] i str e known = refl
  trace_names-listed self (addr ∷ addrs) i str e known = rw (element_of_drop self.symbols i e) (
      trace_step addr (trace_names dladdr demangler (length addrs) (suc i) self) str known.0
      ∙ trace_names-listed self addrs (suc i) _ (drop-suc i self.symbols e) known.1)

  -- The names with ", " between them.
  unfoldable pub named : ℕ → List ℕ → Str
  unfolding join
  named addr addrs = join (bytes ", ") (frame_name addr) (map frame_name addrs)

  listed-named :
      (addr : ℕ) (addrs : List ℕ) (str : Str)
      → listed (addr ∷ addrs) str ≡ str ++ (named addr addrs ++ bytes ", ")
  unfolding listed named join
  listed-named addr [] str = refl
  listed-named addr (a ∷ addrs) str =
      listed-named a addrs (str ++ (frame_name addr ++ bytes ", ")) ∙ simp append_assoc

  -- For a backtrace of at least one frame, where each frame has a symbol or is NULL and the text is
  -- no longer than the memory: the tag's value is the names, "???" for NULL, with ", " between
  -- them and nothing behind the last.
  pub msg_tag_trace-named :
      (tag : Str) (self : Backtrace) (addr : ℕ) (addrs : List ℕ)
      → self.symbols ≡ addr ∷ addrs
      → self.length_ ≡ length (addr ∷ addrs)
      → All IsKnown (addr ∷ addrs)
      → length (named addr addrs) + 2 < 2 ^ 64
      → msg_tag_trace dladdr demangler tag self
        ≡ ok (record { tag = tag; value = named addr addrs })
  unfolding msg_tag_trace
  msg_tag_trace-named tag self addr addrs e l known h =
      bind_cong
        (ap (λ n. trace_names dladdr demangler n 0 self []) l
          ∙ trace_names-listed self (addr ∷ addrs) 0 [] e known
          ∙ ap ok (listed-named addr addrs []))
        (λ s. refl)
      ∙ ap (λ (s : Str). ok (record { tag = tag; value = s }))
          (ap (λ k. take k (named addr addrs ++ bytes ", "))
              (omega (arith, length-append (named addr addrs) (bytes ", ")))
            ∙ take-length-append (named addr addrs) (bytes ", "))
