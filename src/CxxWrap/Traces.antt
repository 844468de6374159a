-- ===== src/CxxWrap/Traces.antt =====
-- CxxBacktrace and its entries, and the demangler (lib/cxxwrap.cc).
use tinu.Prelude.{
  ℕ, ◌≡◌, refl, ap, sym, ◌∙◌, true, false, Bool-cases, inl, inr, Option, none, some, List, Str,
  bytes, length, take, ltb, leb, if◌then◌else◌, arith, Outcome, ok, abort, crash, ◌>>=◌, deref,
  bind_assoc,
}
use tinu.Dwarf.{DwarfHandle}
use tinu.Backtrace.{
  BacktraceEntry, Backtrace, DlInfo, Logged, backtrace_create_depth, backtrace_reference,
  backtrace_unreference, backtrace_depth, backtrace_line,
}
use tinu.Backtrace.Dump.{get_lineinfo}

-- What a call comes to that may throw an Exception with a text.
pub data Call (A : Type 0) : Type 0 where
  returns : A → Call A
  throws : Str → Call A

-- CxxBacktrace::Entry; a member that no code writes is `none`, and so is `obj` for NULL.
pub record Entry : Type 0 where
  pub function : Option Str
  pub source : Str
  pub line : ℕ
  pub obj : Option BacktraceEntry

-- `backtrace_resolv_lines` on a pointer that may be NULL.
unfoldable pub backtrace_resolv_lines :
    Option DwarfHandle → Option BacktraceEntry → Outcome (Option (Str × ℕ))
unfolding get_lineinfo
backtrace_resolv_lines dwarf entry = elim dwarf [
  | none ↦ ok none
  | some handle ↦ do frame ← deref entry; get_lineinfo (some handle) frame
]

abbrev entry_of : Option BacktraceEntry → Option (Str × ℕ) → Entry
entry_of obj none = record { function = none; source = bytes "(unknown)"; line = 0; obj = obj }
entry_of obj (some place) = record { function = none; source = place.0; line = place.1; obj = obj }

-- `Entry::Entry`, which leaves `m_function` as it is.
unfoldable pub entry_new : Option DwarfHandle → Option BacktraceEntry → Outcome Entry
unfolding backtrace_resolv_lines
entry_new dwarf obj = do found ← backtrace_resolv_lines dwarf obj; ok (entry_of obj found)

-- `Entry::~Entry`: `backtrace_entry_destroy` reads through `m_obj`, and the test reads
-- `m_function`.
unfoldable pub entry_destroy : Entry → Outcome (Unit {0})
entry_destroy self = do frame ← deref self.obj; function ← deref self.function; ok tt

-- The constructor with its default arguments `skip = 0` and `depth = 0`.
unfoldable pub cxx_backtrace_new : Option (List ℕ) → ℕ → ℕ → Option Backtrace × List Logged
unfolding backtrace_create_depth
cxx_backtrace_new frames skip depth = backtrace_create_depth frames depth skip

-- The copy constructor and the one from a Backtrace *, and the destructor.
unfoldable pub cxx_backtrace_copy : Option Backtrace → Outcome (Option Backtrace)
unfolding backtrace_reference
cxx_backtrace_copy memory = backtrace_reference memory

unfoldable pub cxx_backtrace_destroy : Option Backtrace → Outcome (Option Backtrace)
unfolding backtrace_unreference
cxx_backtrace_destroy memory = backtrace_unreference memory

-- `cxx_demangle`; `cxa_demangle` is abi::__cxa_demangle, which fails with `none` and else writes
-- the name, with its end, into the buffer, or has a larger one made from it, which is on the stack.
unfoldable pub cxx_demangle : (Str → Option Str) → Str → Outcome Str
cxx_demangle cxa_demangle function = elim (cxa_demangle function) [
  | none ↦ ok function
  | some name ↦ if ltb (length name) 4096 then ok (take 4096 name) else crash
]

module _ (dladdr : ℕ → Option DlInfo) (demangler : Str → Option Str)
    (dwarf : Option DwarfHandle) where
  -- `CxxBacktrace::at`
  unfoldable pub cxx_backtrace_at : Backtrace → ℕ → Outcome (Call Entry)
  unfolding backtrace_depth backtrace_line entry_new
  cxx_backtrace_at self i =
      if ltb (backtrace_depth self) i then ok (throws (bytes "Index out of range")) else (do
        line ← backtrace_line dladdr demangler self i
        entry ← entry_new dwarf line
        ok (returns entry))

  undestroyed :
      (obj : Option BacktraceEntry) (place : Option (Str × ℕ))
      → entry_destroy (entry_of obj place) ≡ crash
  unfolding entry_destroy
  undestroyed none none = refl
  undestroyed none (some place) = refl
  undestroyed (some frame) none = refl
  undestroyed (some frame) (some place) = refl

  -- An entry that is made comes from a place.
  made_entry :
      (obj : Option BacktraceEntry) (m : Outcome (Option (Str × ℕ))) (e : Entry)
      → (do found ← m; entry ← ok (entry_of obj found); ok (returns entry)) ≡ ok (returns e)
      → entry_destroy e ≡ crash
  made_entry obj (ok place) e h =
      let same : entry_of obj place ≡ e = cc in ap entry_destroy (sym same) ∙ undestroyed obj place
  made_entry obj abort e h = cc
  made_entry obj crash e h = cc

  made_line :
      (m : Outcome (Option BacktraceEntry)) (e : Entry)
      → (do line ← m; entry ← entry_new dwarf line; ok (returns entry)) ≡ ok (returns e)
      → entry_destroy e ≡ crash
  unfolding entry_new
  made_line (ok obj) e h =
      made_entry obj (backtrace_resolv_lines dwarf obj) e
        (sym (bind_assoc (backtrace_resolv_lines dwarf obj) _ _) ∙ h)
  made_line abort e h = cc
  made_line crash e h = cc

  -- An entry that `at` returns cannot be destroyed: `m_function`, which is tested, was never
  -- written, and at the depth itself, which passes the test of the index, the entry is NULL.
  pub at-entry_destroy :
      (self : Backtrace) (i : ℕ) (e : Entry)
      → cxx_backtrace_at self i ≡ ok (returns e)
      → entry_destroy e ≡ crash
  unfolding cxx_backtrace_at
  at-entry_destroy self i e h = elim (Bool-cases (ltb (backtrace_depth self) i)) [
    | inl beyond ↦ (let no = rw beyond at h in cc)
    | inr within ↦ made_line (backtrace_line dladdr demangler self i) e (rw within at h)
  ]

module _ (dladdr : ℕ → Option DlInfo) (demangler : Str → Option Str) where
  last_line :
      (self : Backtrace) → backtrace_line dladdr demangler self (backtrace_depth self) ≡ ok none
  unfolding backtrace_line backtrace_depth
  last_line self = let past : leb self.length_ self.length_ ≡ true = ground arith in rw past refl

  within_depth : (self : Backtrace) → ltb (backtrace_depth self) (backtrace_depth self) ≡ false
  within_depth self = ground arith

  -- The index of the depth, which is past the last frame, is not out of range: it gives an entry of
  -- NULL, or goes through NULL where line numbers can be looked up.
  pub at-past_end :
      (dwarf : Option DwarfHandle) (self : Backtrace)
      → cxx_backtrace_at dladdr demangler dwarf self (backtrace_depth self)
        ≡ elim dwarf [ none ↦ ok (returns (entry_of none none)) | some handle ↦ crash ]
  unfolding cxx_backtrace_at entry_new backtrace_resolv_lines
  at-past_end none self = rw (within_depth self, last_line self) refl
  at-past_end (some handle) self = rw (within_depth self, last_line self) refl
