-- ===== src/Backtrace/Frames.antt =====
-- The frames that a backtrace of lib/backtrace.c holds.
use tinu.Prelude.{
  ℕ, zero, suc, ◌+◌, ◌-◌, ◌≤◌, ◌<◌, ◌≡◌, refl, ap, sym, ◌∙◌, true, false, Option, none, some, List,
  [], ◌∷◌, Str, length, get_elem?, take, drop, ltb, leb, leb→le, if◌then◌else◌, Bool-cases, inl,
  inr, arith, ok, ◌>>=◌, deref,
}
use tinu.Backtrace.{
  max_depth, Backtrace, DlInfo, backtrace_create_depth, backtrace_depth, backtrace_resolve_info,
  backtrace_line,
}

get_elem?-take : (xs : List ℕ) (n i : ℕ) → i < n → get_elem? (take n xs) i ≡ get_elem? xs i
get_elem?-take xs zero i h = absurd (omega arith)
get_elem?-take [] (suc n) i h = refl
get_elem?-take (x ∷ xs) (suc n) zero h = refl
get_elem?-take (x ∷ xs) (suc n) (suc i) h = get_elem?-take xs n i (omega arith)

pub get_elem?-drop : (xs : List ℕ) (n i : ℕ) → get_elem? (drop n xs) i ≡ get_elem? xs (n + i)
get_elem?-drop xs zero i = ap (get_elem? xs) (omega arith)
get_elem?-drop [] (suc n) i = refl
get_elem?-drop (x ∷ xs) (suc n) i =
    let next : suc n + i ≡ suc (n + i) = omega arith in
    get_elem?-drop xs n i ∙ sym (ap (get_elem? (x ∷ xs)) next)

-- A backtrace of the frames from the one skipped to, whatever the depth asked for.
abbrev pub from_frame : List ℕ → ℕ → Backtrace
from_frame frames skip = record {
  refcnt = 1;
  length_ = length frames - skip;
  symbols = take (length frames - skip) (drop skip frames);
}

create_depth-from_frame :
    (frames : List ℕ) (depth skip : ℕ)
    → (backtrace_create_depth (some frames) depth skip).0 ≡ some (from_frame frames skip)
unfolding backtrace_create_depth
create_depth-from_frame frames depth skip = elim (Bool-cases (leb (length frames) skip)) [
  | inl empty ↦
      let nothing : length frames - skip ≡ 0 = omega (arith, leb→le (length frames) skip empty) in
      rw (empty, nothing) refl
  | inr more ↦ rw more refl
]

module _ (dladdr : ℕ → Option DlInfo) (demangler : Str → Option Str) where
  line-from_frame :
      (frames : List ℕ) (skip index : ℕ)
      → backtrace_line dladdr demangler (from_frame frames skip) index ≡ (
          if ltb index (length frames - skip)
          then deref (get_elem? frames (skip + index)) >>= backtrace_resolve_info dladdr demangler
          else ok none)
  unfolding backtrace_line
  line-from_frame frames skip index = elim (Bool-cases (ltb index (length frames - skip))) [
    | inl inside ↦
        let below : leb (length frames - skip) index ≡ false = ground (arith, inside) in
        rw (inside, below)
          (ap (λ o. deref o >>= backtrace_resolve_info dladdr demangler)
            (get_elem?-take (drop skip frames) (length frames - skip) index (ground (arith, inside))
              ∙ get_elem?-drop frames skip index))
    | inr outside ↦
        let above : leb (length frames - skip) index ≡ true = ground (arith, outside) in
        rw (outside, above) refl
  ]

-- Whatever depth is asked for, a stack that `backtrace` reads, of at most MAX_DEPTH frames, gives
-- a backtrace of the frames behind the skipped ones, never deeper than MAX_DEPTH; each index below
-- its depth resolves that frame of the stack, any other gives NULL, and none reads outside
-- the frames stored.
pub backtrace_line-create_depth :
    (dladdr : ℕ → Option DlInfo) (demangler : Str → Option Str) (frames : List ℕ) (depth skip : ℕ)
    → length frames ≤ max_depth
    → (trace : Backtrace) × ((backtrace_create_depth (some frames) depth skip).0 ≡ some trace)
      × (backtrace_depth trace ≡ length frames - skip)
      × (backtrace_depth trace ≤ max_depth)
      × ((index : ℕ)
          → backtrace_line dladdr demangler trace index ≡ (
              if ltb index (length frames - skip)
              then deref (get_elem? frames (skip + index))
                >>= backtrace_resolve_info dladdr demangler
              else ok none))
unfolding backtrace_depth
backtrace_line-create_depth dladdr demangler frames depth skip h = (
  from_frame frames skip,
  create_depth-from_frame frames depth skip,
  refl,
  omega arith,
  line-from_frame dladdr demangler frames skip,
)
