-- ===== src/Backtrace.antt =====
-- lib/backtrace.c and lib/tinu/backtrace.h: the frames of a call stack and their names. The stack
-- that the C library's `backtrace` reads, what `dladdr` finds and the demangler are arguments.
pub mod Counting
pub mod Frames
pub mod Trace
pub mod Dump
pub mod Lines
use tinu.Prelude.{
  ℕ, zero, suc, ◌+◌, ◌-◌, ◌%◌, ◌^◌, Bool, true, false, Option, none, some, List, [], ◌∷◌, ◌++◌, ℤ,
  negsuc, Str, bytes, length, get_elem?, take, drop, replicate, ltb, leb, ◌==◌, if◌then◌else◌,
  show_int32, Outcome, ok, crash, ◌>>=◌, deref,
}
use tinu.Message.{MessageTag}
use tinu.Message.Values.{msg_tag_hex, msg_tag_ptr, msg_tag_int}
use tinu.Message.Priority.{msg_tag_str}

-- MAX_DEPTH
abbrev pub max_depth : ℕ
max_depth = 4096

pub record BacktraceEntry : Type 0 where
  pub ptr : ℕ
  pub offset : ℕ
  pub function : Str
  pub file : Option Str

pub record Backtrace : Type 0 where
  pub refcnt : ℕ
  pub length_ : ℕ
  pub symbols : List ℕ

-- What `dladdr` fills in.
pub record DlInfo : Type 0 where
  pub fname : Option Str
  pub sname : Option Str
  pub saddr : ℕ

-- A message that is logged, with its tags.
abbrev pub Logged : Type 0
Logged = Str × List MessageTag

-- The tags of the depth and of the frames to skip.
abbrev depth_tags : ℕ → ℕ → List MessageTag
depth_tags depth skip = msg_tag_int (bytes "depth") depth ∷ msg_tag_int (bytes "skip") skip ∷ []

-- `backtrace_create_depth`; `frames` is what `backtrace` stores in the buffer, `none` if it
-- returns -1. With the messages that are logged.
unfoldable pub backtrace_create_depth : Option (List ℕ) → ℕ → ℕ → Option Backtrace × List Logged
backtrace_create_depth frames depth skip =
    let tags = depth_tags depth skip in
    let warned =
      if ltb max_depth depth
      then (bytes "Requested depth exceeded maximum depth", tags) ∷ []
      else [] in
    elim frames [
      | none ↦ (none, warned ++ (bytes "Could not create backtrace object", tags) ∷ [])
      | some buffer ↦
          let nptr = length buffer in
          if leb nptr skip
          then (
            some (record { refcnt = 1; length_ = 0; symbols = [] }),
            warned ++ (bytes "Backtrace empty", tags) ∷ [],
          )
          else (
            some (record {
              refcnt = 1;
              length_ = nptr - skip;
              symbols = take (nptr - skip) (drop skip buffer);
            }),
            warned,
          )
    ]

unfoldable pub backtrace_create : Option (List ℕ) → ℕ → Option Backtrace × List Logged
unfolding backtrace_create_depth
backtrace_create frames skip = backtrace_create_depth frames max_depth skip

-- The object behind a pointer: `none` once it is freed.
unfoldable pub backtrace_reference : Option Backtrace → Outcome (Option Backtrace)
backtrace_reference memory = do
  self ← deref memory
  ok (some (record self { refcnt = (self.refcnt + 1) % 2 ^ 32 }))

-- On a pointer that is not NULL.
unfoldable pub backtrace_unreference : Option Backtrace → Outcome (Option Backtrace)
backtrace_unreference memory = do
  self ← deref memory
  let refcnt = (self.refcnt + (2 ^ 32 - 1)) % 2 ^ 32
  if refcnt == 0 then ok none else ok (some (record self { refcnt = refcnt }))

unfoldable pub backtrace_depth : Backtrace → ℕ
backtrace_depth self = self.length_

-- `dladdr` and `g_demangler`, which may return NULL.
module _ (dladdr : ℕ → Option DlInfo) (demangler : Str → Option Str) where
  -- The name of the symbol, if there is one and it is demangled.
  unfoldable pub function_name : DlInfo → Str
  function_name info = elim info.sname [
    | none ↦ bytes "<unknown>"
    | some sname ↦ elim (demangler sname) [ none ↦ bytes "<unknown>" | some name ↦ name ]
  ]

  -- `_backtrace_resolve_info`: the test of `dladdr` ends in a semicolon, so where it fails the
  -- code goes on with a Dl_info that was never written.
  unfoldable pub backtrace_resolve_info : ℕ → Outcome (Option BacktraceEntry)
  unfolding function_name
  backtrace_resolve_info addr = if addr == 0 then ok none else do
    info ← deref (dladdr addr)
    ok (
        some (record {
          ptr = addr;
          offset = (addr + (2 ^ 64 - info.saddr)) % 2 ^ 64;
          function = function_name info;
          file = info.fname;
        }))

  unfoldable pub backtrace_line : Backtrace → ℕ → Outcome (Option BacktraceEntry)
  unfolding backtrace_resolve_info
  backtrace_line self index =
      if leb self.length_ index
      then ok none
      else do addr ← deref (get_elem? self.symbols index); backtrace_resolve_info addr

  -- The loop of `backtrace_dump` from frame `i`, `n` rounds before its end; an invalid entry is
  -- `none`.
  module _ {W : Type 0} (callback : Option BacktraceEntry → W → W) where
    unfoldable pub dump_frames : ℕ → ℕ → Backtrace → W → Outcome W
    unfolding backtrace_resolve_info
    dump_frames zero i self w = ok w
    dump_frames (suc n) i self w = do
      addr ← deref (get_elem? self.symbols i)
      entry ← backtrace_resolve_info addr
      dump_frames n (suc i) self (callback entry w)

    unfoldable pub backtrace_dump : Backtrace → W → Outcome W
    unfolding dump_frames
    backtrace_dump self w = dump_frames self.length_ 0 self w

  -- The loop of `msg_tag_trace` from frame `i`, `n` rounds before its end.
  unfoldable pub trace_names : ℕ → ℕ → Backtrace → Str → Outcome Str
  unfolding backtrace_resolve_info
  trace_names zero i self str = ok str
  trace_names (suc n) i self str = do
    addr ← deref (get_elem? self.symbols i)
    entry ← backtrace_resolve_info addr
    trace_names n (suc i) self (elim entry [
      | some entry ↦ str ++ (entry.function ++ bytes ", ")
      | none ↦ str ++ bytes "???, "
    ])

  -- `msg_tag_trace`: on an empty string `len - 2` wraps around, and strndup copies up to the end.
  unfoldable pub msg_tag_trace : Str → Backtrace → Outcome MessageTag
  unfolding trace_names
  msg_tag_trace tag trace = do
    str ← trace_names trace.length_ 0 trace []
    ok (record { tag = tag; value = take ((length str + (2 ^ 64 - 2)) % 2 ^ 64) str })
