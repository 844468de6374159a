-- ===== src/Standard/Agreeing.antt =====
-- When what is printed with escape sequences shows what is printed without them.
use tinu.Prelude.{
  ℕ, ◌≡◌, refl, true, List, [], ◌∷◌, ◌++◌, Str, show_int32, pad_right, pad_left, Outcome, ok, abort,
  crash, ◌>>=◌,
}
use tinu.Standard.Printing.{
  Piece, text, number, string, left_string, right_number, Arg, int, str, vfprintf, report_printf,
  concat_formats,
}
use tinu.Standard.Strip.{
  is_plain, literal, Shows, Shows-plain, Shows-append, IsPlain, show_int32-IsPlain,
  pad_right-IsPlain, pad_left-IsPlain,
}

-- The one outcome shows the other, in the same way or with the same failure.
pub data Agrees : Outcome Str → Outcome Str → Type 0 where
  both_ok : {s t : Str} → Shows s t → Agrees (ok s) (ok t)
  both_abort : Agrees abort abort
  both_crash : Agrees crash crash

pub Agrees-bind :
    {m n : Outcome Str} {f g : Str → Outcome Str}
    → Agrees m n
    → ((s t : Str) → Shows s t → Agrees (f s) (g t))
    → Agrees (m >>= f) (n >>= g)
Agrees-bind (both_ok {s} {t} h) k = k s t h
Agrees-bind both_abort k = both_abort
Agrees-bind both_crash k = both_crash

-- A value that both sides read first.
pub Agrees-same :
    {A : Type 0} (m : Outcome A) {f g : A → Outcome Str}
    → ((a : A) → Agrees (f a) (g a))
    → Agrees (m >>= f) (m >>= g)
Agrees-same (ok a) k = k a
Agrees-same abort k = both_abort
Agrees-same crash k = both_crash

-- The one format with its arguments prints the other, with escape sequences added.
pub data Prints : List Piece → List Arg → List Piece → List Arg → Type 0 where
  done : {a b : List Arg} → Prints [] a [] b
  plain :
      {s : Str} {f g : List Piece} {a b : List Arg}
      → is_plain s ≡ true
      → Prints f a g b
      → Prints (text s ∷ f) a (text s ∷ g) b
  escape :
      {s : Str} {f g : List Piece} {a b : List Arg}
      → Shows s []
      → Prints f a g b
      → Prints (text s ∷ f) a g b
  a_number :
      {n : ℕ} {f g : List Piece} {a b : List Arg}
      → Prints f a g b
      → Prints (number ∷ f) (int n ∷ a) (number ∷ g) (int n ∷ b)
  a_string :
      {s t : Str} {f g : List Piece} {a b : List Arg}
      → Shows s t
      → Prints f a g b
      → Prints (string ∷ f) (str s ∷ a) (string ∷ g) (str t ∷ b)
  a_left :
      {s : Str} {n : ℕ} {f g : List Piece} {a b : List Arg}
      → IsPlain s
      → Prints f a g b
      → Prints (left_string ∷ f) (int n ∷ str s ∷ a) (left_string ∷ g) (int n ∷ str s ∷ b)
  a_right :
      {n m : ℕ} {f g : List Piece} {a b : List Arg}
      → Prints f a g b
      → Prints (right_number ∷ f) (int n ∷ int m ∷ a) (right_number ∷ g) (int n ∷ int m ∷ b)

Agrees-both :
    (s t : Str) {m n : Outcome Str}
    → Shows s t
    → Agrees m n
    → Agrees (m >>= λ rest. ok (s ++ rest)) (n >>= λ rest. ok (t ++ rest))
Agrees-both s t h k = Agrees-bind k (λ r r' e. both_ok (Shows-append s r t r' h e))

Agrees-escape :
    (s : Str) {m n : Outcome Str}
    → Shows s []
    → Agrees m n
    → Agrees (m >>= λ rest. ok (s ++ rest)) n
Agrees-escape s h (both_ok {s = r} {t = r'} k) = both_ok (Shows-append s r [] r' h k)
Agrees-escape s h both_abort = both_abort
Agrees-escape s h both_crash = both_crash

pub vfprintf-Agrees :
    (f g : List Piece) (a b : List Arg) → Prints f a g b → Agrees (vfprintf f a) (vfprintf g b)
unfolding vfprintf
vfprintf-Agrees f g a b done = both_ok (λ rest. refl)
vfprintf-Agrees f0 g0 a0 b0 (plain {s} {f} {g} {a} {b} h p) =
    Agrees-both s s (Shows-plain s (literal s h)) (vfprintf-Agrees f g a b p)
vfprintf-Agrees f0 g0 a0 b0 (escape {s} {f} {g} {a} {b} h p) =
    Agrees-escape s h (vfprintf-Agrees f g a b p)
vfprintf-Agrees f0 g0 a0 b0 (a_number {n} {f} {g} {a} {b} p) =
    let s = show_int32 n in
    Agrees-both s s (Shows-plain s (show_int32-IsPlain n)) (vfprintf-Agrees f g a b p)
vfprintf-Agrees f0 g0 a0 b0 (a_string {s} {t} {f} {g} {a} {b} h p) =
    Agrees-both s t h (vfprintf-Agrees f g a b p)
vfprintf-Agrees f0 g0 a0 b0 (a_left {s} {n} {f} {g} {a} {b} h p) =
    let s' = pad_right n s in
    Agrees-both s' s' (Shows-plain s' (pad_right-IsPlain n s h)) (vfprintf-Agrees f g a b p)
vfprintf-Agrees f0 g0 a0 b0 (a_right {n} {m} {f} {g} {a} {b} p) =
    let s = pad_left n (show_int32 m) in
    Agrees-both s s (Shows-plain s (pad_left-IsPlain n (show_int32 m) (show_int32-IsPlain m)))
      (vfprintf-Agrees f g a b p)

pub report_printf-Agrees :
    (f g : List (List Piece)) (a b : List Arg)
    → Prints (concat_formats f) a (concat_formats g) b
    → Agrees (report_printf f a) (report_printf g b)
unfolding report_printf
report_printf-Agrees f g a b p = vfprintf-Agrees (concat_formats f) (concat_formats g) a b p
