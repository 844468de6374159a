-- ===== src/Standard/Printing.antt =====
-- fprintf with a format that is read as its pieces, and `_report_printf` of lib/report-standard.c.
use tinu.Prelude.{
  ℕ, List, [], ◌∷◌, ◌++◌, Str, show_int32, pad_right, pad_left, Outcome, ok, crash, ◌>>=◌,
}

-- Plain text, `%d`, `%s`, `%-*s` and `%*d`.
pub data Piece : Type 0 where
  text : Str → Piece
  number : Piece
  string : Piece
  left_string : Piece
  right_number : Piece

pub data Arg : Type 0 where
  int : ℕ → Arg
  str : Str → Arg

-- `vfprintf`; an argument that is missing or of another type is undefined in C. Arguments that are
-- left over are ignored.
unfoldable pub vfprintf : List Piece → List Arg → Outcome Str
vfprintf [] args = ok []
vfprintf (text s ∷ format) args = do rest ← vfprintf format args; ok (s ++ rest)
vfprintf (number ∷ format) (int n ∷ args) = do
  rest ← vfprintf format args
  ok (show_int32 n ++ rest)
vfprintf (string ∷ format) (str s ∷ args) = do rest ← vfprintf format args; ok (s ++ rest)
vfprintf (left_string ∷ format) (int n ∷ str s ∷ args) = do
  rest ← vfprintf format args
  ok (pad_right n s ++ rest)
vfprintf (right_number ∷ format) (int n ∷ int m ∷ args) = do
  rest ← vfprintf format args
  ok (pad_left n (show_int32 m) ++ rest)
vfprintf (piece ∷ format) args = crash

-- `_report_vprintf`: the formats up to the NULL are one format.
unfoldable pub concat_formats : List (List Piece) → List Piece
concat_formats [] = []
concat_formats (f ∷ fs) = f ++ concat_formats fs

unfoldable pub report_printf : List (List Piece) → List Arg → Outcome Str
unfolding concat_formats vfprintf
report_printf formats args = vfprintf (concat_formats formats) args
