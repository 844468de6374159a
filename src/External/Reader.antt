-- ===== src/External/Reader.antt =====
-- A reader of report files, in which a newline ends an entry only behind its `=`. It is no model of
-- a script of the repository.
use tinu.Prelude.{
  ℕ, ◌≡◌, refl, ap, ◌∙◌, Bool, true, false, ◌||◌, List, [], ◌∷◌, ◌++◌, Str, bytes, map, All, ◌==◌,
  if◌then◌else◌, arith,
}
use mathlib.Core.List.{append_assoc, append-nil}
use tinu.Suites.{test_validate_name}
use tinu.External.Replace.{join}
use tinu.External.Entries.{Entry, render, render_all}

-- The state of a reader: whether it is behind the `=`, the path and the name or value so far, and
-- the entries that are complete.
pub record Reader : Type 0 where
  pub in_value : Bool
  pub path : List Str
  pub current : Str
  pub entries : List (List Str × Str)

unfoldable pub step : Reader → ℕ → Reader
step r c =
    if r.in_value
    then if c == b'\n'
      then record {
        in_value = false;
        path = [];
        current = [];
        entries = r.entries ++ (r.path, r.current) ∷ [];
      }
      else record r { current = r.current ++ c ∷ [] }
    else if c == b'.' || c == b'='
    then record r { in_value = c == b'='; path = r.path ++ r.current ∷ []; current = [] }
    else record r { current = r.current ++ c ∷ [] }

unfoldable pub run : Reader → Str → Reader
unfolding step
run r [] = r
run r (c ∷ s) = run (step r c) s

abbrev pub naming : List Str → Str → List (List Str × Str) → Reader
naming path current entries = record {
  in_value = false;
  path = path;
  current = current;
  entries = entries;
}

abbrev valuing : List Str → Str → List (List Str × Str) → Reader
valuing path current entries = record {
  in_value = true;
  path = path;
  current = current;
  entries = entries;
}

unfoldable pub read : Str → List (List Str × Str)
unfolding run
read s = (run (naming [] [] []) s).entries

unfoldable pub one_line : Str → Bool
one_line [] = true
one_line (c ∷ s) = if c == b'\n' then false else one_line s

abbrev pub IsOneLine : Str → Type 0
IsOneLine s = one_line s ≡ true

-- A name between the dots of a path is one that a context takes.
abbrev pub IsName : Str → Type 0
IsName s = test_validate_name s ≡ true

IsName-cons : (c : ℕ) (s : Str) → IsName (c ∷ s) → ((c == b'.' || c == b'=') ≡ false) × IsName s
unfolding test_validate_name
IsName-cons c s h = ground arith

pub IsOneLine-cons : (c : ℕ) (s : Str) → IsOneLine (c ∷ s) → ((c == b'\n') ≡ false) × IsOneLine s
unfolding one_line
IsOneLine-cons c s h = ground arith

abbrev pub IsReadable : Entry → Type 0
IsReadable e = IsName e.head × All IsName e.tail × IsOneLine e.value

step_name :
    (c : ℕ) (path : List Str) (current : Str) (out : List (List Str × Str))
    → (c == b'.' || c == b'=') ≡ false
    → step (naming path current out) c ≡ naming path (current ++ c ∷ []) out
unfolding step
step_name c path current out other = rw other

step_value :
    (c : ℕ) (path : List Str) (current : Str) (out : List (List Str × Str))
    → (c == b'\n') ≡ false
    → step (valuing path current out) c ≡ valuing path (current ++ c ∷ []) out
unfolding step
step_value c path current out other = rw other

run_dot :
    (rest : Str) (path : List Str) (current : Str) (out : List (List Str × Str))
    → run (naming path current out) (b'.' ∷ rest) ≡ run (naming (path ++ current ∷ []) [] out) rest
unfolding run
run_dot rest path current out = refl

run_newline :
    (rest : Str) (path : List Str) (current : Str) (out : List (List Str × Str))
    → run (valuing path current out) (b'\n' ∷ rest)
      ≡ run (naming [] [] (out ++ (path, current) ∷ [])) rest
unfolding run
run_newline rest path current out = refl

run-name :
    (name rest : Str) (path : List Str) (current : Str) (out : List (List Str × Str))
    → IsName name
    → run (naming path current out) (name ++ rest) ≡ run (naming path (current ++ name) out) rest
unfolding run step
run-name [] rest path current out h = rw append-nil
run-name (c ∷ name) rest path current out h =
    let (other, h') = IsName-cons c name h in
    ap (λ r. run r (name ++ rest)) (step_name c path current out other)
    ∙ (run-name name rest path (current ++ c ∷ []) out h'
        ∙ ap (λ s. run (naming path s out) rest) (append_assoc current (c ∷ []) name))

run-value :
    (value rest : Str) (path : List Str) (current : Str) (out : List (List Str × Str))
    → IsOneLine value
    → run (valuing path current out) (value ++ rest)
      ≡ run (valuing path (current ++ value) out) rest
unfolding run step
run-value [] rest path current out h = rw append-nil
run-value (c ∷ value) rest path current out h =
    let (other, h') = IsOneLine-cons c value h in
    ap (λ r. run r (value ++ rest)) (step_value c path current out other)
    ∙ (run-value value rest path (current ++ c ∷ []) out h'
        ∙ ap (λ s. run (valuing path s out) rest) (append_assoc current (c ∷ []) value))

run-join :
    (h : Str) (t : List Str) (rest : Str) (path : List Str) (out : List (List Str × Str))
    → IsName h
    → All IsName t
    → run (naming path [] out) (join (bytes ".") h t ++ (b'=' ∷ rest))
      ≡ run (valuing (path ++ h ∷ t) [] out) rest
unfolding join
run-join h [] rest path out n ns = run-name h (b'=' ∷ rest) path [] out n ∙ unfold run step in refl
run-join h (k ∷ t) rest path out n ns =
    ap (run (naming path [] out)) (append_assoc h _ _)
    ∙ run-name h _ path [] out n
    ∙ run_dot (join (bytes ".") k t ++ (b'=' ∷ rest)) path h out
    ∙ run-join k t rest (path ++ h ∷ []) out ns.0 ns.1
    ∙ ap (λ p. run (valuing p [] out) rest) (append_assoc path (h ∷ []) (k ∷ t))

abbrev pub as_pair : Entry → List Str × Str
as_pair e = (e.head ∷ e.tail, e.value)

pub run-render_all :
    (es : List Entry) (out : List (List Str × Str))
    → All IsReadable es
    → run (naming [] [] out) (render_all es) ≡ naming [] [] (out ++ map as_pair es)
unfolding render_all render
run-render_all [] out h = unfold run in rw append-nil
run-render_all (e ∷ es) out h =
    let path = join (bytes ".") e.head e.tail in
    let start = run (naming [] [] out) in
    ap start (append_assoc path (b'=' ∷ (e.value ++ b'\n' ∷ [])) (render_all es))
    ∙ run-join e.head e.tail ((e.value ++ b'\n' ∷ []) ++ render_all es) [] out h.0.0 h.0.1
    ∙ ap (run (valuing (e.head ∷ e.tail) [] out))
        (append_assoc e.value (b'\n' ∷ []) (render_all es))
    ∙ run-value e.value (b'\n' ∷ render_all es) (e.head ∷ e.tail) [] out h.0.2
    ∙ run_newline (render_all es) (e.head ∷ e.tail) e.value out
    ∙ run-render_all es (out ++ as_pair e ∷ []) h.1
    ∙ ap (naming [] []) (append_assoc out (as_pair e ∷ []) (map as_pair es))
