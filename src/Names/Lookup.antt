-- ===== src/Names/Lookup.antt =====
-- Lookups in a name table against a plain search by name and by key.
use tinu.Prelude.{
  ℕ, ◌≡◌, refl, ◌≢◌, false, ◌⊎◌, inl, inr, some, [], ◌∷◌, ℤ, pos, negsuc, int_eq, int_eq_iff, Str,
  str_eq, str_eq_iff, strn_eq-str_eq, str_eq_refl, length, sym, ◌∙◌, All, if◌then◌else◌, arith,
  Bool-cases, ap,
}
use tinu.Names.{
  NameTable, effective_length, length_differs, tinu_lookup_key, lookup_name_from, tinu_lookup_name,
}

-- Every entry states the length of its name.
abbrev pub IsMeasured : NameTable → Type 0
IsMeasured = All (λ e. e.len ≡ pos (length e.name))

-- No later entry has the name of an earlier one.
abbrev pub HasDistinctNames : NameTable → Type 0
HasDistinctNames [] = Unit
HasDistinctNames (e ∷ t) = All (λ f. f.name ≢ e.name) t × HasDistinctNames t

-- No later entry has the key of an earlier one.
abbrev pub HasDistinctKeys : NameTable → Type 0
HasDistinctKeys [] = Unit
HasDistinctKeys (e ∷ t) = All (λ f. f.key ≢ e.key) t × HasDistinctKeys t

-- The key of the first entry that has exactly the name.
unfoldable pub find_name : NameTable → Str → ℤ → ℤ
find_name [] name errkey = errkey
find_name (e ∷ t) name errkey = if str_eq e.name name then e.key else find_name t name errkey

str_ne_of_length : (a b : Str) → length a ≢ length b → str_eq a b ≡ false
str_ne_of_length a b h = elim (Bool-cases (str_eq a b)) [
  | inl e ↦ absurd (h (ap length ((str_eq_iff a b).0 e)))
  | inr e ↦ e
]

lookup_name_from-find_name :
    (t : NameTable) (name : Str) (errkey : ℤ)
    → IsMeasured t
    → lookup_name_from t name (length name) errkey ≡ find_name t name errkey
unfolding lookup_name_from find_name length_differs
lookup_name_from-find_name [] name errkey m = refl
lookup_name_from-find_name (e ∷ t) name errkey m = rw m.0 (
    ground (
      arith,
      lookup_name_from-find_name t name errkey m.1,
      str_ne_of_length e.name name,
      strn_eq-str_eq (length name) e.name name,
    ))

-- In a table whose entries state their lengths, `tinu_lookup_name` finds the key of the first
-- entry with exactly the given name, and `errkey` if there is none; the length may be left to
-- the function or given.
pub lookup_name-find_name :
    (t : NameTable) (name : Str) (len errkey : ℤ)
    → IsMeasured t
    → (len ≡ pos (length name)) ⊎ (len ≡ negsuc 0)
    → tinu_lookup_name t name len errkey ≡ find_name t name errkey
unfolding tinu_lookup_name
lookup_name-find_name t name len errkey m (inl e) =
    rw e (lookup_name_from-find_name t name errkey m)
lookup_name-find_name t name len errkey m (inr e) =
    rw e (lookup_name_from-find_name t name errkey m)

find_name_fresh :
    (t : NameTable) (name : Str) (errkey : ℤ)
    → All (λ f. f.name ≢ name) t
    → find_name t name errkey ≡ errkey
unfolding find_name
find_name_fresh [] name errkey h = refl
find_name_fresh (e ∷ t) name errkey h =
    ground (arith, h.0, str_eq_iff e.name name, find_name_fresh t name errkey h.1)

lookup_key_name_fresh :
    (t : NameTable) (key : ℤ) {n name : Str} {l : ℕ}
    → All (λ f. f.name ≢ name) t
    → tinu_lookup_key t key ≡ some (n, l)
    → n ≢ name
unfolding tinu_lookup_key
lookup_key_name_fresh [] key h e = cc
lookup_key_name_fresh (f ∷ t) key {l} h e = λ q. elim (Bool-cases (int_eq f.key key)) [
  | inl here ↦ h.0 (ground arith)
  | inr there ↦ lookup_key_name_fresh t key {l = l} h.1 (ground arith) q
]

lookup_key-find_name :
    (t : NameTable) (key errkey : ℤ) {name : Str} {l : ℕ}
    → IsMeasured t
    → HasDistinctNames t
    → tinu_lookup_key t key ≡ some (name, l)
    → (find_name t name errkey ≡ key) × (l ≡ length name)
unfolding tinu_lookup_key find_name effective_length
lookup_key-find_name [] key errkey m d e = cc
lookup_key-find_name (f ∷ t) key errkey {name} {l} m d e = elim (Bool-cases (int_eq f.key key)) [
  | inl here ↦ ground (arith, int_eq_iff f.key key, str_eq_refl name, m.0)
  | inr there ↦ ground (
    arith,
    str_eq_iff f.name name,
    lookup_key_name_fresh t key {n = name} {name = f.name} {l = l} d.0,
    lookup_key-find_name t key errkey {name = name} {l = l} m.1 d.1,
  )
]

-- In a table whose entries state their lengths and whose names differ, the name that
-- `tinu_lookup_key` gives for a key, with its length, leads `tinu_lookup_name` back to the key.
pub lookup_name-lookup_key :
    (t : NameTable) (key errkey : ℤ) {name : Str} {l : ℕ}
    → IsMeasured t
    → HasDistinctNames t
    → tinu_lookup_key t key ≡ some (name, l)
    → (tinu_lookup_name t name (negsuc 0) errkey ≡ key)
      × (tinu_lookup_name t name (pos l) errkey ≡ key)
lookup_name-lookup_key t key errkey {name} {l} m d e =
    let (back, measured) = lookup_key-find_name t key errkey m d e in
    (
      lookup_name-find_name t name (negsuc 0) errkey m (inr refl) ∙ back,
      lookup_name-find_name t name (pos l) errkey m (inl (ap pos measured)) ∙ back,
    )

find_name_key_fresh :
    (t : NameTable) (name : Str) (errkey key : ℤ)
    → All (λ f. f.key ≢ key) t
    → key ≢ errkey
    → find_name t name errkey ≢ key
unfolding find_name
find_name_key_fresh [] name errkey key h ne = λ e. ne (sym e)
find_name_key_fresh (f ∷ t) name errkey key h ne =
    ground (arith, h.0, find_name_key_fresh t name errkey key h.1 ne)

lookup_key_of_find_name :
    (t : NameTable) (name : Str) (errkey key : ℤ)
    → IsMeasured t
    → HasDistinctKeys t
    → key ≢ errkey
    → find_name t name errkey ≡ key
    → tinu_lookup_key t key ≡ some (name, length name)
unfolding tinu_lookup_key find_name effective_length
lookup_key_of_find_name [] name errkey key m d ne e = absurd (ne (sym e))
lookup_key_of_find_name (f ∷ t) name errkey key m d ne e = elim (Bool-cases (str_eq f.name name)) [
  | inl here ↦ ground (arith, int_eq_iff f.key key, str_eq_iff f.name name, m.0)
  | inr there ↦ ground (
    arith,
    int_eq_iff f.key key,
    find_name_key_fresh t name errkey f.key d.0,
    lookup_key_of_find_name t name errkey key m.1 d.1 ne,
  )
]

-- In a table whose entries state their lengths and whose keys differ, a key that
-- `tinu_lookup_name` finds for a name, other than the error key, has that name and its length.
pub lookup_key-lookup_name :
    (t : NameTable) (name : Str) (errkey key : ℤ)
    → IsMeasured t
    → HasDistinctKeys t
    → key ≢ errkey
    → tinu_lookup_name t name (negsuc 0) errkey ≡ key
    → tinu_lookup_key t key ≡ some (name, length name)
lookup_key-lookup_name t name errkey key m d ne e =
    lookup_key_of_find_name t name errkey key m d ne
      (sym (lookup_name-find_name t name (negsuc 0) errkey m (inr refl)) ∙ e)
