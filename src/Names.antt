-- ===== src/Names.antt =====
-- lib/names.c and lib/tinu/names.h: tables of named keys.
pub mod Lookup
use tinu.Prelude.{
  ℕ, ◌≡◌, Bool, true, false, ◌&&◌, ◌||◌, not, Option, none, some, List, [], ◌∷◌, ℤ, pos, negsuc,
  int_eq, Str, strn_eq, length, ◌==◌, if◌then◌else◌,
}

pub record NameEntry : Type 0 where
  pub key : ℤ
  pub name : Str
  pub len : ℤ

-- The entry with a `NULL` name that ends a table is the end of the list.
abbrev pub NameTable : Type 0
NameTable = List NameEntry

-- An entry with its length.
abbrev pub entry : ℤ → Str → ℕ → NameEntry
entry k n l = record { key = k; name = n; len = pos l }

-- A length that is negative is not given: the string is measured.
unfoldable pub effective_length : ℤ → Str → ℕ
effective_length (pos n) s = n
effective_length (negsuc n) s = length s

-- The name and the length stored through `length`; `none` is the pointer -1.
unfoldable pub tinu_lookup_key : NameTable → ℤ → Option (Str × ℕ)
unfolding effective_length
tinu_lookup_key [] key = none
tinu_lookup_key (e ∷ table) key =
    if int_eq e.key key
    then some (e.name, effective_length e.len e.name)
    else tinu_lookup_key table key

-- `m_length >= 0 && m_length != rlen`
unfoldable pub length_differs : ℤ → ℕ → Bool
length_differs (pos n) rlen = not (n == rlen)
length_differs (negsuc n) rlen = false

-- The loop of `tinu_lookup_name`.
unfoldable pub lookup_name_from : NameTable → Str → ℕ → ℤ → ℤ
unfolding length_differs
lookup_name_from [] name rlen errkey = errkey
lookup_name_from (e ∷ table) name rlen errkey =
    if not (length_differs e.len rlen) && strn_eq rlen e.name name
    then e.key
    else lookup_name_from table name rlen errkey

unfoldable pub tinu_lookup_name : NameTable → Str → ℤ → ℤ → ℤ
unfolding lookup_name_from effective_length
tinu_lookup_name table name len errkey =
    lookup_name_from table name (effective_length len name) errkey
