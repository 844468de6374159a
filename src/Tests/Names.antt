-- ===== src/Tests/Names.antt =====
-- lib/names.c at a small table.
use tinu.Prelude.{◌≡◌, refl, [], ◌∷◌, pos, negsuc, bytes, inr, arith, strn_eq}
use tinu.Names.{NameTable, tinu_lookup_name}
use tinu.Names.Lookup.{find_name, lookup_name-find_name}

abbrev table : NameTable
table =
    record { key = pos 1; name = bytes "passed"; len = pos 6 }
    ∷ record { key = pos 2; name = bytes "failed"; len = pos 6 }
    ∷ []

-- An entry without a length is found by a prefix of its name.
unmeasured_prefix :
    tinu_lookup_name
      (record { key = pos 3; name = bytes "segfault"; len = negsuc 0 } ∷ [])
      (bytes "seg")
      (negsuc 0)
      (negsuc 0)
    ≡ pos 3
unfolding tinu_lookup_name strn_eq
unmeasured_prefix = refl

lookup_name-find_name_example :
    tinu_lookup_name table (bytes "failed") (negsuc 0) (negsuc 0)
    ≡ find_name table (bytes "failed") (negsuc 0)
lookup_name-find_name_example =
    lookup_name-find_name table (bytes "failed") (negsuc 0) (negsuc 0) (ground arith) (inr refl)
