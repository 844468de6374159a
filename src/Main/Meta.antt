-- ===== src/Main/Meta.antt =====
-- What lib/meta.c registers.
use tinu.Prelude.{
  ◌≡◌, refl, ap, ◌∙◌, true, ◌&&◌, Option, none, some, List, [], ◌∷◌, Str, str_eq, All,
  if◌then◌else◌, ok, bind_cong, ◌>>=◌,
}
use mathlib.Core.Option
use tinu.Suites.{Suites, TestFunctions, test_validate_name}
use tinu.Suites.Finding.{test_add_extended-find_case, find_case, functions}
use tinu.Main.{TinuMetaInfo, tinu_test_add_extended, tinu_use_metainfo}

-- The suites of a context that may not be made yet.
abbrev pub suites_of : Option Suites → Suites
suites_of none = []
suites_of (some suites) = suites

-- The functions that the last entry for the test gives, if there is one.
unfoldable pub latest : List TinuMetaInfo → Str → Str → Option TestFunctions → Option TestFunctions
latest [] s t found = found
latest (info ∷ metainfo) s t found =
    latest metainfo s t
      (if str_eq info.suite s && str_eq info.test t then some info.functions else found)

-- Both names of an entry are valid.
abbrev pub ValidInfo : TinuMetaInfo → Type 0
ValidInfo info = (test_validate_name info.suite ≡ true) × (test_validate_name info.test ≡ true)

abbrev found_in : Option Suites → Str → Str → Option TestFunctions
found_in context s t = Option.map functions (find_case (suites_of context) s t)

add_extended-found_in :
    (context : Option Suites) (info : TinuMetaInfo)
    → ValidInfo info
    → (context' : Option Suites) × (tinu_test_add_extended context info.suite info.test
          info.functions 0 0
        ≡ ok context')
      × ((s t : Str)
          → found_in context' s t ≡ (
              if str_eq info.suite s && str_eq info.test t
              then some info.functions
              else found_in context s t))
unfolding tinu_test_add_extended
add_extended-found_in none info valid =
    let (suites', added, found) =
      test_add_extended-find_case [] info.suite info.test info.functions 0 0 valid.0 valid.1 in
    (some suites', ap (λ m. m >>= λ s. ok (some s)) added, found)
add_extended-found_in (some suites) info valid =
    let (suites', added, found) =
      test_add_extended-find_case suites info.suite info.test info.functions 0 0 valid.0 valid.1 in
    (some suites', ap (λ m. m >>= λ s. ok (some s)) added, found)

-- Registering a list of entries with valid names succeeds, whether the context was made before or
-- not, and afterwards every test is found with the functions of its last entry; a test without an
-- entry is found with those it had.
pub use_metainfo-latest :
    (metainfo : List TinuMetaInfo) (context : Option Suites)
    → All ValidInfo metainfo
    → (context' : Option Suites) × (tinu_use_metainfo metainfo context ≡ ok context')
      × ((s t : Str)
          → Option.map functions (find_case (suites_of context') s t)
            ≡ latest metainfo s t (Option.map functions (find_case (suites_of context) s t)))
unfolding tinu_use_metainfo latest
use_metainfo-latest [] context valid = (context, refl, λ s t. refl)
use_metainfo-latest (info ∷ metainfo) context valid =
    let (context', added, found) = add_extended-found_in context info valid.0 in
    let (context'', used, found') = use_metainfo-latest metainfo context' valid.1 in
    (
      context'',
      bind_cong added (λ c. refl) ∙ used,
      λ s t. found' s t ∙ ap (latest metainfo s t) (found s t),
    )
