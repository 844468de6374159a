-- ===== src/Utils.antt =====
-- lib/utils.c and lib/tinu/utils.h: the allocation helpers and the names of core files. What the
-- allocator grants is an argument; a byte of a block that was never written is `none`.
use tinu.Prelude.{
  ℕ, zero, suc, ◌+◌, ◌*◌, ◌/◌, ◌%◌, ◌^◌, ◌≤◌, ◌<◌, ◌≡◌, refl, ap, ap₂, sym, ◌∙◌, Bool, true,
  Bool-cases, inl, inr, Option, none, some, List, [], ◌∷◌, ◌++◌, replicate, length, take, Str,
  bytes, str_eq, str_eq_iff, ◌&&◌, ltb, ◌==◌, if◌then◌else◌, arith, Outcome, ok, ◌>>◌, assert_that,
}
use mathlib.Core.List.{append_cancel_left}
use tinu.Message.{resize}
use tinu.Suites.{test_validate_name}

abbrev pub Block : Type 0
Block = List (Option ℕ)

module _ (grants : ℕ → Bool) where
  -- `__allocate`: a failed `t_raw_assert` ends the program.
  unfoldable pub allocate : ℕ → Outcome Block
  allocate size = do
    assert_that (ltb 0 size)
    assert_that (grants size)
    ok (replicate size (some 0))

  -- `t_new`: the size of the type times the count, in 64 bits.
  unfoldable pub t_new : ℕ → ℕ → Outcome Block
  unfolding allocate
  t_new size count = allocate ((size * count) % 2 ^ 64)

  -- `__free`; what is left is NULL.
  unfoldable pub free : Option Block → Option Block
  free ptr = none

  -- `__reallocate` on a block or on NULL.
  unfoldable pub reallocate : Option Block → ℕ → Outcome (Option Block)
  unfolding free resize
  reallocate ptr size = if size == 0 then ok (free ptr) else (do
    assert_that (grants size)
    ok (some (resize size (elim ptr [ none ↦ [] | some block ↦ block ]))))

  -- `t_realloc`
  unfoldable pub t_realloc : Option Block → ℕ → ℕ → Outcome (Option Block)
  unfolding reallocate
  t_realloc ptr size count = reallocate ptr ((size * count) % 2 ^ 64)

-- `_align`, for pages of `pg` bytes.
unfoldable pub align : ℕ → ℕ → ℕ
align pg size = ((size / pg + 1) * pg) % 2 ^ 64

-- The text of `core_file_name` before snprintf cuts it.
abbrev pub core_path : Str → Str → Str → Str
core_path dir suite test = dir ++ (bytes "/core." ++ (suite ++ (b'.' ∷ test)))

-- `core_file_name`: the buffer has 1024 bytes.
unfoldable pub core_file_name : Str → Str → Str → Str
core_file_name dir suite test = take 1023 (core_path dir suite test)

take-all : {A : Type 0} (n : ℕ) (xs : List A) → length xs ≤ n → take n xs ≡ xs
take-all zero [] h = refl
take-all (suc n) [] h = refl
take-all zero (x ∷ xs) h = absurd (omega arith)
take-all (suc n) (x ∷ xs) h = ap (◌∷◌ x) (take-all n xs (omega arith))

cons_first : {c d : ℕ} {s t : Str} → c ∷ s ≡ d ∷ t → c ≡ d
cons_first e = cc

cons_rest : {c d : ℕ} {s t : Str} → c ∷ s ≡ d ∷ t → s ≡ t
cons_rest e = cc

valid_rest : (c : ℕ) (s : Str) → test_validate_name (c ∷ s) ≡ true → test_validate_name s ≡ true
unfolding test_validate_name
valid_rest c s h = ground arith

-- The first `.` ends the name of the suite.
same_names :
    (suite suite' test test' : Str)
    → test_validate_name suite ≡ true
    → test_validate_name suite' ≡ true
    → suite ++ (b'.' ∷ test) ≡ suite' ++ (b'.' ∷ test')
    → (suite ≡ suite') × (test ≡ test')
unfolding test_validate_name
same_names [] [] test test' h h' e = (refl, cons_rest e)
same_names [] (c ∷ suite') test test' h h' e = ground (arith, cons_first e)
same_names (c ∷ suite) [] test test' h h' e = ground (arith, cons_first e)
same_names (c ∷ suite) (d ∷ suite') test test' h h' e =
    let (s, t) =
      same_names suite suite' test test' (valid_rest c suite h) (valid_rest d suite' h')
        (cons_rest e) in
    (ap₂ ◌∷◌ (cons_first e) s, t)

injective :
    (dir suite suite' test test' : Str)
    → test_validate_name suite ≡ true
    → test_validate_name suite' ≡ true
    → length (core_path dir suite test) < 1024
    → length (core_path dir suite' test') < 1024
    → core_file_name dir suite test ≡ core_file_name dir suite' test'
    → (suite ≡ suite') × (test ≡ test')
unfolding core_file_name
injective dir suite suite' test test' valid valid' short short' e =
    same_names suite suite' test test' valid valid' (
      append_cancel_left (bytes "/core.") _ _ (
        append_cancel_left dir _ _ (
          sym (take-all 1023 (core_path dir suite test) (omega arith))
          ∙ e
          ∙ take-all 1023 (core_path dir suite' test') (omega arith))))

agreeing :
    (p q s t s' t' : Str)
    → (p ≡ q → (s ≡ s') × (t ≡ t'))
    → (s ≡ s' → t ≡ t' → p ≡ q)
    → str_eq p q ≡ (str_eq s s' && str_eq t t')
agreeing p q s t s' t' there back = elim (Bool-cases (str_eq p q)) [
  | inl same ↦
      let (e, f) = there ((str_eq_iff p q).0 same) in
      same ∙ sym (rw ((str_eq_iff s s').1 e, (str_eq_iff t t').1 f) refl)
  | inr other ↦ elim (Bool-cases (str_eq s s')) [
    | inr miss ↦ other ∙ sym (rw miss refl)
    | inl hit ↦ elim (Bool-cases (str_eq t t')) [
      | inr miss ↦ other ∙ sym (rw (hit, miss) refl)
      | inl hit' ↦
          let same =
            (str_eq_iff p q).1 (back ((str_eq_iff s s').0 hit) ((str_eq_iff t t').0 hit')) in
          cc
    ]
  ]
]

-- Two tests dump their cores into the same file exactly if their suites and they have the same
-- names. This holds for names of suites that a context takes, and paths that fit the buffer.
pub str_eq-core_file_name :
    (dir suite suite' test test' : Str)
    → test_validate_name suite ≡ true
    → test_validate_name suite' ≡ true
    → length (core_path dir suite test) < 1024
    → length (core_path dir suite' test') < 1024
    → str_eq (core_file_name dir suite test) (core_file_name dir suite' test')
      ≡ (str_eq suite suite' && str_eq test test')
str_eq-core_file_name dir suite suite' test test' valid valid' short short' =
    agreeing (core_file_name dir suite test) (core_file_name dir suite' test') suite test suite'
      test' (injective dir suite suite' test test' valid valid' short short')
      (λ e f. ap₂ (core_file_name dir) e f)

-- `t_new` gives a block of the size of the type times the count, all zero, if this is positive, is
-- granted and fits 64 bits.
pub t_new-block :
    (grants : ℕ → Bool) (size count : ℕ)
    → 0 < size * count
    → size * count < 2 ^ 64
    → grants (size * count) ≡ true
    → t_new grants size count ≡ ok (replicate (size * count) (some 0))
unfolding t_new allocate
t_new-block grants size count positive fits granted =
    let whole : (size * count) % 2 ^ 64 ≡ size * count = omega arith in
    let more : ltb 0 (size * count) ≡ true = ground arith in rw (whole, more, granted) refl
