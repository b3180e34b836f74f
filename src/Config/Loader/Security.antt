-- ===== src/Config/Loader/Security.antt =====
-- What `validate_file_security` lets pass.
use pr_insight.Base.{
  ℕ, zero, suc, ◌≤◌, max, Bool, true, false, not, ◌&&◌, List, [], ◌∷◌, ◌++◌, ◌≡◌, arith, leb, any,
  any-append,
}
use pr_insight.Base.Fail.{Outcome, returned, raised, security_error}
use pr_insight.Base.Text.{Str}
use pr_insight.Config.Loader.{
  Toml, plain, array, table, Fields, no_fields, field, is_forbidden, check_table, check_value,
  validate_file_security,
}

-- The keys of a table and of the tables below it; an array is not looked into.
abbrev mutual
  pub all_keys : Fields → List Str
  all_keys no_fields = []
  all_keys (field key value rest) = key ∷ (value_keys value ++ all_keys rest)

  pub value_keys : Toml → List Str
  value_keys (plain text) = []
  value_keys (array xs) = []
  value_keys (table inner) = all_keys inner

-- How many tables stand in each other, the outermost counted.
abbrev mutual
  pub nesting : Fields → ℕ
  nesting no_fields = 1
  nesting (field key value rest) = max (value_nesting value) (nesting rest)

  pub value_nesting : Toml → ℕ
  value_nesting (plain text) = 1
  value_nesting (array xs) = 1
  value_nesting (table inner) = suc (nesting inner)

some_nesting : (fs : Fields) → 1 ≤ nesting fs
some_nesting no_fields = omega arith
some_nesting (field key value rest) = omega (arith, some_nesting rest)

abbrev pub verdict : Bool → Outcome {0} Unit
verdict true = returned tt
verdict false = raised security_error

mutual
  unfolding check_table

  check_table_lem :
      (n : ℕ) (fs : Fields)
      → check_table (suc n) fs
        ≡ verdict (not (any is_forbidden (all_keys fs)) && leb (nesting fs) (suc n))
  check_table_lem n no_fields = ground arith
  check_table_lem n (field key value rest) = ground (
    arith,
    check_table_lem n rest,
    check_value_lem n value,
    any-append is_forbidden (value_keys value) (all_keys rest),
  )

  check_value_lem :
      (n : ℕ) (v : Toml)
      → check_value (suc n) v
        ≡ verdict (not (any is_forbidden (value_keys v)) && leb (value_nesting v) (suc n))
  check_value_lem n (plain text) = ground arith
  check_value_lem n (array xs) = ground arith
  check_value_lem zero (table inner) = ground (arith, some_nesting inner)
  check_value_lem (suc n) (table inner) = ground (arith, check_table_lem n inner)

-- A configuration passes exactly if no table of it, however deep, has a forbidden key in any case of
-- letters, and at most 50 tables stand in each other. Arrays are not looked into.
pub validate_file_security_lem :
    (fs : Fields)
    → validate_file_security fs
      ≡ verdict (not (any is_forbidden (all_keys fs)) && leb (nesting fs) 50)
unfolding validate_file_security
validate_file_security_lem fs = check_table_lem 49 fs
