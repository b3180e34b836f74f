-- ===== src/Config/Loader.antt =====
-- The loader of the configuration files: `load` and `validate_file_security` of
-- pr_insight/custom_merge_loader.py. The file system and the TOML parser are not modelled: a
-- settings file is what they give for it.
pub mod Security
pub mod Merge
use pr_insight.Base.{
  ℕ, zero, suc, ◌<◌, String, Bool, true, false, not, Option, none, some, List, [], ◌∷◌, ◌≡◌, refl,
  arith, map, ltb, if◌then◌else◌,
}
use pr_insight.Base.Fail.{Outcome, returned, raised, and_then, Exception, security_error}
use pr_insight.Base.Text.{Str, codes, elem, lower, str_eq}
use pr_insight.Base.Dict.{Dict, lookup, insert, has_key}

-- What the TOML parser gives: a table, an array of values, or another value as text.
mutual
  pub data Toml : Type 0 where
    plain : Str → Toml
    array : Items → Toml
    table : Fields → Toml

  pub data Items : Type 0 where
    no_items : Items
    item : Toml → Items → Items

  pub data Fields : Type 0 where
    no_fields : Fields
    field : Str → Toml → Fields → Fields

-- the keys of `forbidden_keys_to_reasons`
abbrev pub forbidden_keys : List Str
forbidden_keys = map codes (
    "dynaconf_include" ∷ "dynaconf_includes" ∷ "includes" ∷ "preload" ∷ "preload_for_dynaconf"
    ∷ "preloads" ∷ "dynaconf_merge" ∷ "dynaconf_merge_enabled" ∷ "merge_enabled"
    ∷ "loaders_for_dynaconf" ∷ "loaders" ∷ "core_loaders" ∷ "core_loaders_for_dynaconf"
    ∷ "settings_module" ∷ "settings_file_for_dynaconf" ∷ "settings_files_for_dynaconf"
    ∷ "envvar_prefix" ∷ "envvar_prefix_for_dynaconf" ∷ [])

unfoldable pub is_forbidden : Str → Bool
unfolding elem str_eq
is_forbidden key = elem (lower key) forbidden_keys

-- `check_dict`: `check_table` is its body at a depth above 0, `check_value` the call for a value
unfoldable mutual
  unfolding is_forbidden

  pub check_table : ℕ → Fields → Outcome {0} Unit
  check_table depth no_fields = returned tt
  check_table depth (field key value rest) =
      let below = check_value depth value in
      let after = check_table depth rest in
      if is_forbidden key then raised security_error else and_then below (λ u. after)

  pub check_value : ℕ → Toml → Outcome {0} Unit
  check_value depth (plain text) = returned tt
  check_value depth (array items) = returned tt
  check_value zero (table inner) = raised security_error
  check_value (suc zero) (table inner) = raised security_error
  check_value (suc (suc depth)) (table inner) = check_table (suc depth) inner

-- `validate_file_security`, for MAX_DEPTH = 50
unfoldable pub validate_file_security : Fields → Outcome {0} Unit
unfolding check_table
validate_file_security fields = check_table 50 fields

-- `accumulated_data`
abbrev pub Sections : Type 0
Sections = Dict (Dict Toml)

abbrev pub section_of : Option (Dict Toml) → Dict Toml
section_of none = []
section_of (some d) = d

-- `accumulated_data[section_name][field] = field_value`, with the section made if it is missing
unfoldable pub set_field : Str → Str → Toml → Sections → Sections
unfolding lookup insert
set_field section name value acc =
    insert section (insert name value (section_of (lookup section acc))) acc

-- the loop over the fields of a section
unfoldable pub merge_section : Str → Fields → Sections → Sections
unfolding set_field
merge_section section no_fields acc = acc
merge_section section (field name value rest) acc =
    merge_section section rest (set_field section name value acc)

abbrev pub merge_value : Str → Toml → Sections → Sections
merge_value section (table inner) acc = merge_section section inner acc
merge_value section _ acc = acc

-- the loop over the sections of a file
unfoldable pub merge_file : Fields → Sections → Sections
unfolding merge_section
merge_file no_fields acc = acc
merge_file (field section value rest) acc = merge_file rest (merge_value section value acc)

-- A settings file as the file system and the TOML parser give it: the extension of its path, whether
-- it exists, its size and what the parser returns or raises.
pub record SettingsFile : Type 0 where
  pub suffix : Str
  pub exists : Bool
  pub size : ℕ
  pub parsed : Outcome Toml

-- `validate_file_security(file_data)` and the merge, of a root that is a table
abbrev pub load_root : Toml → Sections → Outcome Sections
load_root (table inner) acc =
    and_then (validate_file_security inner) (λ u. returned (merge_file inner acc))
load_root _ acc = returned acc

-- the body of the `try` for one file, with MAX_TOML_SIZE_IN_BYTES written out
unfoldable pub load_file : SettingsFile → Sections → Outcome Sections
unfolding validate_file_security merge_file str_eq
load_file file acc =
    if not (str_eq (lower file.suffix) (codes ".toml"))
    then returned acc
    else if not file.exists
    then returned acc
    else if ltb 104857600 file.size
    then returned acc
    else and_then file.parsed (λ root. load_root root acc)

abbrev pub after_file :
    Bool → Outcome Sections → Sections → (Sections → Outcome Sections) → Outcome Sections
after_file silent (returned merged) acc next = next merged
after_file true (raised e) acc next = next acc
after_file false (raised e) acc next = raised e

-- the loop over the files
unfoldable pub load_files : Bool → List SettingsFile → Sections → Outcome Sections
unfolding load_file
load_files silent [] acc = returned acc
load_files silent (file ∷ files) acc =
    after_file silent (load_file file acc) acc (load_files silent files)

-- `key is None or key == k`
abbrev pub wanted : Option Str → Str → Bool
wanted none k = true
wanted (some key) k = str_eq key k

-- S is the settings object and `set` its method, which is not part of the code and may raise.
module _ {S : Type 0} (set : Str → Dict Toml → S → Outcome S) where
  -- the loop over `accumulated_data`, outside of the `try`
  unfoldable pub update_settings : Option Str → Sections → S → Outcome S
  update_settings key [] s = returned s
  update_settings key ((k, d) ∷ acc) s =
      and_then (if wanted key k then set k d s else returned s) (update_settings key acc)

  -- `load`: the flags say whether the object has `includes` and `preload` set
  unfoldable pub load : Bool → Bool → Bool → Option Str → List SettingsFile → S → Outcome S
  unfolding load_files update_settings
  load silent includes preload key [] s = returned s
  load silent includes preload key (file ∷ files) s =
      if includes
      then (if silent then returned s else raised security_error)
      else if preload
      then (if silent then returned s else raised security_error)
      else and_then (load_files silent (file ∷ files) []) (λ acc. update_settings key acc s)
