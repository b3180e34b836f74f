-- ===== src/Config/Loader/Merge.antt =====
-- What the loader makes of several files.
use pr_insight.Base.{
  Bool, true, not, ◌&&◌, Option, none, some, List, [], ◌∷◌, ◌++◌, ◌≡◌, refl, arith, if◌then◌else◌,
  ap, ◌∙◌, sym, if_either, any, ltb, fun_ext, subst,
}
use pr_insight.Base.Fail.{
  Outcome, returned, raised, and_then, security_error, Succeeds, Succeeds-then,
}
use pr_insight.Base.Text.{Str, str_eq, str_eq_iff, codes, lower}
use pr_insight.Base.Dict.{Dict, lookup, insert, lookup-insert}
use pr_insight.Config.Loader.{
  Toml, plain, array, table, Fields, no_fields, field, Sections, section_of, set_field,
  merge_section, merge_file, SettingsFile, load_file, after_file, load_files, update_settings, load,
  wanted, load_root, is_forbidden,
}
use pr_insight.Config.Loader.Security.{all_keys, validate_file_security_lem}

-- the value of a field of a section
abbrev pub get : Str → Str → Sections → Option Toml
get section name acc = lookup name (section_of (lookup section acc))

abbrev pub or_else {ℓ} : {A : Type ℓ} → Option A → Option A → Option A
or_else (some a) b = some a
or_else none b = b

-- the value that a table gives a name last
abbrev pub last_field : Str → Fields → Option Toml
last_field name no_fields = none
last_field name (field k v rest) =
    or_else (last_field name rest) (if str_eq name k then some v else none)

abbrev pub last_field_of : Str → Toml → Option Toml
last_field_of name (table inner) = last_field name inner
last_field_of name _ = none

-- the value that a file gives a field of a section last
abbrev pub defined : Str → Str → Fields → Option Toml
defined section name no_fields = none
defined section name (field k v rest) =
    or_else (defined section name rest) (if str_eq section k then last_field_of name v else none)

get-set_field :
    (section name s n : Str) (v : Toml) (acc : Sections)
    → get section name (set_field s n v acc)
      ≡ (if str_eq section s && str_eq name n then some v else get section name acc)
unfolding set_field
get-set_field section name s n v acc = ground (
  arith,
  lookup-insert s section (insert n v (section_of (lookup s acc))) acc,
  lookup-insert n name v (section_of (lookup s acc)),
  str_eq_iff section s,
)

get-merge_section :
    (section name s : Str) (fs : Fields) (acc : Sections)
    → get section name (merge_section s fs acc)
      ≡ or_else (if str_eq section s then last_field name fs else none) (get section name acc)
unfolding merge_section
get-merge_section section name s no_fields acc = ground arith
get-merge_section section name s (field n v rest) acc =
    get-merge_section section name s rest (set_field s n v acc)
    ∙ ground (arith, get-set_field section name s n v acc)

-- After a file is merged, a field has the value that the file gives it, in whichever section, and
-- every field that the file does not name keeps the value from the files before.
pub get-merge_file :
    (section name : Str) (fs : Fields) (acc : Sections)
    → get section name (merge_file fs acc)
      ≡ or_else (defined section name fs) (get section name acc)
unfolding merge_file
get-merge_file section name no_fields acc = refl
get-merge_file section name (field s (table inner) rest) acc =
    get-merge_file section name rest (merge_section s inner acc)
    ∙ ground (arith, get-merge_section section name s inner acc)
get-merge_file section name (field s (plain t) rest) acc =
    get-merge_file section name rest acc ∙ ground arith
get-merge_file section name (field s (array xs) rest) acc =
    get-merge_file section name rest acc ∙ ground arith

-- a file that leaves what was accumulated as it is, whether it raises or not
abbrev IsSkipped : SettingsFile → Type 0
IsSkipped file =
    (a : Sections) (next : Sections → Outcome Sections)
    → after_file true (load_file file a) a next ≡ next a

load_files-skips :
    (before after : List SettingsFile) (bad : SettingsFile) (acc : Sections)
    → IsSkipped bad
    → load_files true (before ++ bad ∷ after) acc ≡ load_files true (before ++ after) acc
unfolding load_files
load_files-skips [] after bad acc h = h acc (load_files true after)
load_files-skips (file ∷ before) after bad acc h =
    ap (after_file true (load_file file acc) acc)
      (fun_ext (λ a. load_files-skips before after bad a h))

forbidden_root :
    (inner : Fields) (a : Sections)
    → any is_forbidden (all_keys inner) ≡ true
    → load_root (table inner) a ≡ raised security_error
forbidden_root inner a h = ground (arith, h, validate_file_security_lem inner)

forbidden-IsSkipped :
    (bad : SettingsFile) (inner : Fields)
    → bad.parsed ≡ returned (table inner)
    → any is_forbidden (all_keys inner) ≡ true
    → IsSkipped bad
unfolding load_file
forbidden-IsSkipped bad inner hp hf a next =
    let P = λ (r : Outcome Sections). after_file true r a next ≡ next a in
    let read = and_then bad.parsed (λ root. load_root root a) in
    let big = ltb 104857600 bad.size in
    let other = not (str_eq (lower bad.suffix) (codes ".toml")) in
    let e : read ≡ raised security_error =
      ap (λ p. and_then p (λ root. load_root root a)) hp ∙ forbidden_root inner a hf in
    if_either P other (returned a)
      (if not bad.exists then returned a else if big then returned a else read) refl
      (if_either P (not bad.exists) (returned a) (if big then returned a else read) refl
        (if_either P big (returned a) read refl (ap (λ r. after_file true r a next) e)))

after_file-Succeeds :
    (m : Outcome Sections) (acc : Sections) (next : Sections → Outcome Sections)
    → ((a : Sections) → Succeeds (next a))
    → Succeeds (after_file true m acc next)
after_file-Succeeds (returned merged) acc next h = h merged
after_file-Succeeds (raised e) acc next h = h acc

module _ {S : Type 0} (set : Str → Dict Toml → S → Outcome S) where
  load_silently :
      (includes preload : Bool) (key : Option Str) (files : List SettingsFile) (s : S)
      → load set true includes preload key files s ≡ (
          if includes
          then returned s
          else if preload
          then returned s
          else and_then (load_files true files []) (λ acc. update_settings set key acc s))
  unfolding load load_files update_settings
  load_silently includes preload key [] s = ground arith
  load_silently includes preload key (file ∷ files) s = refl

  load_files-Succeeds :
      (files : List SettingsFile) (acc : Sections) → Succeeds (load_files true files acc)
  unfolding load_files
  load_files-Succeeds [] acc = (acc, refl)
  load_files-Succeeds (file ∷ files) acc =
      after_file-Succeeds (load_file file acc) acc (load_files true files)
        (load_files-Succeeds files)

  -- A silent load passes over a file whose root is a table with a forbidden key in it or in a table
  -- below it that is the value of a key; tables in arrays are not looked into. The load comes to what
  -- it would come to without the file, whatever else the file sets.
  pub load-ignores_forbidden :
      (includes preload : Bool) (key : Option Str) (before after : List SettingsFile)
      (bad : SettingsFile) (inner : Fields) (s : S)
      → bad.parsed ≡ returned (table inner)
      → any is_forbidden (all_keys inner) ≡ true
      → load set true includes preload key (before ++ bad ∷ after) s
        ≡ load set true includes preload key (before ++ after) s
  unfolding load
  load-ignores_forbidden includes preload key before after bad inner s hp hf =
      load_silently includes preload key (before ++ bad ∷ after) s
      ∙ ap
          (λ m.
            if includes
            then returned s
            else if preload
            then returned s
            else and_then m (λ acc. update_settings set key acc s))
          (load_files-skips before after bad [] (forbidden-IsSkipped bad inner hp hf))
      ∙ sym (load_silently includes preload key (before ++ after) s)

  update_settings-Succeeds :
      (key : Option Str) (acc : Sections) (s : S)
      → ((k : Str) (d : Dict Toml) (t : S) → Succeeds (set k d t))
      → Succeeds (update_settings set key acc s)
  unfolding update_settings
  update_settings-Succeeds key [] s h = (s, refl)
  update_settings-Succeeds key ((k, d) ∷ acc) s h =
      Succeeds-then (if wanted key k then set k d s else returned s) (update_settings set key acc)
        (if_either Succeeds (wanted key k) (set k d s) (returned s) (h k d s) (s, refl))
        (λ t. update_settings-Succeeds key acc t h)

  -- A silent load raises only if the settings object raises when a section is set: whatever the files
  -- are, in whatever order, with errors of the file system, of the parser and of the security check.
  pub load-Succeeds :
      (includes preload : Bool) (key : Option Str) (files : List SettingsFile) (s : S)
      → ((k : Str) (d : Dict Toml) (t : S) → Succeeds (set k d t))
      → Succeeds (load set true includes preload key files s)
  load-Succeeds includes preload key files s h =
      let run = and_then (load_files true files []) (λ acc. update_settings set key acc s) in
      subst Succeeds (sym (load_silently includes preload key files s)) (
        if_either Succeeds includes (returned s) (if preload then returned s else run) (s, refl)
          (if_either Succeeds preload (returned s) run (s, refl)
            (Succeeds-then (load_files true files []) (λ acc. update_settings set key acc s)
              (load_files-Succeeds files []) (λ acc. update_settings-Succeeds key acc s h))))
