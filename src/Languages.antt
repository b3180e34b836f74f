-- ===== src/Languages.antt =====
-- The order of the files of a pull request: pr_insight/algo/language_handler.py. The sizes of the
-- languages are natural numbers. Where `bad_extensions += …` also changes the list in the settings,
-- only the value of the list is modelled.
pub mod Complete
pub mod Other
use pr_insight.Base.{
  ℕ, Bool, true, false, not, ◌&&◌, Option, none, some, List, [], ◌∷◌, ◌++◌, leb, map, any, select,
  if◌then◌else◌,
}
use pr_insight.Base.Text.{Str, codes, elem, ends_with, lower, lower_code, replace, split, str_eq}
use pr_insight.Base.Dict.{Dict, lookup, insert, has_key}
use pr_insight.Patch.Types.{FilePatchInfo}
use pr_insight.Processing.Files.{LanguageGroup}

-- The settings `bad_extensions`, `config.use_extra_bad_extensions` and `language_extension_map_org`.
pub record LanguageSettings : Type 0 where
  pub default_extensions : List Str
  pub extra_extensions : List Str
  pub use_extra : Bool
  pub language_extension_map_org : Dict (List Str)

abbrev pub bad_extensions : LanguageSettings → List Str
bad_extensions s =
    if s.use_extra then s.default_extensions ++ s.extra_extensions else s.default_extensions

abbrev auto_generated_files_exact : List Str
auto_generated_files_exact = map codes (
    "package-lock.json" ∷ "yarn.lock" ∷ "pnpm-lock.yaml" ∷ "composer.lock" ∷ "Gemfile.lock"
    ∷ "poetry.lock" ∷ "go.sum" ∷ ".terraform.lock.hcl" ∷ "uv.lock" ∷ "Cargo.lock" ∷ "Pipfile.lock"
    ∷ "mix.lock" ∷ "pubspec.lock" ∷ "bun.lockb" ∷ [])

abbrev auto_generated_suffixes : List Str
auto_generated_suffixes =
    map codes (".min.js" ∷ ".min.css" ∷ ".js.map" ∷ ".ts.map" ∷ ".css.map" ∷ [])

-- `xs[-1]` of the parts of a text
abbrev pub last_part : List Str → Str
last_part [] = []
last_part (x ∷ []) = x
last_part (x ∷ y ∷ ys) = last_part (y ∷ ys)

-- `is_valid_file`
unfoldable pub is_valid_file : List Str → Str → Bool
unfolding replace split elem ends_with
is_valid_file bad [] = false
is_valid_file bad (c ∷ name) =
    if elem (last_part (split b'/' (replace (codes "\\") (codes "/") (c ∷ name))))
      auto_generated_files_exact
    then false
    else if any (λ suffix. ends_with suffix (c ∷ name)) auto_generated_suffixes
    then false
    else not (elem (last_part (split b'.' (c ∷ name))) bad)

-- `filter_bad_extensions`
unfoldable pub filter_bad_extensions : LanguageSettings → List FilePatchInfo → List FilePatchInfo
unfolding is_valid_file
filter_bad_extensions s files = select (λ f. is_valid_file (bad_extensions s) f.filename) files

place : Str × ℕ → List (Str × ℕ) → List (Str × ℕ)
place x [] = x ∷ []
place x (y ∷ ys) = if leb y.1 x.1 then x ∷ y ∷ ys else y ∷ place x ys

-- `sorted(languages.items(), key=…, reverse=True)`: equal sizes keep their order
pub sort_by_size : List (Str × ℕ) → List (Str × ℕ)
unfolding place
sort_by_size [] = []
sort_by_size (x ∷ xs) = place x (sort_by_size xs)

-- `{k.lower(): v for k, v in ….items()}`
pub lower_keys : Dict (List Str) → Dict (List Str) → Dict (List Str)
unfolding lower_code insert
lower_keys acc [] = acc
lower_keys acc ((k, v) ∷ d) = lower_keys (insert (lower k) v acc) d

abbrev or_empty : Option (List Str) → List Str
or_empty none = []
or_empty (some v) = v

-- `main_extensions`, each with its language
pub with_extensions : Dict (List Str) → List (Str × ℕ) → List (Str × List Str)
unfolding lower_code lookup
with_extensions table [] = []
with_extensions table ((language, n) ∷ languages) =
    (language, or_empty (lookup (lower language) table)) ∷ with_extensions table languages

-- `main_extensions_flat`
abbrev pub flat : List (Str × List Str) → List Str
flat [] = []
flat ((language, exts) ∷ ls) = exts ++ flat ls

-- `extension_str`
pub extension_of : FilePatchInfo → Str
unfolding split
extension_of file = codes "." ++ last_part (split b'.' file.filename)

-- `tmp` and `rest_files`
pub record Parts : Type 0 where
  pub tmp : List FilePatchInfo
  pub rest_files : Dict FilePatchInfo

pub add_rest : List Str → FilePatchInfo → Dict FilePatchInfo → Dict FilePatchInfo
unfolding extension_of lookup insert elem
add_rest all_exts file rest =
    if not (has_key file.filename rest) && not (elem (extension_of file) all_exts)
    then insert file.filename file rest
    else rest

-- the loop over the files, for one language
pub each_file : List Str → List Str → List FilePatchInfo → Parts → Parts
unfolding add_rest extension_of elem
each_file exts all_exts [] p = p
each_file exts all_exts (file ∷ files) p = each_file exts all_exts files (
    if elem (extension_of file) exts
    then record p { tmp = p.tmp ++ file ∷ [] }
    else record p { rest_files = add_rest all_exts file p.rest_files })

abbrev pub add_group : Str → List FilePatchInfo → List LanguageGroup → List LanguageGroup
add_group language [] groups = groups
add_group language (f ∷ fs) groups = record { language = language; files = f ∷ fs } ∷ groups

abbrev pub values : Dict FilePatchInfo → List FilePatchInfo
values = map (λ e. e.1)

-- the loop over the languages, and the group "Other" behind them
pub each_language :
    List Str → List FilePatchInfo → List (Str × List Str) → Dict FilePatchInfo → List LanguageGroup
unfolding each_file
each_language all_exts files [] rest = record { language = codes "Other"; files = values rest } ∷ []
each_language all_exts files ((language, exts) ∷ ls) rest =
    let p = each_file exts all_exts files (record { tmp = []; rest_files = rest }) in
    add_group language p.tmp (each_language all_exts files ls p.rest_files)

abbrev pub main_extensions : LanguageSettings → Dict ℕ → List (Str × List Str)
main_extensions s languages =
    with_extensions (lower_keys [] s.language_extension_map_org) (sort_by_size languages)

-- `sort_files_by_main_languages`
unfoldable pub sort_files_by_main_languages :
    LanguageSettings → Dict ℕ → List FilePatchInfo → List LanguageGroup
unfolding filter_bad_extensions each_language lower_keys sort_by_size with_extensions
sort_files_by_main_languages s [] files =
    record { language = codes "Other"; files = filter_bad_extensions s files } ∷ []
sort_files_by_main_languages s (l ∷ ls) files =
    each_language (flat (main_extensions s (l ∷ ls))) (filter_bad_extensions s files)
      (main_extensions s (l ∷ ls)) []
