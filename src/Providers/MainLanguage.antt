-- ===== src/Providers/MainLanguage.antt =====
-- The main language of a pull request: `get_main_pr_language` of
-- pr_insight/git_providers/git_provider.py.
use pr_insight.Base.{
  ℕ, Bool, false, Option, none, some, List, [], ◌∷◌, map, length, ltb, select, if◌then◌else◌,
}
use pr_insight.Base.Dict.{Dict, lookup}
use pr_insight.Base.Text.{Str, lower, lower_code, split, str_eq, elem}

-- `max(xs, key=f)`: the first of the greatest
unfoldable pub max_by : {A : Type 0} → (A → ℕ) → A → List A → A
max_by f best [] = best
max_by f best (x ∷ xs) = max_by f (if ltb (f best) (f x) then x else best) xs

abbrev last_of : Str → List Str → Str
last_of s [] = s
last_of s (t ∷ ts) = last_of t ts

-- `filename.rsplit('.')[-1]`
abbrev extension : Str → Str
extension filename = last_of [] (split b'.' filename)

-- `extension_list.count(e)`
abbrev count_of : List Str → Str → ℕ
count_of extensions e = length (select (str_eq e) extensions)

-- the first language with the extension
unfoldable pub language_with : Str → Dict (List Str) → Str
unfolding elem
language_with e [] = []
language_with e ((language, extensions) ∷ languages) =
    if elem e extensions then language else language_with e languages

-- `{k.lower(): v for k, v in …}`, where a key that comes twice has its last value
abbrev lower_keys : Dict (List Str) → Dict (List Str)
lower_keys d = map (λ e. (lower e.0, e.1)) d

abbrev has_extension : Str → Option (List Str) → Bool
has_extension e none = false
has_extension e (some extensions) = elem e extensions

abbrev language_of : Str → Str → Dict (List Str) → Str
language_of top_language most_common_extension language_extension_map =
    if has_extension most_common_extension (lookup top_language language_extension_map)
    then top_language
    else language_with most_common_extension language_extension_map

-- of the different extensions; that there is none raises an exception, which is caught
abbrev with_extensions : Str → List Str → List Str → Dict (List Str) → Str
with_extensions top_language extensions [] language_extension_map = []
with_extensions top_language extensions (e ∷ es) language_extension_map =
    language_of top_language (b'.' ∷ max_by (count_of extensions) e es) language_extension_map

-- `get_main_pr_language` of the languages with their sizes and the names of the files. The order in
-- which Python goes through a set is `order`, and the keys of the map are different in lower case.
unfoldable pub get_main_pr_language :
    (List Str → List Str) → Dict (List Str) → List (Str × ℕ) → List Str → Str
unfolding max_by language_with lookup split lower_code
get_main_pr_language order language_extension_map_org [] files = []
get_main_pr_language order language_extension_map_org (l ∷ languages) [] = []
get_main_pr_language order language_extension_map_org (l ∷ languages) (f ∷ files) =
    let top_language = lower (max_by (λ e. e.1) l languages).0 in
    let extensions = map extension (f ∷ files) in
    with_extensions top_language extensions (order extensions)
      (lower_keys language_extension_map_org)
