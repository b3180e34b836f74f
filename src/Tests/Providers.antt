-- ===== src/Tests/Providers.antt =====
-- The theorems on settings, files and providers, applied to small values.
use pr_insight.Base.{
  Bool, true, false, none, some, List, [], ◌∷◌, ◌++◌, ◌≡◌, refl, All, any, if◌then◌else◌,
}
use pr_insight.Base.Dict.{insert}
use pr_insight.Base.Fail.{returned, raised, type_error}
use pr_insight.Base.Text.{
  Str, codes, str_eq, rstrip, lower, lower_code, contains, is_space, rstrip_by,
}
use pr_insight.Ignored.{IgnoreSettings, File, github, texts, one_text, filter_ignored}
use pr_insight.Config.Loader.{Fields, plain, table, field, no_fields, is_forbidden, SettingsFile}
use pr_insight.Config.Loader.Security.{all_keys}
use pr_insight.Config.Roots.{FilePath, find_repository_root}
use pr_insight.Config.Roots.Nearest.{Found, find_repository_root-Found}
use pr_insight.Config.Secrets.{setting_name}
use pr_insight.Config.Repo.{Host, Session, with_model, apply_repo_settings}
use pr_insight.Config.Repo.Forbidden.{apply_repo_settings-forbidden}
use pr_insight.Providers.Description.{user_description_of, write_sections}
use pr_insight.Providers.Description.NextHeader.{other_headers, type_header}
use pr_insight.Providers.Description.Written.{user_description_of-written}

abbrev ignore_settings : IgnoreSettings
ignore_settings = record {
  regex = texts (codes "a" ∷ codes "(" ∷ []);
  glob = one_text (codes "[**/b,c]");
  ignore_language_framework = texts (codes "gen" ∷ []);
  generated_code = (codes "gen", texts (codes "d" ∷ [])) ∷ [];
}

abbrev file_named : Str → File
file_named name = record { filename = some name; new_path = none; old_path = none }

abbrev is_pattern : Str → Bool
is_pattern s = if str_eq s (codes "(") then false else true

abbrev three_files : List File
three_files = file_named (codes "a") ∷ file_named (codes "b") ∷ file_named (codes "x") ∷ []

one_file_stays :
    filter_ignored (λ g. g) is_pattern str_eq ignore_settings github three_files
    ≡ file_named (codes "x") ∷ []
unfolding filter_ignored str_eq
one_file_stays = refl

abbrev has_git : FilePath → Bool
has_git (d ∷ e ∷ []) = true
has_git d = false

find_repository_root-Found_example :
    Found
      (λ d. has_git (codes ".git" ∷ d))
      (codes "b" ∷ codes "a" ∷ [])
      (find_repository_root has_git (codes "b" ∷ codes "a" ∷ []))
find_repository_root-Found_example = find_repository_root-Found has_git (codes "b" ∷ codes "a" ∷ [])

key_named : setting_name (codes "openai.key") ≡ some (codes "OPENAI.KEY")
unfolding setting_name
key_named = refl

abbrev bad_table : Fields
bad_table =
    field (codes "config") (table (field (codes "loaders") (plain (codes "x")) no_fields)) no_fields

abbrev bad_file : SettingsFile
bad_file = record {
  suffix = codes ".toml";
  exists = true;
  size = 10;
  parsed = returned (table bad_table);
}

abbrev host : Host
host = record {
  get_git_provider = returned tt;
  has_context = true;
  get_repo_settings = returned (codes "[config]");
  file_of = λ text. bad_file;
  silent = true;
  constructor_ = returned tt;
  load_default = λ f. raised type_error;
  is_supported_gfm = true;
  publishes = returned tt;
  message = λ e. [];
  use_repo_settings_file = λ s. true;
  model = λ s. codes "gpt-4";
  set = λ k v s. s;
  store = λ section contents s. returned (insert section contents s);
}

abbrev session : Session
session = record { settings = []; cached = none; comments = [] }

table_forbidden : any is_forbidden (all_keys bad_table) ≡ true
unfolding is_forbidden lower_code
table_forbidden = refl

apply_repo_settings-forbidden_example :
    (t : Session) × (apply_repo_settings host session ≡ returned t)
    × (t.settings ≡ with_model host [])
    × (t.comments ≡ [])
apply_repo_settings-forbidden_example =
    apply_repo_settings-forbidden host session refl refl refl
      (λ text e. (bad_table, refl, table_forbidden)) (λ text e. (bad_table, refl, table_forbidden))

abbrev parts : List (Str × Str)
parts = (codes "User description", codes "Fix it") ∷ (codes "PR Type", codes "Bug fix") ∷ []

ends_well : rstrip (codes "Fix it") ≡ codes "Fix it"
unfolding rstrip_by is_space
ends_well = refl

begins_well : is_space b'F' ≡ false
unfolding is_space
begins_well = refl

no_type : contains type_header (lower (codes "Fix it")) ≡ false
unfolding contains lower_code
no_type = refl

no_other : All (λ h. contains h (lower (codes "Fix it")) ≡ false) other_headers
unfolding contains lower_code
no_other = (refl, (refl, (refl, (refl, (refl, (refl, tt))))))

user_description_of-written_example :
    user_description_of (write_sections parts ++ codes "\n") ≡ codes "Fix it"
user_description_of-written_example =
    user_description_of-written b'F' (codes "ix it") (codes "Bug fix") [] (codes "\n") begins_well
      ends_well no_type no_other
