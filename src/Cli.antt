-- ===== src/Cli.antt =====
-- The arguments of a command: `CliArgs.validate_user_args` of pr_insight/algo/cli_args.py, and
-- `update_settings_from_args` and `_fix_key_value` of pr_insight/algo/parser_utils.py. The words that
-- the source holds in base64 stand decoded here; `lower` and `upper` are those of ASCII letters.
pub mod Words
pub mod Padded
use pr_insight.Base.{
  ℕ, Bool, true, false, not, Option, none, some, List, [], ◌∷◌, ◌++◌, ◌≡◌, refl, arith, map, ◌==◌,
  if◌then◌else◌,
}
use pr_insight.Base.Text.{
  Str, codes, starts_with, contains, lower, lower_code, upper, upper_code, replace, strip, strip_by,
  is_space,
}

-- `_encoded_args`, decoded
abbrev forbidden_words : List Str
forbidden_words = map codes (
    "shared_secret" ∷ "user" ∷ "system" ∷ "enable_comment_approval" ∷ "enable_manual_approval"
    ∷ "enable_auto_approval" ∷ "approve_pr_on_self_review" ∷ "base_url" ∷ "url" ∷ "app_name"
    ∷ "secret_provider" ∷ "git_provider" ∷ "skip_keys" ∷ "openai.key" ∷ "ANALYTICS_FOLDER" ∷ "uri"
    ∷ "app_id" ∷ "webhook_secret" ∷ "bearer_token" ∷ "PERSONAL_ACCESS_TOKEN"
    ∷ "override_deployment_type" ∷ "private_key" ∷ "local_cache_path" ∷ "enable_local_cache"
    ∷ "jira_base_url" ∷ "api_base" ∷ "api_type" ∷ "api_version" ∷ "skip_keys" ∷ [])

-- the loop that lowers the words and puts a dot before those that have none
abbrev dotted : Str → Str
dotted word = if contains (codes ".") (lower word) then lower word else codes "." ++ lower word

unfoldable pub forbidden_cli_args : List Str
unfolding contains lower_code
forbidden_cli_args = map dotted forbidden_words

abbrev pub first_in : Str → List Str → Option Str
first_in arg_word [] = none
first_in arg_word (w ∷ words) = if contains w arg_word then some w else first_in arg_word words

-- `arg.lower().replace('__', '.')`
unfoldable pub word_of : Str → Str
unfolding lower_code replace
word_of arg = replace (codes "__") (codes ".") (lower arg)

abbrev pub is_option : Str → Bool
is_option arg = starts_with (codes "--") arg

-- the loop over the arguments; a word found is returned with False
abbrev pub validate_loop : List Str → List Str → Bool × Str
validate_loop words [] = (true, [])
validate_loop words (arg ∷ args) =
    let rest = validate_loop words args in
    if is_option arg
    then elim (first_in (word_of arg) words) [ none ↦ rest | some w ↦ (false, w) ]
    else rest

-- `CliArgs.validate_user_args`
unfoldable pub validate_user_args : List Str → Bool × Str
unfolding forbidden_cli_args word_of contains starts_with
validate_user_args args = validate_loop forbidden_cli_args args

abbrev pub push_key : ℕ → Option (Str × Str) → Option (Str × Str)
push_key c none = none
push_key c (some (key, value)) = some (c ∷ key, value)

-- `arg.split('=', 1)`, if it has two parts
unfoldable pub split_once : ℕ → Str → Option (Str × Str)
split_once c [] = none
split_once c (x ∷ s) = let rest = split_once c s in if x == c then some ([], s) else push_key x rest

-- S is the settings object, `set` its method, V its values and `parse` is `yaml.safe_load`, which
-- gives nothing where it raises; `raw` makes a value of a text.
module _ {S V : Type 0} (set : Str → V → S → S) (parse : Str → Option V) (raw : Str → V) where
  -- `_fix_key_value`
  unfoldable pub fix_key_value : Str → Str → Str × V
  unfolding upper_code strip_by is_space
  fix_key_value key value =
      (upper (strip key), elim (parse (strip value)) [ none ↦ raw (strip value) | some v ↦ v ])

  abbrev pub with_vals : Str → Option (Str × Str) → List Str × S → List Str × S
  with_vals arg none (others, s) = (others ++ arg ∷ [], s)
  with_vals arg (some (key, value)) (others, s) =
      (others, set (fix_key_value key value).0 (fix_key_value key value).1 s)

  -- what follows `arg = arg.strip()` in the loop
  abbrev pub take_arg : Str → List Str × S → List Str × S
  take_arg arg (others, s) =
      if is_option arg
      then with_vals (strip (strip_by (λ c. c == b'-') arg))
          (split_once b'=' (strip (strip_by (λ c. c == b'-') arg))) (others, s)
      else (others ++ arg ∷ [], s)

  unfoldable pub update_loop : List Str → List Str × S → List Str × S
  unfolding fix_key_value split_once starts_with strip_by is_space
  update_loop [] st = st
  update_loop (arg ∷ args) st = update_loop args (take_arg (strip arg) st)

  -- `update_settings_from_args`
  unfoldable pub update_settings_from_args : List Str → S → List Str × S
  unfolding update_loop
  update_settings_from_args args s = update_loop args ([], s)
