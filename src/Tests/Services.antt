-- ===== src/Tests/Services.antt =====
-- The theorems on models, configuration files and arguments, applied to small values.
use pr_insight.Base.{
  ℕ, Bool, true, false, not, ◌&&◌, Option, none, some, List, [], ◌∷◌, ◌++◌, ◌≡◌, refl, any, leb,
}
use pr_insight.Base.Fail.{Outcome, Outcome, returned, raised, other_error, Succeeds}
use pr_insight.Base.Int.{pos}
use pr_insight.Base.Text.{Str, codes, elem, str_eq, lower_code}
use pr_insight.Settings.{ModelSettings, DeploymentSettings, listed}
use pr_insight.Models.{regular, all_models, all_deployments, zip, retry_with_fallback_models}
use pr_insight.Models.Retry.{all_raise, retry-answers, retry-all_raise}
use pr_insight.Config.Loader.{
  Toml, plain, table, Fields, no_fields, field, SettingsFile, merge_file, load, is_forbidden,
  validate_file_security,
}
use pr_insight.Config.Loader.Security.{all_keys, nesting, verdict, validate_file_security_lem}
use pr_insight.Config.Loader.Merge.{
  get, or_else, defined, get-merge_file, load-ignores_forbidden, load-Succeeds,
}
use pr_insight.Cli.{validate_user_args, update_settings_from_args}
use pr_insight.Cli.Words.{found, first_found, validate_user_args_lem}
use pr_insight.Cli.Padded.{padded, validate-update_padded}
use pr_insight.Base.Dict.{Dict}

abbrev models : ModelSettings
models = record {
  model = codes "m1";
  model_weak = [];
  model_reasoning = [];
  fallback_models = listed (codes "m2" ∷ codes "m3" ∷ []);
  custom_model_max_tokens = pos 0;
  max_model_tokens = pos 0;
}

abbrev deployments : DeploymentSettings
deployments = record {
  deployment_id = some (codes "d1");
  fallback_deployments = listed (codes "d2" ∷ codes "d3" ∷ []);
}

-- the state is the deployment that is set
abbrev set_id : Option Str → Option Str → Option Str
set_id d w = d

-- only the model m2 answers
abbrev ask : Str → Option Str → Outcome ℕ × Option Str
ask model w = (if_m2 (str_eq model (codes "m2")), w)
  where
    if_m2 : Bool → Outcome ℕ
    if_m2 true = returned 7
    if_m2 false = raised other_error

abbrev never : Str → Option Str → Outcome ℕ × Option Str
never model w = (raised other_error, w)

abbrev three_deployments : List (Option Str)
three_deployments = some (codes "d1") ∷ some (codes "d2") ∷ some (codes "d3") ∷ []

deployments_found :
    all_deployments deployments (all_models models regular) ≡ returned three_deployments
unfolding all_deployments all_models
deployments_found = refl

pairs_found :
    zip (all_models models regular) three_deployments
    ≡ (codes "m1", some (codes "d1"))
      ∷ (codes "m2", some (codes "d2"))
      ∷ (codes "m3", some (codes "d3"))
      ∷ []
unfolding all_models
pairs_found = refl

first_raises :
    all_raise set_id ask ((codes "m1", some (codes "d1")) ∷ []) none ≡ some (some (codes "d1"))
unfolding str_eq
first_raises = refl

second_answers : ask (codes "m2") (some (codes "d2")) ≡ (returned 7, some (codes "d2"))
unfolding str_eq
second_answers = refl

retry-answers_example :
    retry_with_fallback_models set_id ask models deployments regular none
    ≡ (returned (some 7), some (codes "d2"))
retry-answers_example =
    retry-answers set_id ask models deployments regular none (some (codes "d1")) (some (codes "d2"))
      three_deployments ((codes "m1", some (codes "d1")) ∷ [])
      ((codes "m3", some (codes "d3")) ∷ []) (codes "m2") (some (codes "d2")) 7 deployments_found
      pairs_found first_raises second_answers

never_raises :
    all_raise set_id never (zip (all_models models regular) three_deployments) none
    ≡ some (some (codes "d3"))
unfolding all_models
never_raises = refl

retry-all_raise_example :
    retry_with_fallback_models set_id never models deployments regular none
    ≡ (raised other_error, some (codes "d3"))
retry-all_raise_example =
    retry-all_raise set_id never models deployments regular none (some (codes "d3"))
      three_deployments deployments_found never_raises

abbrev bad_fields : Fields
bad_fields =
    field (codes "config")
      (table (
        field (codes "model") (plain (codes "x"))
          (field (codes "Preload") (plain (codes "y")) no_fields)))
      no_fields

abbrev good_fields : Fields
good_fields =
    field (codes "config") (table (field (codes "model") (plain (codes "z")) no_fields)) no_fields

validate_file_security_lem_example :
    validate_file_security bad_fields
    ≡ verdict (not (any is_forbidden (all_keys bad_fields)) && leb (nesting bad_fields) 50)
validate_file_security_lem_example = validate_file_security_lem bad_fields

get-merge_file_example :
    get (codes "config") (codes "model") (merge_file good_fields (merge_file bad_fields []))
    ≡ or_else
        (defined (codes "config") (codes "model") good_fields)
        (get (codes "config") (codes "model") (merge_file bad_fields []))
get-merge_file_example =
    get-merge_file (codes "config") (codes "model") good_fields (merge_file bad_fields [])

abbrev file_of : Fields → SettingsFile
file_of fs = record {
  suffix = codes ".toml";
  exists = true;
  size = 100;
  parsed = returned (table fs);
}

abbrev set_section : Str → Dict Toml → List Str → Outcome (List Str)
set_section name d s = returned (s ++ name ∷ [])

bad_key : any is_forbidden (all_keys bad_fields) ≡ true
unfolding is_forbidden lower_code elem str_eq
bad_key = refl

load-ignores_forbidden_example :
    load set_section true false false none (file_of good_fields ∷ file_of bad_fields ∷ []) []
    ≡ load set_section true false false none (file_of good_fields ∷ []) []
load-ignores_forbidden_example =
    load-ignores_forbidden set_section false false none (file_of good_fields ∷ []) []
      (file_of bad_fields) bad_fields [] refl bad_key

load-Succeeds_example :
    Succeeds
      (load set_section true false false none (file_of good_fields ∷ file_of bad_fields ∷ []) [])
load-Succeeds_example =
    load-Succeeds set_section false false none (file_of good_fields ∷ file_of bad_fields ∷ []) []
      (λ k d s. (s ++ k ∷ [], refl))

abbrev key_args : List Str
key_args = codes "--openai.key=abc" ∷ codes "text" ∷ []

validate_user_args_lem_example : validate_user_args key_args ≡ first_found (found key_args)
validate_user_args_lem_example = validate_user_args_lem key_args

abbrev set_key : Str → Str → List (Str × Str) → List (Str × Str)
set_key k v s = (k, v) ∷ s

abbrev no_yaml : Str → Option Str
no_yaml text = none

abbrev same_text : Str → Str
same_text text = text

validate-update_padded_example :
    (validate_user_args (padded key_args) ≡ (true, []))
    × (update_settings_from_args set_key no_yaml same_text (padded key_args) []
        ≡ update_settings_from_args set_key no_yaml same_text key_args [])
validate-update_padded_example = validate-update_padded set_key no_yaml same_text key_args []
