-- ===== src/Tests/Prompts.antt =====
-- The theorems on token budgets and prompts, applied to small files.
use pr_insight.Base.{ℕ, true, false, Option, none, some, [], ◌∷◌, ◌≡◌, inl, inr, refl, arith}
use pr_insight.Base.Int.{pos}
use pr_insight.Base.Text.{Str, codes, elem, str_eq}
use pr_insight.Base.Dict.{Dict}
use pr_insight.Settings.{ModelSettings, listed}
use pr_insight.Patch.Types.{modified}
use pr_insight.Tokens.Limit.{known_limit}
use pr_insight.Processing.Full.{Entry, Request, generate_full_patch}
use pr_insight.Processing.Full.Budget.{AllBounded, InBudget, generate_full_patch-InBudget}
use pr_insight.Processing.Full.Fate.{Listed, generate_full_patch-Listed}

abbrev model_settings : ModelSettings
model_settings = record {
  model = codes "gpt-4o";
  model_weak = [];
  model_reasoning = [];
  fallback_models = listed (codes "gpt-4" ∷ []);
  custom_model_max_tokens = pos 0;
  max_model_tokens = pos 4000;
}

limit_gpt4 : known_limit (codes "gpt-4") ≡ some 8000
unfolding known_limit str_eq
limit_gpt4 = refl

limit_none : known_limit (codes "none") ≡ none
unfolding known_limit str_eq
limit_none = refl

-- an encoder and a product for the tests
abbrev no_encoder : Str → Option ℕ
no_encoder text = none

abbrev same_chars : ℕ → ℕ → ℕ → ℕ
same_chars chars tokens m = m

-- every text costs 200 tokens
abbrev flat : Str → ℕ
flat text = 200

abbrev small_request : Request
small_request = record {
  count_tokens = flat;
  prompt_tokens = 100;
  convert_hunks_to_line_numbers = false;
  max_tokens_model = 1850;
  remaining_files_list_prev = codes "a" ∷ codes "b" ∷ [];
}

abbrev small_entry : Entry
small_entry = record { patch = codes "+x"; tokens = 200; edit_type = modified }

abbrev small_files : Dict Entry
small_files = (codes "a", small_entry) ∷ (codes "b", small_entry) ∷ []

small_files-AllBounded : AllBounded small_request 0 small_files
small_files-AllBounded = (omega arith, (omega arith, tt))

generate_full_patch-InBudget_example :
    InBudget small_request 0 (generate_full_patch small_request small_files).total_tokens
generate_full_patch-InBudget_example =
    generate_full_patch-InBudget small_request 0 small_files small_files-AllBounded

wanted_b : elem (codes "b") small_request.remaining_files_list_prev ≡ true
unfolding elem str_eq
wanted_b = refl

generate_full_patch-Listed_example :
    Listed (codes "b") (generate_full_patch small_request small_files)
generate_full_patch-Listed_example =
    generate_full_patch-Listed small_request 0 small_files (codes "b") small_entry (omega arith)
      (omega arith) small_files-AllBounded (inr (inl refl)) wanted_b refl

abbrev full_request : Request
full_request = record small_request { prompt_tokens = 900 }
