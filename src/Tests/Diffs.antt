-- ===== src/Tests/Diffs.antt =====
-- The theorems on whole diffs, applied to small files.
use pr_insight.Base.{
  ◌≤◌, ℕ, ◌+◌, ◌<◌, true, false, none, some, List, [], ◌∷◌, ◌≡◌, ◌⊎◌, inl, inr, refl, arith, In,
}
use pr_insight.Base.Fail.{returned}
use pr_insight.Base.Int.{pos}
use pr_insight.Base.Text.{Str, codes, str_eq, lower, lower_code, contains}
use pr_insight.Base.Dict.{Dict}
use pr_insight.Settings.{PatchSettings}
use pr_insight.Patch.Types.{deleted, modified, FilePatchInfo}
use pr_insight.Tokens.Handler.{Service, is_anthropic_model, is_openai_model}
use pr_insight.Languages.{LanguageSettings, filter_bad_extensions, sort_files_by_main_languages}
use pr_insight.Languages.Other.{NamePlaced, sort_files_by_main_languages-NamePlaced}
use pr_insight.Processing.Files.{LanguageGroup}
use pr_insight.Processing.Full.{Entry, soft_threshold}
use pr_insight.Processing.Full.Budget.{AllBounded, cost}
use pr_insight.Processing.Extended.{Extended, pr_generate_extended_diff}
use pr_insight.Processing.Compressed as Compressed
use pr_insight.Processing.Compressed.{Rounds, all_rounds, request}
use pr_insight.Processing.Compressed.Kept.{Kept, all_rounds-Kept}
use pr_insight.Processing.Diff.{Env, Draft, extended_task}
use pr_insight.Processing.Multi.{get_pr_multi_diffs}
use pr_insight.Processing.Multi.Prompts.{IsSplit, whole, get_pr_multi_diffs_lem}

abbrev fixed_cost : Str → ℕ
fixed_cost text = 200

abbrev patch_settings : PatchSettings
patch_settings = record {
  allow_dynamic_context = true;
  max_extra_lines_before_dynamic_context = pos 8;
  patch_extension_skip_types = codes ".md" ∷ [];
  patch_extra_lines_before = pos 3;
  patch_extra_lines_after = pos 1;
  enable_ai_metadata = false;
  large_patch_policy = codes "clip";
}

abbrev file_a : FilePatchInfo
file_a = record {
  base_file = codes "u\nv";
  head_file = codes "u\nw";
  patch = codes "@@ -1,2 +1,2 @@\n u\n-v\n+w";
  filename = codes "a.py";
  tokens = pos 5;
  edit_type = modified;
  old_filename = none;
  num_plus_lines = pos 1;
  num_minus_lines = pos 1;
  language = none;
  ai_file_summary = none;
}

abbrev file_b : FilePatchInfo
file_b = record file_a { filename = codes "b.py"; tokens = pos 9 }

abbrev groups : List LanguageGroup
groups = record { language = codes "Python"; files = file_a ∷ file_b ∷ [] } ∷ []

abbrev rounds_task : Compressed.Task
rounds_task = record {
  count_tokens = fixed_cost;
  prompt_tokens = 100;
  convert_hunks_to_line_numbers = false;
  large_pr_handling = true;
  max_ai_calls = pos 4;
}

abbrev entry : Entry
entry = record { patch = codes "+x"; tokens = 200; edit_type = modified }

abbrev entries : Dict Entry
entries =
    (codes "a", entry) ∷ (codes "b", entry) ∷ (codes "c", record entry { edit_type = deleted }) ∷ []

abbrev names : List Str
names = codes "a" ∷ codes "b" ∷ codes "c" ∷ []

entries-AllBounded : (ns : List Str) → AllBounded (request rounds_task 1850 ns) 0 entries
entries-AllBounded ns = (omega arith, (omega arith, (omega arith, tt)))

all_rounds-Kept_example : Kept (codes "b") (all_rounds rounds_task entries 1850 names)
all_rounds-Kept_example =
    all_rounds-Kept rounds_task 1850 0 entries entries-AllBounded (omega arith) (omega arith)
      (codes "b") entry (inr (inl refl)) refl names (inr (inl refl))

abbrev env : Env
env = record {
  count_tokens = fixed_cost;
  prompt_tokens = 100;
  encoded = λ text. none;
  output_chars = λ chars tokens m. m;
  settings = patch_settings;
  max_ai_calls = pos 4;
  limit = returned 2000;
}

get_pr_multi_diffs_lem_example :
    (texts : List Str) × (r : Extended × List LanguageGroup) × (get_pr_multi_diffs env
        (returned groups)
        3
        false
      ≡ returned texts)
    × (pr_generate_extended_diff (extended_task env false false) groups ≡ returned r)
    × (((texts ≡ whole r.0.patches_extended)
          × (100 + cost fixed_cost r.0.patches_extended + soft_threshold < 2000))
        ⊎ ((2000 ≤ 100 + cost fixed_cost r.0.patches_extended + soft_threshold)
            × IsSplit env 2000 3 texts))
get_pr_multi_diffs_lem_example = get_pr_multi_diffs_lem env groups 2000 3 refl

abbrev draft : Draft
draft = record { final_diff = codes "+x"; curr_token = pos 100 }

abbrev claude : Service
claude = record {
  model = codes "claude-3";
  openai_key = false;
  anthropic_key = true;
  encode_length = λ text. 1;
  byte_length = λ text. 10;
  client_ready = true;
  limit = some 100000;
  count_remotely = λ text. none;
  apply_factor = λ n. n;
}

claude_is_anthropic : is_anthropic_model (lower claude.model) ≡ true
unfolding is_anthropic_model contains lower_code
claude_is_anthropic = refl

claude_is_not_openai : is_openai_model (lower claude.model) ≡ false
unfolding is_openai_model contains lower_code str_eq
claude_is_not_openai = refl

abbrev language_settings : LanguageSettings
language_settings = record {
  default_extensions = codes "lock" ∷ [];
  extra_extensions = codes "md" ∷ [];
  use_extra = true;
  language_extension_map_org = (codes "Python", codes ".py" ∷ []) ∷ [];
}

abbrev file_c : FilePatchInfo
file_c = record file_a { filename = codes "c.txt" }

c_valid : In file_c (filter_bad_extensions language_settings (file_a ∷ file_c ∷ []))
unfolding filter_bad_extensions str_eq
c_valid = inr (inl refl)

sort_files_by_main_languages-NamePlaced_example : NamePlaced (codes "c.txt") (
    sort_files_by_main_languages language_settings
      ((codes "Python", 10) ∷ [])
      (file_a ∷ file_c ∷ []))
sort_files_by_main_languages-NamePlaced_example =
    sort_files_by_main_languages-NamePlaced language_settings ((codes "Python", 10) ∷ [])
      (file_a ∷ file_c ∷ []) file_c c_valid
