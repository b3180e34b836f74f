-- ===== src/Processing/Extended.antt =====
-- `pr_generate_extended_diff` and `cap_and_log_extra_lines`.
pub mod Totals
use pr_insight.Base.{
  ℕ, ◌+◌, Bool, true, false, ◌&&◌, Option, none, some, List, [], ◌∷◌, ◌++◌, if◌then◌else◌,
}
use pr_insight.Base.Fail.{Outcome, returned, raised, and_then}
use pr_insight.Base.Int.{ℤ, pos, ltb_ℤ}
use pr_insight.Base.Text.{Str, codes, strip, replace}
use pr_insight.Settings.{PatchSettings}
use pr_insight.Patch.Types.{FilePatchInfo}
use pr_insight.Patch.Extend.{extend_patch}
use pr_insight.Patch.Numbered.{decouple_and_convert_to_hunks_with_lines_numbers}
use pr_insight.Processing.Full.{is_text}
use pr_insight.Processing.Files.{LanguageGroup}
use pr_insight.Processing.Summary.{add_ai_summary_top_patch}

abbrev pub max_extra_lines : ℤ
max_extra_lines = pos 10

unfoldable pub cap_and_log_extra_lines : ℤ → ℤ
cap_and_log_extra_lines value = if ltb_ℤ max_extra_lines value then max_extra_lines else value

-- The arguments, and what the function takes from the token handler and the settings.
pub record Task : Type 0 where
  pub count_tokens : Str → ℕ
  pub prompt_tokens : ℕ
  pub settings : PatchSettings
  pub add_line_numbers_to_hunks : Bool
  pub patch_extra_lines_before : ℤ
  pub patch_extra_lines_after : ℤ

abbrev pub plain_text : FilePatchInfo → Str → Str
plain_text file patch =
    codes "\n\n## File: '"
    ++ (strip file.filename ++ (codes "'\n\n" ++ (strip patch ++ codes "\n")))

-- "add AI-summary metadata to the patch"
pub with_summary : Task → FilePatchInfo → Str → Str
with_summary t file patch = elim file.ai_file_summary [
  | none ↦ patch
  | some [] ↦ patch
  | some (e ∷ d) ↦
      if t.settings.enable_ai_metadata then add_ai_summary_top_patch (e ∷ d) patch else patch
]

-- `full_extended_patch` from `extended_patch`
pub full_text : Task → FilePatchInfo → Str → Outcome Str
full_text t file extended =
    if t.add_line_numbers_to_hunks
    then decouple_and_convert_to_hunks_with_lines_numbers extended (some file)
    else returned (plain_text file (replace (codes "\n@@ ") (codes "\n\n@@ ") extended))

-- One file: `none` where it is skipped.
pub file_text : Task → FilePatchInfo → Outcome (Option Str)
unfolding with_summary full_text
file_text t file =
    let extended =
      extend_patch t.settings file.base_file file.patch t.patch_extra_lines_before
        t.patch_extra_lines_after file.filename file.head_file in
    if is_text file.patch && is_text extended
    then and_then (full_text t file extended) (λ text. returned (some (with_summary t file text)))
    else returned none

-- The accumulators, and the files so far, where `file.tokens` was set.
pub record Extended : Type 0 where
  pub patches_extended : List Str
  pub total_tokens : ℕ
  pub patches_extended_tokens : List ℕ

pub add_patch : Task → Extended → Str → Extended
add_patch t s text = record {
  patches_extended = s.patches_extended ++ text ∷ [];
  total_tokens = s.total_tokens + t.count_tokens text;
  patches_extended_tokens = s.patches_extended_tokens ++ t.count_tokens text ∷ [];
}

-- `file.tokens = patch_tokens`
set_tokens : Task → FilePatchInfo → Option Str → FilePatchInfo
set_tokens t file none = file
set_tokens t file (some text) = record file { tokens = pos (t.count_tokens text) }

add_optional : Task → Extended → Option Str → Extended
unfolding add_patch
add_optional t s none = s
add_optional t s (some text) = add_patch t s text

pub each_file : Task → Extended → List FilePatchInfo → Outcome (Extended × List FilePatchInfo)
unfolding file_text set_tokens add_optional
each_file t s [] = returned (s, [])
each_file t s (file ∷ files) = and_then (file_text t file) λ text.
    and_then (each_file t (add_optional t s text) files)
      λ r. returned (r.0, set_tokens t file text ∷ r.1)

pub each_language : Task → Extended → List LanguageGroup → Outcome (Extended × List LanguageGroup)
unfolding each_file
each_language t s [] = returned (s, [])
each_language t s (lang ∷ langs) = and_then (each_file t s lang.files) λ r.
    and_then (each_language t r.0 langs) λ r'. returned (r'.0, record lang { files = r.1 } ∷ r'.1)

abbrev pub initial : Task → Extended
initial t = record {
  patches_extended = [];
  total_tokens = t.prompt_tokens;
  patches_extended_tokens = [];
}

-- The three lists that are returned, and the languages with the token counts that the loop wrote
-- into their files.
unfoldable pub pr_generate_extended_diff :
    Task → List LanguageGroup → Outcome (Extended × List LanguageGroup)
unfolding each_language
pr_generate_extended_diff t langs = each_language t (initial t) langs
