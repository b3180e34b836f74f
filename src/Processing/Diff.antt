-- ===== src/Processing/Diff.antt =====
-- `get_pr_diff` and `get_pr_diff_multiple_patchs`.
pub mod Shown
use pr_insight.Base.{
  ℕ, zero, suc, ◌+◌, ◌-◌, Bool, true, false, not, ◌&&◌, ◌||◌, Option, none, some, List, [], ◌∷◌,
  ◌++◌, ltb, length, if◌then◌else◌,
}
use pr_insight.Base.Fail.{Outcome, returned, raised, and_then}
use pr_insight.Base.Int.{ℤ, pos, ◌+ℤ◌, ◌-ℤ◌, ltb_ℤ, sub_ℕ}
use pr_insight.Base.Text.{Str, codes, elem, join}
use pr_insight.Base.Dict.{Dict}
use pr_insight.Settings.{PatchSettings}
use pr_insight.Patch.Types.{EditType, added, deleted, modified, renamed, unknown, FilePatchInfo}
use pr_insight.Tokens.Clip.{clip_tokens}
use pr_insight.Processing.Full.{Entry, is_text, soft_threshold, hard_threshold}
use pr_insight.Processing.Files.{LanguageGroup}
use pr_insight.Processing.Extended
use pr_insight.Processing.Extended.{Extended, cap_and_log_extra_lines, pr_generate_extended_diff}
use pr_insight.Processing.Compressed
use pr_insight.Processing.Compressed.{Rounds, Compressed, pr_generate_compressed_diff}

-- What the functions take from elsewhere: the token handler, the encoder and the float product of
-- `clip_tokens`, the settings, and `get_max_tokens(model)`.
pub record Env : Type 0 where
  pub count_tokens : Str → ℕ
  pub prompt_tokens : ℕ
  pub encoded : Str → Option ℕ
  pub output_chars : ℕ → ℕ → ℕ → ℕ
  pub settings : PatchSettings
  pub max_ai_calls : ℤ
  pub limit : Outcome ℕ

abbrev pub clip : Env → Str → ℤ → Str
clip v text n = clip_tokens v.encoded v.output_chars text n true none false

-- a list of names under its title
abbrev pub append_name : Str → Str → Str → Str
append_name title [] name = title ++ (b'\n' ∷ name)
append_name title (c ∷ text) name = (c ∷ text) ++ (b'\n' ∷ name)

pub record NameLists : Type 0 where
  pub added_list_str : Str
  pub modified_list_str : Str
  pub deleted_list_str : Str

abbrev pub added_files : Str
added_files = codes "Additional added files (insufficient token budget to process):\n"

abbrev pub more_modified_files : Str
more_modified_files = codes "Additional modified files (insufficient token budget to process):\n"

abbrev pub deleted_files : Str
deleted_files = codes "Deleted files:\n"

pub name_file : NameLists → Str → EditType → NameLists
name_file s name added = record s { added_list_str = append_name added_files s.added_list_str name }
name_file s name modified = record s {
  modified_list_str = append_name more_modified_files s.modified_list_str name;
}
name_file s name renamed = record s {
  modified_list_str = append_name more_modified_files s.modified_list_str name;
}
name_file s name deleted = record s {
  deleted_list_str = append_name deleted_files s.deleted_list_str name;
}
name_file s name unknown = s

-- "generate the added, modified, and deleted files lists"
pub name_files : List Str → NameLists → Dict Entry → NameLists
unfolding name_file
name_files in_patch s [] = s
name_files in_patch s ((name, e) ∷ files) =
    name_files in_patch (if elem name in_patch then s else name_file s name e.edit_type) files

abbrev pub no_names : NameLists
no_names = record { added_list_str = []; modified_list_str = []; deleted_list_str = [] }

-- the diff so far and its tokens
pub record Draft : Type 0 where
  pub final_diff : Str
  pub curr_token : ℤ

-- "prune the … lists, and add them to the final diff"; the tokens of the last list are not counted,
-- which nothing reads
pub append_list : Env → ℤ → Draft → Str → Draft
append_list v max_tokens d list =
    let clipped = clip v list (max_tokens -ℤ d.curr_token) in
    if is_text clipped
    then record {
      final_diff = d.final_diff ++ (codes "\n\n" ++ clipped);
      curr_token = d.curr_token +ℤ pos (v.count_tokens clipped + 2);
    }
    else d

pub with_lists : Env → ℤ → Draft → Dict Entry → List Str → Str
unfolding name_files append_list ◌-ℤ◌
with_lists v max_tokens d file_dict in_patch =
    let names =
      if ltb_ℤ (pos 10) (max_tokens -ℤ d.curr_token)
      then name_files in_patch no_names file_dict
      else no_names in
    let d1 = append_list v max_tokens d names.added_list_str in
    let d2 = append_list v max_tokens d1 names.modified_list_str in
    (append_list v max_tokens d2 names.deleted_list_str).final_diff

-- The diff alone, or with the names of the files that remain.
pub data PrDiff : Type 0 where
  diff : Str → PrDiff
  diff_and_remaining : Str → List Str → PrDiff

-- The first prompt: `patches_compressed_list[0]` and its kin. The lists are never empty.
pub data First : Type 0 where
  first : List Str → ℕ → List Str → First

first_prompt : Rounds → First
first_prompt r =
    first (head r.patches_list) (elim r.total_tokens_list [ [] ↦ 0 | n ∷ ns ↦ n ])
      (head r.files_in_patches_list)
  where
    head : List (List Str) → List Str
    head [] = []
    head (x ∷ xs) = x

pruned : Env → ℕ → Compressed → First → Bool → PrDiff
unfolding with_lists
pruned v limit c (first patches total in_patch) return_remaining =
    let text =
      with_lists v (sub_ℕ limit hard_threshold)
        (record { final_diff = join (codes "\n") patches; curr_token = pos total })
        c.gathered.file_dict in_patch in
    if return_remaining then diff_and_remaining text c.rounds.remaining_files_list else diff text

-- "if we are over the limit, start pruning"
pub compressed_diff : Env → ℕ → Compressed → Bool → Bool → PrDiff
unfolding pruned first_prompt
compressed_diff v limit c large_pr_handling return_remaining =
    if large_pr_handling && ltb 1 (length c.rounds.patches_list)
    then diff []
    else pruned v limit c (first_prompt c.rounds) return_remaining

abbrev pub extended_task : Env → Bool → Bool → Extended.Task
extended_task v add_line_numbers disable_extra_lines = record {
  count_tokens = v.count_tokens;
  prompt_tokens = v.prompt_tokens;
  settings = v.settings;
  add_line_numbers_to_hunks = add_line_numbers;
  patch_extra_lines_before =
      if disable_extra_lines
      then pos 0
      else cap_and_log_extra_lines v.settings.patch_extra_lines_before;
  patch_extra_lines_after =
      if disable_extra_lines
      then pos 0
      else cap_and_log_extra_lines v.settings.patch_extra_lines_after;
}

abbrev pub compressed_task : Env → Bool → Bool → Compressed.Task
compressed_task v convert large_pr_handling = record {
  count_tokens = v.count_tokens;
  prompt_tokens = v.prompt_tokens;
  convert_hunks_to_line_numbers = convert;
  large_pr_handling = large_pr_handling;
  max_ai_calls = v.max_ai_calls;
}

-- `languages` are the provider's files sorted by language; they may raise the rate limit's error.
unfoldable pub get_pr_diff :
    Env → Outcome (List LanguageGroup) → Bool → Bool → Bool → Bool → Outcome PrDiff
unfolding compressed_diff cap_and_log_extra_lines
get_pr_diff v languages add_line_numbers disable_extra_lines large_pr_handling return_remaining =
    and_then languages λ langs.
      and_then
        (pr_generate_extended_diff (extended_task v add_line_numbers disable_extra_lines) langs)
        λ r. and_then v.limit λ limit.
          if ltb (r.0.total_tokens + soft_threshold) limit
          then returned (diff (join (codes "\n") r.0.patches_extended))
          else and_then
              (pr_generate_compressed_diff (compressed_task v add_line_numbers large_pr_handling)
                v.limit r.1)
              λ c. returned (compressed_diff v limit c large_pr_handling return_remaining)

unfoldable pub get_pr_diff_multiple_patchs :
    Env → Outcome (List LanguageGroup) → Bool → Outcome Compressed
get_pr_diff_multiple_patchs v languages add_line_numbers =
    and_then languages
      λ langs. pr_generate_compressed_diff (compressed_task v add_line_numbers true) v.limit langs
