-- ===== src/Processing/Compressed.antt =====
-- `pr_generate_compressed_diff`.
pub mod Kept
use pr_insight.Base.{
  ℕ, zero, suc, ◌+◌, ◌-◌, Bool, true, false, not, ◌&&◌, Option, none, some, List, [], ◌∷◌, ◌++◌,
  map, if◌then◌else◌,
}
use pr_insight.Base.Fail.{Outcome, returned, raised, and_then}
use pr_insight.Base.Int.{ℤ, pos, ◌-ℤ◌, pos_part}
use pr_insight.Base.Text.{Str, codes, elem}
use pr_insight.Base.Dict.{Dict, insert}
use pr_insight.Patch.Types.{FilePatchInfo}
use pr_insight.Patch.Omit.{handle_patch_deletions}
use pr_insight.Patch.Numbered.{decouple_and_convert_to_hunks_with_lines_numbers}
use pr_insight.Processing.Full.{Entry, FullPatch, Request, is_text, generate_full_patch}
use pr_insight.Processing.Files.{LanguageGroup, sorted_files}

-- The arguments, and what the function takes from the token handler and the settings.
pub record Task : Type 0 where
  pub count_tokens : Str → ℕ
  pub prompt_tokens : ℕ
  pub convert_hunks_to_line_numbers : Bool
  pub large_pr_handling : Bool
  pub max_ai_calls : ℤ

-- What the first loop gathers.
pub record Gathered : Type 0 where
  pub deleted_files_list : List Str
  pub file_dict : Dict Entry

add_deleted : Gathered → Str → Gathered
add_deleted g name =
    if elem name g.deleted_files_list
    then g
    else record g { deleted_files_list = g.deleted_files_list ++ name ∷ [] }

add_entry : Task → Gathered → FilePatchInfo → Str → Gathered
add_entry t g file patch = record g {
  file_dict =
      insert file.filename
        (record { patch = patch; tokens = t.count_tokens patch; edit_type = file.edit_type })
        g.file_dict;
}

-- what is kept of a patch, with line numbers if they are asked for
add_converted : Task → Gathered → FilePatchInfo → Option Str → Outcome Gathered
unfolding add_deleted add_entry
add_converted t g file none = returned (add_deleted g file.filename)
add_converted t g file (some patch) =
    if t.convert_hunks_to_line_numbers
    then and_then (decouple_and_convert_to_hunks_with_lines_numbers patch (some file))
        (λ p. returned (add_entry t g file p))
    else returned (add_entry t g file patch)

gather_file : Task → Gathered → FilePatchInfo → Outcome Gathered
unfolding add_converted
gather_file t g file =
    if is_text file.patch
    then add_converted t g file (handle_patch_deletions file.patch file.head_file file.edit_type)
    else returned g

pub gather : Task → Gathered → List FilePatchInfo → Outcome Gathered
unfolding gather_file
gather t g [] = returned g
gather t g (file ∷ files) = and_then (gather_file t g file) λ g'. gather t g' files

-- The lists of the rounds: one entry for each prompt.
pub record Rounds : Type 0 where
  pub patches_list : List (List Str)
  pub total_tokens_list : List ℕ
  pub files_in_patches_list : List (List Str)
  pub remaining_files_list : List Str

abbrev pub request : Task → ℕ → List Str → Request
request t max_tokens_model remaining = record {
  count_tokens = t.count_tokens;
  prompt_tokens = t.prompt_tokens;
  convert_hunks_to_line_numbers = t.convert_hunks_to_line_numbers;
  max_tokens_model = max_tokens_model;
  remaining_files_list_prev = remaining;
}

abbrev pub is_nonempty {ℓ} : {A : Type ℓ} → List A → Bool
is_nonempty [] = false
is_nonempty (x ∷ xs) = true

abbrev pub add_round : Rounds → FullPatch → Rounds
add_round s p = record {
  patches_list = s.patches_list ++ p.patches ∷ [];
  total_tokens_list = s.total_tokens_list ++ p.total_tokens ∷ [];
  files_in_patches_list = s.files_in_patches_list ++ p.files_in_patch_list ∷ [];
  remaining_files_list = p.remaining_files_list_new;
}

-- "additional iterations (if needed)"
pub next_round : Task → Dict Entry → ℕ → Rounds → Rounds
next_round t file_dict limit s =
    let p = generate_full_patch (request t limit s.remaining_files_list) file_dict in
    if is_nonempty p.patches
    then add_round s p
    else record s { remaining_files_list = p.remaining_files_list_new }

pub more_rounds : Task → Dict Entry → ℕ → ℕ → Rounds → Rounds
unfolding next_round
more_rounds t file_dict limit zero s = s
more_rounds t file_dict limit (suc n) s =
    if is_nonempty s.remaining_files_list
    then more_rounds t file_dict limit n (next_round t file_dict limit s)
    else s

abbrev pub no_rounds : Rounds
no_rounds = record {
  patches_list = [];
  total_tokens_list = [];
  files_in_patches_list = [];
  remaining_files_list = [];
}

pub first_round : Task → Dict Entry → ℕ → List Str → Rounds
first_round t file_dict limit names =
    add_round no_rounds (generate_full_patch (request t limit names) file_dict)

-- `range(NUMBER_OF_ALLOWED_ITERATIONS-1)`, where one of `max_ai_calls` is kept for the summary
pub all_rounds : Task → Dict Entry → ℕ → List Str → Rounds
unfolding first_round more_rounds ◌-ℤ◌
all_rounds t file_dict limit names =
    let s = first_round t file_dict limit names in
    if t.large_pr_handling
    then more_rounds t file_dict limit (pos_part (t.max_ai_calls -ℤ pos 2)) s
    else s

-- What the function returns.
pub record Compressed : Type 0 where
  pub rounds : Rounds
  pub gathered : Gathered

-- `limit` is `get_max_tokens(model)`, which may raise.
unfoldable pub pr_generate_compressed_diff :
    Task → Outcome ℕ → List LanguageGroup → Outcome Compressed
unfolding gather all_rounds
pr_generate_compressed_diff t limit top_langs =
    let files = sorted_files top_langs in
    and_then (gather t (record { deleted_files_list = []; file_dict = [] }) files) λ g.
      and_then limit λ n. returned (record {
        rounds = all_rounds t g.file_dict n (map (λ file. file.filename) files);
        gathered = g;
      })
