-- ===== src/Processing/Multi.antt =====
-- `get_pr_multi_diffs`: the diff split into at most `max_calls` prompts.
pub mod Calls
pub mod Prompts
use pr_insight.Base.{
  ℕ, zero, suc, ◌+◌, ◌-◌, Bool, true, false, not, ◌&&◌, ◌||◌, Option, none, some, List, [], ◌∷◌,
  ◌++◌, ltb, if◌then◌else◌,
}
use pr_insight.Base.Fail.{Outcome, returned, raised, and_then}
use pr_insight.Base.Int.{ℤ, pos, ltb_ℤ, sub_ℕ, ◌-ℤ◌, ◌+ℤ◌}
use pr_insight.Base.Text.{Str, codes, join, strip, str_eq}
use pr_insight.Patch.Types.{FilePatchInfo}
use pr_insight.Patch.Omit.{handle_patch_deletions}
use pr_insight.Patch.Numbered.{decouple_and_convert_to_hunks_with_lines_numbers}
use pr_insight.Tokens.Clip.{clip_tokens}
use pr_insight.Processing.Full.{is_text, soft_threshold}
use pr_insight.Processing.Files.{LanguageGroup, sorted_files}
use pr_insight.Processing.Extended.{Extended, pr_generate_extended_diff, plain_text}
use pr_insight.Processing.Summary.{add_ai_summary_top_patch}
use pr_insight.Processing.Diff.{Env, extended_task}

-- The variables of the loop. `stopped` says that a `break` was met.
pub record Loop : Type 0 where
  pub patches : List Str
  pub final_diff_list : List Str
  pub total_tokens : ℕ
  pub call_number : ℕ
  pub stopped : Bool

-- `x > limit - soft`
abbrev pub over : ℕ → ℕ → Bool
over limit x = ltb limit (x + soft_threshold)

pub with_summary : Env → FilePatchInfo → Str → Str
with_summary v file patch = elim file.ai_file_summary [
  | none ↦ patch
  | some [] ↦ patch
  | some (e ∷ d) ↦
      if v.settings.enable_ai_metadata then add_ai_summary_top_patch (e ∷ d) patch else patch
]

-- "Add line numbers and metadata to the patch"
pub numbered_patch : Env → Bool → FilePatchInfo → Str → Outcome Str
unfolding with_summary
numbered_patch v add_line_numbers file patch =
    and_then
      (if add_line_numbers
        then decouple_and_convert_to_hunks_with_lines_numbers patch (some file)
        else returned (plain_text file patch))
      (λ p. returned (with_summary v file p))

-- The patch as it may be sent alone: `none` where the file is skipped.
clip_large : Env → ℕ → Str → ℕ → Option Str
clip_large v limit patch tokens =
    let budget = sub_ℕ limit soft_threshold -ℤ pos v.prompt_tokens in
    let clipped = clip_tokens v.encoded v.output_chars patch budget true (some tokens) true in
    if is_text clipped && over limit (v.prompt_tokens + v.count_tokens clipped)
    then none
    else some clipped

pub fit_alone : Env → ℕ → Str → Option Str
unfolding clip_large ◌-ℤ◌
fit_alone v limit patch =
    if is_text patch && over limit (v.prompt_tokens + v.count_tokens patch)
    then if str_eq v.settings.large_patch_policy (codes "skip")
      then none
      else if str_eq v.settings.large_patch_policy (codes "clip")
      then clip_large v limit patch (v.count_tokens patch)
      else none
    else some patch

-- the prompt is full: it is closed and a new one begun, if a call is left
pub next_call : Env → ℕ → Loop → Loop
next_call v max_calls s = record {
  patches = [];
  final_diff_list = s.final_diff_list ++ join (codes "\n") s.patches ∷ [];
  total_tokens = v.prompt_tokens;
  call_number = s.call_number + 1;
  stopped = ltb max_calls (s.call_number + 1);
}

pub add_patch : Env → Loop → Str → Loop
add_patch v s [] = s
add_patch v s (c ∷ patch) = if s.stopped then s else record s {
  patches = s.patches ++ (c ∷ patch) ∷ [];
  total_tokens = s.total_tokens + v.count_tokens (c ∷ patch);
}

pub place : Env → ℕ → ℕ → Loop → Option Str → Loop
unfolding next_call add_patch
place v limit max_calls s none = s
place v limit max_calls s (some patch) =
    add_patch v
      (if is_text patch && over limit (s.total_tokens + v.count_tokens patch)
        then next_call v max_calls s
        else s)
      patch

-- a file whose patch was not dropped as a deletion
pub convert_and_place : Env → ℕ → ℕ → Bool → Loop → FilePatchInfo → Option Str → Outcome Loop
unfolding place fit_alone numbered_patch
convert_and_place v limit max_calls add_line_numbers s file none = returned s
convert_and_place v limit max_calls add_line_numbers s file (some patch) =
    and_then (numbered_patch v add_line_numbers file patch)
      (λ p. returned (place v limit max_calls s (fit_alone v limit p)))

-- One round of the loop over the sorted files.
pub round : Env → ℕ → ℕ → Bool → Loop → FilePatchInfo → Outcome Loop
unfolding convert_and_place
round v limit max_calls add_line_numbers s file =
    if ltb max_calls s.call_number
    then returned (record s { stopped = true })
    else if is_text file.patch
    then convert_and_place v limit max_calls add_line_numbers s file
        (handle_patch_deletions file.patch file.head_file file.edit_type)
    else returned s

pub run : Env → ℕ → ℕ → Bool → Loop → List FilePatchInfo → Outcome Loop
unfolding round
run v limit max_calls add_line_numbers s [] = returned s
run v limit max_calls add_line_numbers s (file ∷ files) =
    if s.stopped
    then returned s
    else and_then (round v limit max_calls add_line_numbers s file)
        λ s'. run v limit max_calls add_line_numbers s' files

abbrev pub initial : Env → Loop
initial v = record {
  patches = [];
  final_diff_list = [];
  total_tokens = v.prompt_tokens;
  call_number = 1;
  stopped = false;
}

-- "Add the last chunk"
pub last_chunk : Loop → List Str
last_chunk s = elim s.patches [
  | [] ↦ s.final_diff_list
  | p ∷ ps ↦ s.final_diff_list ++ strip (join (codes "\n") s.patches) ∷ []
]

pub full_diff : List Str → List Str
full_diff [] = []
full_diff (p ∷ ps) = join (codes "\n") (p ∷ ps) ∷ []

unfoldable pub get_pr_multi_diffs :
    Env → Outcome (List LanguageGroup) → ℕ → Bool → Outcome (List Str)
unfolding run last_chunk full_diff
get_pr_multi_diffs v languages max_calls add_line_numbers = and_then languages λ langs.
    and_then (pr_generate_extended_diff (extended_task v add_line_numbers false) langs) λ r.
      and_then v.limit λ limit.
        if ltb (r.0.total_tokens + soft_threshold) limit
        then returned (full_diff r.0.patches_extended)
        else and_then (run v limit max_calls add_line_numbers (initial v) (sorted_files r.1))
            λ s. returned (last_chunk s)
