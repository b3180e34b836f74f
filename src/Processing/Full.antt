-- ===== src/Processing/Full.antt =====
-- `generate_full_patch`: the patches of the files that are left, as far as the token budget goes.
pub mod Budget
pub mod Fate
use pr_insight.Base.{ℕ, ◌+◌, Bool, true, false, not, ◌&&◌, List, [], ◌∷◌, ◌++◌, ltb, if◌then◌else◌}
use pr_insight.Base.Text.{Str, codes, elem, strip}
use pr_insight.Base.Dict.{Dict}
use pr_insight.Patch.Types.{EditType}

-- an entry of `file_dict`
pub record Entry : Type 0 where
  pub patch : Str
  pub tokens : ℕ
  pub edit_type : EditType

abbrev pub soft_threshold : ℕ
soft_threshold = 1500

abbrev pub hard_threshold : ℕ
hard_threshold = 1000

-- What the function returns, and the variables of its loop.
pub record FullPatch : Type 0 where
  pub total_tokens : ℕ
  pub patches : List Str
  pub remaining_files_list_new : List Str
  pub files_in_patch_list : List Str

-- What stays the same: the arguments, and the counter of the token handler.
pub record Request : Type 0 where
  pub count_tokens : Str → ℕ
  pub prompt_tokens : ℕ
  pub convert_hunks_to_line_numbers : Bool
  pub max_tokens_model : ℕ
  pub remaining_files_list_prev : List Str

abbrev pub is_text : Str → Bool
is_text [] = false
is_text (c ∷ s) = true

-- `patch_final`
pub final_patch : Bool → Str → Str → Str
final_patch true filename patch = codes "\n\n" ++ strip patch
final_patch false filename patch =
    codes "\n\n## File: '" ++ (strip filename ++ (codes "'\n\n" ++ (strip patch ++ codes "\n")))

-- "Hard Stop, no more tokens": `total > max - hard`
abbrev pub no_more_tokens : Request → ℕ → Bool
no_more_tokens r total = ltb r.max_tokens_model (total + hard_threshold)

-- "If the patch is too large": `total + new > max - soft`
abbrev pub too_large : Request → ℕ → ℕ → Bool
too_large r total new = ltb r.max_tokens_model (total + new + soft_threshold)

-- One round of the loop over `file_dict.items()`.
pub round : Request → FullPatch → Str → Entry → FullPatch
unfolding final_patch
round r s filename e =
    if not (elem filename r.remaining_files_list_prev)
    then s
    else if no_more_tokens r s.total_tokens
    then s
    else if too_large r s.total_tokens e.tokens
    then record s { remaining_files_list_new = s.remaining_files_list_new ++ filename ∷ [] }
    else if is_text e.patch
    then (let text = final_patch r.convert_hunks_to_line_numbers filename e.patch in
        record s {
          total_tokens = s.total_tokens + r.count_tokens text;
          patches = s.patches ++ text ∷ [];
          files_in_patch_list = s.files_in_patch_list ++ filename ∷ [];
        })
    else s

pub run : Request → FullPatch → Dict Entry → FullPatch
run r s [] = s
run r s ((filename, e) ∷ files) = run r (round r s filename e) files

abbrev pub initial : Request → FullPatch
initial r = record {
  total_tokens = r.prompt_tokens;
  patches = [];
  remaining_files_list_new = [];
  files_in_patch_list = [];
}

unfoldable pub generate_full_patch : Request → Dict Entry → FullPatch
unfolding run round
generate_full_patch r file_dict = run r (initial r) file_dict
