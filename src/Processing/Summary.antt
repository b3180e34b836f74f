-- ===== src/Processing/Summary.antt =====
-- `add_ai_summary_top_patch` and `add_ai_metadata_to_diff_files`.
use pr_insight.Base.{Bool, ◌||◌, Option, none, some, List, [], ◌∷◌, ◌++◌, if◌then◌else◌, map}
use pr_insight.Base.Text.{Str, codes, starts_with, split, join, strip}
use pr_insight.Base.Dict.{Dict, lookup, insert}
use pr_insight.Patch.Types.{FilePatchInfo}

abbrev pub file_mark : Str → Bool
file_mark line = starts_with (codes "## File:") line || starts_with (codes "## file:") line

-- the lines with the summary behind the first mark, `none` if there is no mark
pub add_below_mark : Str → List Str → Option (List Str)
add_below_mark summary [] = none
add_below_mark summary (line ∷ lines) =
    if file_mark line
    then some (line ∷ (codes "### AI-generated changes summary:\n" ++ summary) ∷ lines)
    else elim (add_below_mark summary lines) [ none ↦ none | some r ↦ some (line ∷ r) ]

with_lines : Str → Option (List Str) → Str
with_lines patch none = patch
with_lines patch (some lines) = join (codes "\n") lines

-- a missing key raises inside the `try`, and the patch comes back as it was
with_summary : Str → Option Str → Str
unfolding with_lines add_below_mark
with_summary patch none = patch
with_summary patch (some summary) = with_lines patch (add_below_mark summary (split b'\n' patch))

unfoldable pub add_ai_summary_top_patch : Dict Str → Str → Str
unfolding with_summary
add_ai_summary_top_patch summary patch = with_summary patch (lookup (codes "long_summary") summary)

-- `{pr_file['full_file_name'].strip(): pr_file …}`; a file without that key raises, which the whole
-- function catches
available_files : List (Dict Str) → Dict (Dict Str) → Option (Dict (Dict Str))
available_files [] d = some d
available_files (pr_file ∷ files) d =
    let next = λ (name : Str). available_files files (insert (strip name) pr_file d) in
    elim (lookup (codes "full_file_name") pr_file) [ none ↦ none | some name ↦ next name ]

set_summary : Dict (Dict Str) → FilePatchInfo → FilePatchInfo
set_summary available file = elim (lookup (strip file.filename) available) [
  | none ↦ file
  | some pr_file ↦ record file { ai_file_summary = some pr_file }
]

-- The files with their summaries; no description file, or an exception, leaves them as they are.
unfoldable pub add_ai_metadata_to_diff_files :
    List (Dict Str) → List FilePatchInfo → List FilePatchInfo
unfolding available_files set_summary
add_ai_metadata_to_diff_files [] diff_files = diff_files
add_ai_metadata_to_diff_files (p ∷ ps) diff_files = elim (available_files (p ∷ ps) []) [
  | none ↦ diff_files
  | some available ↦ map (set_summary available) diff_files
]
