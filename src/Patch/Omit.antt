-- ===== src/Patch/Omit.antt =====
-- `omit_deletion_hunks` and `handle_patch_deletions` of git_patch_processing.py.
pub mod Kept
use pr_insight.Base.{
  Bool, true, false, not, ◌&&◌, ◌||◌, Option, none, some, List, [], ◌∷◌, ◌++◌, ◌==◌, if◌then◌else◌,
}
use pr_insight.Base.Text.{Str, codes, str_eq, starts_with, splitlines, join}
use pr_insight.Patch.Types.{EditType, deleted, unknown, same_type}
use pr_insight.Patch.Header.{match_header}

abbrev pub is_header : Str → Bool
is_header line = elim (match_header line) [ none ↦ false | some _ ↦ true ]

-- `line and line[0] == '+'`
abbrev pub is_plus : Str → Bool
is_plus [] = false
is_plus (c ∷ s) = c == b'+'

-- The variables of the loop.
pub record Loop : Type 0 where
  pub temp_hunk : List Str
  pub added_patched : List Str
  pub add_hunk : Bool
  pub inside_hunk : Bool

abbrev pub initial : Loop
initial = record { temp_hunk = []; added_patched = []; add_hunk = false; inside_hunk = false }

-- "finish previous hunk"
pub flush : Loop → Loop
flush s =
    if s.inside_hunk && s.add_hunk
    then record s {
      added_patched = s.added_patched ++ s.temp_hunk;
      temp_hunk = [];
      add_hunk = false;
    }
    else s

-- One round of the loop.
pub step : Loop → Str → Loop
unfolding flush
step s line =
    if starts_with (codes "@@") line
    then if is_header line
      then record (flush s) { temp_hunk = (flush s).temp_hunk ++ line ∷ []; inside_hunk = true }
      else s
    else record s { temp_hunk = s.temp_hunk ++ line ∷ []; add_hunk = s.add_hunk || is_plus line }

pub run : Loop → List Str → Loop
run s [] = s
run s (line ∷ lines) = run (step s line) lines

-- the lines that `'\n'.join` gets
pub finish : Loop → List Str
finish s = if s.inside_hunk && s.add_hunk then s.added_patched ++ s.temp_hunk else s.added_patched

unfoldable pub kept_lines : List Str → List Str
unfolding run step finish
kept_lines lines = finish (run initial lines)

unfoldable pub omit_deletion_hunks : List Str → Str
unfolding kept_lines
omit_deletion_hunks lines = join (codes "\n") (kept_lines lines)

-- `None` stands for a file that was deleted.
unfoldable pub handle_patch_deletions : Str → Str → EditType → Option Str
unfolding omit_deletion_hunks
handle_patch_deletions patch new_content edit_type =
    if str_eq new_content [] && (same_type edit_type deleted || same_type edit_type unknown)
    then none
    else let patch_new = omit_deletion_hunks (splitlines patch) in
      some (if not (str_eq patch patch_new) then patch_new else patch)
