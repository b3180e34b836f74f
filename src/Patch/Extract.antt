-- ===== src/Patch/Extract.antt =====
-- `extract_hunk_lines_from_patch` of git_patch_processing.py.
pub mod Selected
pub mod Left
use pr_insight.Base.{
  ℕ, suc, Bool, true, false, not, ◌&&◌, ◌||◌, Option, none, some, List, [], ◌∷◌, ◌++◌,
  if◌then◌else◌,
}
use pr_insight.Base.Fail.{Outcome, returned, raised, attribute_error}
use pr_insight.Base.Int.{ℤ, pos, negsuc, ◌+ℤ◌, leb_ℤ}
use pr_insight.Base.Text.{
  Str, codes, contains, starts_with, rstrip, strip, lower, splitlines, str_eq,
}
use pr_insight.Patch.Header.{HunkHeader, Groups, match_header, extract_hunk_headers}

-- The variables of the loop.
pub record Loop : Type 0 where
  pub text : Str
  pub selected_lines : Str
  pub skip_hunk : Bool
  pub selected_lines_num : ℕ
  pub start1 : ℤ
  pub start2 : ℤ

-- The arguments that stay the same.
pub record Query : Type 0 where
  pub line_start : ℤ
  pub line_end : ℤ
  pub side : Str

abbrev pub is_left : Query → Bool
is_left q = str_eq (lower q.side) (codes "left")

abbrev pub is_right : Query → Bool
is_right q = str_eq (lower q.side) (codes "right")

-- `lo <= x <= hi`
abbrev pub between : ℤ → ℤ → ℤ → Bool
between lo x hi = leb_ℤ lo x && leb_ℤ x hi

-- a line that begins with "@@"; `extract_hunk_headers(None)` raises
at_header : Query → Loop → Str → Option Groups → Outcome Loop
unfolding extract_hunk_headers ◌+ℤ◌
at_header q s line none = raised attribute_error
at_header q s line (some g) =
    let h = extract_hunk_headers g in
    let entered = record s {
      skip_hunk = false;
      selected_lines_num = 0;
      start1 = pos h.start1;
      start2 = pos h.start2;
    } in
    let outside =
      if is_left q
      then not (between (pos h.start1) q.line_start (pos h.start1 +ℤ pos h.size1))
      else if is_right q
      then not (between (pos h.start2) q.line_start (pos h.start2 +ℤ pos h.size2))
      else false in
    returned (
      if outside
      then record entered { skip_hunk = true }
      else record entered { text = s.text ++ (b'\n' ∷ (line ++ (b'\n' ∷ []))) })

abbrev with_newline : Str → Str
with_newline line = line ++ (b'\n' ∷ [])

-- a line of a hunk that is not skipped
pub in_hunk : Query → Loop → Str → Loop
unfolding ◌+ℤ◌
in_hunk q s line =
    let right_hit =
      is_right q && between q.line_start (s.start2 +ℤ pos s.selected_lines_num) q.line_end in
    let left_hit =
      is_left q && between s.start1 (pos s.selected_lines_num +ℤ s.start1) q.line_end in
    let after_right =
      if right_hit then s.selected_lines ++ with_newline line else s.selected_lines in
    record s {
      selected_lines = if left_hit then after_right ++ with_newline line else after_right;
      text = s.text ++ with_newline line;
      selected_lines_num =
          if not (starts_with (codes "-") line)
          then suc s.selected_lines_num
          else s.selected_lines_num;
    }

pub round : Query → Loop → Str → Outcome Loop
unfolding at_header in_hunk
round q s line =
    if contains (codes "no newline at end of file") (lower line)
    then returned s
    else if starts_with (codes "@@") line
    then at_header q s line (match_header line)
    else if not s.skip_hunk
    then returned (in_hunk q s line)
    else returned s

pub run : Query → Loop → List Str → Outcome Loop
run q s [] = returned s
run q s (line ∷ rest) = elim (round q s line) [ returned s' ↦ run q s' rest | raised e ↦ raised e ]

abbrev pub initial : Str → Loop
initial file_name = record {
  text = codes "\n\n## File: '" ++ (strip file_name ++ codes "'\n\n");
  selected_lines = [];
  skip_hunk = false;
  selected_lines_num = 0;
  start1 = negsuc 0;
  start2 = negsuc 0;
}

-- The whole body stands in a `try`: any exception gives two empty texts.
unfoldable pub extract_hunk_lines_from_patch : Str → Str → Query → Bool → Str × Str
unfolding run round
extract_hunk_lines_from_patch patch file_name q remove_trailing_chars =
    elim (run q (initial file_name) (splitlines patch)) [
      | returned s ↦
          if remove_trailing_chars
          then (rstrip s.text, rstrip s.selected_lines)
          else (s.text, s.selected_lines)
      | raised e ↦ ([], [])
    ]
