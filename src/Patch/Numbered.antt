-- ===== src/Patch/Numbered.antt =====
-- `decouple_and_convert_to_hunks_with_lines_numbers` of git_patch_processing.py.
pub mod Shown
pub mod Hunks
use pr_insight.Base.{
  ℕ, suc, Bool, true, false, not, ◌&&◌, ◌||◌, Option, none, some, List, [], ◌∷◌, ◌++◌, any,
  if◌then◌else◌,
}
use pr_insight.Base.Fail.{Outcome, returned, raised, attribute_error}
use pr_insight.Base.Int.{ℤ, pos, negsuc, ◌+ℤ◌}
use pr_insight.Base.Text.{
  Str, codes, contains, starts_with, rstrip, strip, lower, splitlines, decimal_ℤ, str_eq,
}
use pr_insight.Patch.Types.{EditType, FilePatchInfo, deleted, same_type}
use pr_insight.Patch.Header.{HunkHeader, Groups, match_header, extract_hunk_headers}

-- The variables of the loop. `matched` is the truth value of `match`.
pub record Loop : Type 0 where
  pub text : Str
  pub new_content_lines : List Str
  pub old_content_lines : List Str
  pub matched : Bool
  pub start2 : ℤ
  pub prev_header_line : Str
  pub header_line : Str

abbrev pub is_empty {ℓ} : {A : Type ℓ} → List A → Bool
is_empty [] = true
is_empty (x ∷ xs) = false

-- `for i, line_new in enumerate(new_content_lines)`, from line number `n`
unfoldable pub numbered : ℤ → List Str → Str
unfolding ◌+ℤ◌ decimal_ℤ
numbered n [] = []
numbered n (line ∷ lines) = decimal_ℤ n ++ (b' ' ∷ (line ++ (b'\n' ∷ numbered (n +ℤ pos 1) lines)))

pub unnumbered : List Str → Str
unnumbered [] = []
unnumbered (line ∷ lines) = line ++ (b'\n' ∷ unnumbered lines)

abbrev pub is_plus_line : Str → Bool
is_plus_line line = starts_with (codes "+") line

abbrev pub is_minus_line : Str → Bool
is_minus_line line = starts_with (codes "-") line

-- the sections of one hunk, appended to the text; the code stands twice in the source
pub show_hunk : Str → ℤ → List Str → List Str → Str
unfolding numbered unnumbered
show_hunk text start2 new old =
    let is_minus_lines = any is_minus_line old in
    let shown =
      if any is_plus_line new || is_minus_lines
      then rstrip text ++ (codes "\n__new hunk__\n" ++ numbered start2 new)
      else text in
    if is_minus_lines then rstrip shown ++ (codes "\n__old hunk__\n" ++ unnumbered old) else shown

-- `if prev_header_line: …`
with_header : Str → Str → Str
with_header text [] = text
with_header text (c ∷ header) = text ++ (b'\n' ∷ ((c ∷ header) ++ (b'\n' ∷ [])))

-- "found a new hunk, split the previous lines"
split_previous : Loop → Loop
unfolding with_header show_hunk
split_previous s =
    if not (is_empty s.new_content_lines) || not (is_empty s.old_content_lines)
    then record s {
      text =
          show_hunk (with_header s.text s.prev_header_line) s.start2 s.new_content_lines
            s.old_content_lines;
      new_content_lines = [];
      old_content_lines = [];
    }
    else s

-- a line that begins with "@@"; `extract_hunk_headers(None)` raises
at_header : Loop → Str → Option Groups → Outcome Loop
unfolding split_previous extract_hunk_headers
at_header s line none = raised attribute_error
at_header s line (some g) = returned (record (split_previous s) {
  matched = true;
  start2 = pos (extract_hunk_headers g).start2;
  prev_header_line = line;
  header_line = line;
})

abbrev pub no_newline_mark : Str → Bool
no_newline_mark line = contains (codes "no newline at end of file") (lower line)

-- the two tests on an empty line: the next line is a hunk header, or there is none
abbrev before_header : List Str → Bool
before_header [] = true
before_header (next ∷ rest) = starts_with (codes "@@") next

-- one round; `first` says that `line_i` is 0, and `rest` are the lines that follow
pub round : Bool → Loop → Str → List Str → Outcome Loop
unfolding at_header
round first s line rest =
    if no_newline_mark line
    then returned s
    else if starts_with (codes "@@") line
    then at_header s line (match_header line)
    else if is_plus_line line
    then returned (record s { new_content_lines = s.new_content_lines ++ line ∷ [] })
    else if is_minus_line line
    then returned (record s { old_content_lines = s.old_content_lines ++ line ∷ [] })
    else if is_empty line && not first && before_header rest
    then returned s
    else returned (record s {
      new_content_lines = s.new_content_lines ++ line ∷ [];
      old_content_lines = s.old_content_lines ++ line ∷ [];
    })

pub run : Bool → Loop → List Str → Outcome Loop
run first s [] = returned s
run first s (line ∷ rest) = elim (round first s line rest) [
  | returned s' ↦ run false s' rest
  | raised e ↦ raised e
]

-- "finishing last hunk"
pub finish : Loop → Str
unfolding show_hunk
finish s = rstrip (
    if s.matched && not (is_empty s.new_content_lines)
    then show_hunk (s.text ++ (b'\n' ∷ (s.header_line ++ (b'\n' ∷ [])))) s.start2
        s.new_content_lines s.old_content_lines
    else s.text)

abbrev pub initial : Str → Loop
initial text = record {
  text = text;
  new_content_lines = [];
  old_content_lines = [];
  matched = false;
  start2 = negsuc 0;
  prev_header_line = [];
  header_line = [];
}

pub convert_lines : Str → List Str → Outcome Str
unfolding run round finish
convert_lines text lines = elim (run true (initial text) lines) [
  | returned s ↦ returned (finish s)
  | raised e ↦ raised e
]

-- `file` is `None`, or gives its name and the kind of the edit.
unfoldable pub decouple_and_convert_to_hunks_with_lines_numbers :
    Str → Option FilePatchInfo → Outcome Str
unfolding convert_lines
decouple_and_convert_to_hunks_with_lines_numbers patch none = convert_lines [] (splitlines patch)
decouple_and_convert_to_hunks_with_lines_numbers patch (some file) =
    if same_type file.edit_type deleted
    then returned (codes "\n\n## File '" ++ (strip file.filename ++ codes "' was deleted\n"))
    else convert_lines (codes "\n\n## File: '" ++ (strip file.filename ++ codes "'\n"))
        (splitlines patch)
