-- ===== src/Tests/Patches.antt =====
-- The theorems on patches, applied to small patches.
use pr_insight.Base.{true, false, none, some, List, [], ◌∷◌, ◌++◌, ◌≡◌, refl, arith, any, select}
use pr_insight.Base.Fail.{returned}
use pr_insight.Patch.Types.{FilePatchInfo, modified}
use pr_insight.Patch.Position.Entries.{entries, first_number, place}
use pr_insight.Base.Int.{pos, ◌-ℤ◌}
use pr_insight.Base.Text.{Str, codes, starts_with, contains, splitlines, rstrip, str_eq, lower_code}
use pr_insight.Patch.Header.{HunkHeader, match_header}
use pr_insight.Patch.Omit.{is_plus, kept_lines}
use pr_insight.Patch.Omit.Kept.{is_kept, opens_hunk, kept_lines_all}
use pr_insight.Patch.Numbered.{convert_lines, is_empty}
use pr_insight.Patch.Numbered.Hunks.{
  Hunk, IsHunk, lines_of, render, new_side, convert_lines-hunks, convert_lines-last_deletions,
  render_inner,
}
use pr_insight.Patch.Extract.{Query, is_right, extract_hunk_lines_from_patch}
use pr_insight.Patch.Extract.Selected.{selection, extract-right}
use pr_insight.Patch.Extend.{File, hunk_context}
use pr_insight.Patch.Extend.Context.{Fits, Accounts}
use pr_insight.Patch.Extend.Sides.{BeginsIn, AccountsNew, hunk_context-AccountsNew}

abbrev first_hunk : Hunk
first_hunk = record {
  header = codes "@@ -1,2 +1,3 @@ def f";
  groups = record {
    start_old = 1;
    size_old = some 2;
    start_new = 1;
    size_new = some 3;
    section = codes "def f";
  };
  body = codes " a" ∷ codes "+b" ∷ codes " c" ∷ [];
}

abbrev last_hunk : Hunk
last_hunk = record {
  header = codes "@@ -9,2 +10 @@";
  groups = record {
    start_old = 9;
    size_old = some 2;
    start_new = 10;
    size_new = none;
    section = [];
  };
  body = codes "-x" ∷ codes "-y" ∷ [];
}

first_hunk-IsHunk : IsHunk first_hunk
unfolding starts_with match_header contains lower_code
first_hunk-IsHunk = record { opens = refl; unmarked = refl; matches = refl; lines = refl }

last_hunk-IsHunk : IsHunk last_hunk
unfolding starts_with match_header contains lower_code
last_hunk-IsHunk = record { opens = refl; unmarked = refl; matches = refl; lines = refl }

abbrev patch_lines : List Str
patch_lines = lines_of (first_hunk ∷ last_hunk ∷ [])

last_hunk_opens : opens_hunk last_hunk.header ≡ true
unfolding starts_with match_header
last_hunk_opens = refl

first_hunk_opens : opens_hunk first_hunk.header ≡ true
unfolding starts_with match_header
first_hunk_opens = refl

no_header_in_first : any (starts_with (codes "@@")) first_hunk.body ≡ false
unfolding starts_with
no_header_in_first = refl

plus_in_first : any is_plus first_hunk.body ≡ true
unfolding starts_with
plus_in_first = refl

kept_lines_all_example :
    kept_lines (lines_of (last_hunk ∷ []) ++ first_hunk.header ∷ first_hunk.body)
    ≡ select is_kept (lines_of (last_hunk ∷ []) ++ first_hunk.header ∷ first_hunk.body)
kept_lines_all_example =
    kept_lines_all (lines_of (last_hunk ∷ [])) first_hunk.header first_hunk.body first_hunk_opens
      no_header_in_first plus_in_first

no_plus_in_last : any is_plus (lines_of (last_hunk ∷ [])) ≡ false
unfolding starts_with
no_plus_in_last = refl

convert_lines-hunks_example :
    convert_lines (codes "## File: 'f.py'\n") (lines_of (first_hunk ∷ last_hunk ∷ []))
    ≡ returned (rstrip (render (codes "## File: 'f.py'\n") (first_hunk ∷ last_hunk ∷ [])))
convert_lines-hunks_example =
    convert_lines-hunks (codes "## File: 'f.py'\n") first_hunk (last_hunk ∷ []) first_hunk-IsHunk
      (last_hunk-IsHunk, tt)

no_new_line_in_last : is_empty (new_side last_hunk.body) ≡ true
unfolding starts_with
no_new_line_in_last = refl

convert_lines-last_deletions_example :
    convert_lines (codes "## File: 'f.py'\n") (lines_of (first_hunk ∷ last_hunk ∷ []))
    ≡ returned (rstrip (render_inner (codes "## File: 'f.py'\n") (first_hunk ∷ [])))
convert_lines-last_deletions_example =
    convert_lines-last_deletions (codes "## File: 'f.py'\n") first_hunk [] last_hunk
      first_hunk-IsHunk (last_hunk-IsHunk, tt) no_new_line_in_last

abbrev patch_text : Str
patch_text = codes "@@ -1,2 +1,3 @@ def f\n a\n+b\n c\n@@ -9,2 +10 @@\n-x\n-y"

patch_text_lines : splitlines patch_text ≡ lines_of (first_hunk ∷ last_hunk ∷ [])
unfolding splitlines
patch_text_lines = refl

abbrev right_query : Query
right_query = record { line_start = pos 2; line_end = pos 3; side = codes "RIGHT" }

right_query_side : is_right right_query ≡ true
unfolding str_eq lower_code
right_query_side = refl

extract-right_example :
    (extract_hunk_lines_from_patch patch_text (codes "f.py") right_query false).1
    ≡ selection right_query (first_hunk ∷ last_hunk ∷ [])
extract-right_example =
    extract-right patch_text (codes "f.py") right_query (first_hunk ∷ last_hunk ∷ [])
      right_query_side (first_hunk-IsHunk, (last_hunk-IsHunk, tt)) patch_text_lines

abbrev small_file : File
small_file = record {
  original_lines = codes "u" ∷ codes "v" ∷ codes "w" ∷ codes "x" ∷ codes "y" ∷ codes "z" ∷ [];
  new_lines = codes "u" ∷ codes "v" ∷ codes "w" ∷ codes "X" ∷ codes "y" ∷ codes "z" ∷ [];
  extra_before = pos 2;
  extra_after = pos 1;
  dynamic = true;
  dynamic_before = pos 3;
}

abbrev small_header : HunkHeader
small_header = record { section_header = codes "v"; size1 = 1; size2 = 1; start1 = 4; start2 = 4 }

small_header-Fits : Fits 6 small_header
small_header-Fits = record { from_one = omega arith; in_file = omega arith }

small_header-BeginsIn : BeginsIn 6 small_header
small_header-BeginsIn = record { from_one = omega arith; in_file = omega arith }

hunk_context-AccountsNew_example :
    Accounts 6 1 small_header
      (hunk_context small_file small_header true).0
      (hunk_context small_file small_header true).2
    × AccountsNew 6 1 small_header
        (hunk_context small_file small_header true).0
        (hunk_context small_file small_header true).2
hunk_context-AccountsNew_example =
    hunk_context-AccountsNew small_file small_header 1 2 3 small_header-Fits small_header-BeginsIn
      (omega arith) refl refl refl true

abbrev one_file : FilePatchInfo
one_file = record {
  base_file = [];
  head_file = [];
  patch = codes "@@ -1,2 +1,3 @@ def f\n a\n+b\n c";
  filename = codes "f.py ";
  tokens = pos 0;
  edit_type = modified;
  old_filename = none;
  num_plus_lines = pos 1;
  num_minus_lines = pos 0;
  language = none;
  ai_file_summary = none;
}

abbrev none_close : Str → List Str → List Str
none_close line lines = []

third_line : place (first_number (pos 3) 0 (entries (first_hunk ∷ []))) ≡ pos 3
unfolding starts_with ◌-ℤ◌
third_line = refl
