-- ===== src/Patch/Extract/Left.antt =====
-- Which lines a query on the left side selects.
use pr_insight.Base.{
  Bool, true, false, not, List, [], ◌∷◌, ◌++◌, ◌≡◌, refl, sym, ◌∙◌, arith, all, All, if◌then◌else◌,
}
use pr_insight.Base.Fail.{returned}
use pr_insight.Base.Int.{ℤ, pos, ◌+ℤ◌}
use pr_insight.Base.Text.{Str, splitlines}
use pr_insight.Patch.Header.{extract_hunk_headers}
use pr_insight.Patch.Numbered.Hunks.{Hunk, IsHunk, is_body, lines_of}
use pr_insight.Patch.Extract.{
  Loop, Query, is_left, is_right, between, in_hunk, round, run, initial,
  extract_hunk_lines_from_patch,
}
use pr_insight.Patch.Extract.Selected.{left_not_right, run-round}

abbrev pub from_line : Query → ℤ → Query
from_line q n = record q { line_start = n }

in_hunk-left :
    (q : Query) (n : ℤ) (s : Loop) (line : Str)
    → is_right q ≡ false
    → in_hunk (from_line q n) s line ≡ in_hunk q s line
unfolding in_hunk
in_hunk-left q n s line r = ground arith

abbrev pub meets_left : Query → Hunk → Bool
meets_left q h =
    let x = extract_hunk_headers h.groups in
    between (pos x.start1) q.line_start (pos x.start1 +ℤ pos x.size1)

run_body-left :
    (q : Query) (n : ℤ) (body rest : List Str) (s : Loop)
    → is_right q ≡ false
    → all is_body body ≡ true
    → ((t : Loop) → run (from_line q n) t rest ≡ run q t rest)
    → run (from_line q n) s (body ++ rest) ≡ run q s (body ++ rest)
unfolding run round
run_body-left q n [] rest s r h e = e s
run_body-left q n (line ∷ body) rest s r h e = ground (
  arith,
  in_hunk-left q n s line r,
  run_body-left q n body rest s r (ground arith) e,
  run_body-left q n body rest (in_hunk q s line) r (ground arith) e,
)

round_header-left :
    (q : Query) (n : ℤ) (s : Loop) (h : Hunk)
    → is_left q ≡ true
    → IsHunk h
    → meets_left (from_line q n) h ≡ meets_left q h
    → (s' : Loop) × (round q s h.header ≡ returned s')
      × (round (from_line q n) s h.header ≡ returned s')
unfolding round
round_header-left q n s h l ok same =
    let x = extract_hunk_headers h.groups in
    let base = record s {
      skip_hunk = not (meets_left q h);
      selected_lines_num = 0;
      start1 = pos x.start1;
      start2 = pos x.start2;
    } in
    (
      if meets_left q h
          then record base { text = s.text ++ (b'\n' ∷ (h.header ++ (b'\n' ∷ []))) }
          else base,
      ground (arith, ok.opens, ok.unmarked, ok.matches),
      ground (arith, ok.opens, ok.unmarked, ok.matches),
    )

run_hunks-left :
    (q : Query) (n : ℤ) (hs : List Hunk) (s : Loop)
    → is_left q ≡ true
    → is_right q ≡ false
    → All IsHunk hs
    → All (λ h. meets_left (from_line q n) h ≡ meets_left q h) hs
    → run (from_line q n) s (lines_of hs) ≡ run q s (lines_of hs)
run_hunks-left q n [] s l r ok same = unfold run in refl
run_hunks-left q n (h ∷ hs) s l r ok same =
    let (t, e, f) = round_header-left q n s h l ok.0 same.0 in
    run-round (from_line q n) s h.header _ f
    ∙ run_body-left q n h.body (lines_of hs) t r ok.0.lines
        (λ u. run_hunks-left q n hs u l r ok.1 same.1)
    ∙ sym (run-round q s h.header _ e)

-- On the left side the first line of the query decides only which hunks are entered: two queries
-- that enter the same hunks and end at the same line give the same two texts.
pub extract-left :
    (patch file_name : Str) (q : Query) (n : ℤ) (trim : Bool) (hs : List Hunk)
    → is_left q ≡ true
    → All IsHunk hs
    → splitlines patch ≡ lines_of hs
    → All (λ h. meets_left (from_line q n) h ≡ meets_left q h) hs
    → extract_hunk_lines_from_patch patch file_name (from_line q n) trim
      ≡ extract_hunk_lines_from_patch patch file_name q trim
unfolding extract_hunk_lines_from_patch
extract-left patch file_name q n trim hs l ok e same =
    ground (arith, e, run_hunks-left q n hs (initial file_name) l (left_not_right q l) ok same)
