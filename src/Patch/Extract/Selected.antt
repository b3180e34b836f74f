-- ===== src/Patch/Extract/Selected.antt =====
-- Which lines a query selects.
use pr_insight.Base.{
  ℕ, suc, Bool, true, false, not, List, [], ◌∷◌, ◌++◌, ◌≡◌, refl, sym, ◌∙◌, append-nil,
  append_assoc, arith, all, All, Bool-cases, inl, inr, if◌then◌else◌,
}
use pr_insight.Base.Fail.{returned}
use pr_insight.Base.Int.{ℤ, pos, ◌+ℤ◌, int_laws}
use pr_insight.Base.Text.{Str, codes, lower, starts_with, splitlines, str_eq_iff}
use pr_insight.Patch.Header.{extract_hunk_headers}
use pr_insight.Patch.Numbered.Hunks.{Hunk, IsHunk, is_body, lines_of}
use pr_insight.Patch.Extract.{
  Loop, Query, is_left, is_right, between, in_hunk, round, run, initial,
  extract_hunk_lines_from_patch,
}

-- The lines, numbered from `n` in the new file, whose number lies from `lo` to `hi`. A deleted line
-- has the number of the line behind it.
abbrev pub chosen : ℤ → ℤ → ℤ → List Str → Str
chosen lo hi n [] = []
chosen lo hi n (line ∷ lines) =
    (if between lo n hi then line ++ (b'\n' ∷ []) else [])
    ++ chosen lo hi (if starts_with (codes "-") line then n else n +ℤ pos 1) lines

-- The hunk is one that the query's first line lies in, as the code tests it.
abbrev pub meets : Query → Hunk → Bool
meets q h =
    let x = extract_hunk_headers h.groups in
    between (pos x.start2) q.line_start (pos x.start2 +ℤ pos x.size2)

abbrev pub selection : Query → List Hunk → Str
selection q [] = []
selection q (h ∷ hs) =
    (if meets q h
      then chosen q.line_start q.line_end (pos (extract_hunk_headers h.groups).start2) h.body
      else [])
    ++ selection q hs

right_not_left : (q : Query) → is_right q ≡ true → is_left q ≡ false
right_not_left q r =
    ground
      (arith, str_eq_iff (lower q.side) (codes "left"), str_eq_iff (lower q.side) (codes "right"))

pub left_not_right : (q : Query) → is_left q ≡ true → is_right q ≡ false
left_not_right q l =
    ground
      (arith, str_eq_iff (lower q.side) (codes "left"), str_eq_iff (lower q.side) (codes "right"))

abbrev read : Query → Loop → List Str → Loop
read q s [] = s
read q s (line ∷ lines) = read q (in_hunk q s line) lines

run_body :
    (q : Query) (body rest : List Str) (s : Loop)
    → s.skip_hunk ≡ false
    → all is_body body ≡ true
    → run q s (body ++ rest) ≡ run q (read q s body) rest
unfolding run round in_hunk
run_body q [] rest s k h = refl
run_body q (line ∷ body) rest s k h = ground (arith, run_body q body rest (in_hunk q s line))

run_skipped :
    (q : Query) (body rest : List Str) (s : Loop)
    → s.skip_hunk ≡ true
    → all is_body body ≡ true
    → run q s (body ++ rest) ≡ run q s rest
unfolding run round
run_skipped q [] rest s k h = refl
run_skipped q (line ∷ body) rest s k h = ground (arith, run_skipped q body rest s)

next_number : (n : ℤ) (k : ℕ) → n +ℤ pos (suc k) ≡ n +ℤ pos k +ℤ pos 1
next_number n k = omega int_laws

selected-in_hunk :
    (q : Query) (s : Loop) (line : Str)
    → is_right q ≡ true
    → (in_hunk q s line).selected_lines
      ≡ s.selected_lines
        ++ (if between q.line_start (s.start2 +ℤ pos s.selected_lines_num) q.line_end
            then line ++ (b'\n' ∷ [])
            else [])
unfolding in_hunk
selected-in_hunk q s line r = ground (arith, right_not_left q r, append-nil s.selected_lines)

number-in_hunk :
    (q : Query) (s : Loop) (line : Str)
    → (in_hunk q s line).start2 +ℤ pos (in_hunk q s line).selected_lines_num ≡ (
        if starts_with (codes "-") line
        then s.start2 +ℤ pos s.selected_lines_num
        else s.start2 +ℤ pos s.selected_lines_num +ℤ pos 1)
unfolding in_hunk
number-in_hunk q s line = ground (arith, next_number s.start2 s.selected_lines_num)

selected-read :
    (q : Query) (body : List Str) (s : Loop)
    → is_right q ≡ true
    → (read q s body).selected_lines
      ≡ s.selected_lines
        ++ chosen q.line_start q.line_end (s.start2 +ℤ pos s.selected_lines_num) body
selected-read q [] s r = sym (append-nil s.selected_lines)
selected-read q (line ∷ body) s r =
    selected-read q body (in_hunk q s line) r
    ∙ rw (number-in_hunk q s line)
        (rw (selected-in_hunk q s line r) (append_assoc s.selected_lines _ _))

-- The state behind a header.
abbrev pub entered : Query → Loop → Hunk → Loop
entered q s h =
    let x = extract_hunk_headers h.groups in
    let base = record s {
      skip_hunk = not (meets q h);
      selected_lines_num = 0;
      start1 = pos x.start1;
      start2 = pos x.start2;
    } in
    if meets q h
    then record base { text = s.text ++ (b'\n' ∷ (h.header ++ (b'\n' ∷ []))) }
    else base

round_header :
    (q : Query) (s : Loop) (h : Hunk)
    → is_right q ≡ true
    → IsHunk h
    → round q s h.header ≡ returned (entered q s h)
unfolding round
round_header q s h r ok = ground (arith, right_not_left q r, ok.opens, ok.unmarked, ok.matches)

pub run-round :
    (q : Query) (s : Loop) (line : Str) (rest : List Str) {s' : Loop}
    → round q s line ≡ returned s'
    → run q s (line ∷ rest) ≡ run q s' rest
unfolding run
run-round q s line rest e = rw (e, run)

from_zero : (n : ℤ) → n +ℤ pos 0 ≡ n
from_zero n = omega int_laws

selection_one :
    (q : Query) (s : Loop) (h : Hunk)
    → meets q h ≡ true
    → (entered q s h).selected_lines
        ++ chosen q.line_start q.line_end
            ((entered q s h).start2 +ℤ pos (entered q s h).selected_lines_num)
            h.body
      ≡ s.selected_lines ++ selection q (h ∷ [])
selection_one q s h hit =
    rw (hit, from_zero (pos (extract_hunk_headers h.groups).start2), append-nil) refl

-- One hunk: the loop goes on from a state with the lines of it that are selected.
run_hunk :
    (q : Query) (s : Loop) (h : Hunk) (rest : List Str)
    → is_right q ≡ true
    → IsHunk h
    → (s' : Loop) × (run q s (h.header ∷ (h.body ++ rest)) ≡ run q s' rest)
      × (s'.selected_lines ≡ s.selected_lines ++ selection q (h ∷ []))
run_hunk q s h rest r ok = elim (Bool-cases (meets q h)) [
  | inl hit ↦
      let t = entered q s h in
      (
        read q t h.body,
        run-round q s h.header _ (round_header q s h r ok)
            ∙ run_body q h.body rest t (ground arith) ok.lines,
        selected-read q h.body t r ∙ selection_one q s h hit,
      )
  | inr miss ↦ (
    entered q s h,
    run-round q s h.header _ (round_header q s h r ok)
        ∙ run_skipped q h.body rest (entered q s h) (ground arith) ok.lines,
    ground (arith, append-nil s.selected_lines),
  )
]

abbrev Selects : Query → Loop → List Str → Str → Type 0
Selects q s lines text = (s' : Loop) × (run q s lines ≡ returned s') × (s'.selected_lines ≡ text)

run_hunks :
    (q : Query) (hs : List Hunk) (s : Loop)
    → is_right q ≡ true
    → All IsHunk hs
    → Selects q s (lines_of hs) (s.selected_lines ++ selection q hs)
run_hunks q [] s r ok = (s, unfold run in refl, sym (append-nil s.selected_lines))
run_hunks q (h ∷ hs) s r ok =
    let (t, e, x) = run_hunk q s h (lines_of hs) r ok.0 in
    let (u, f, y) = run_hunks q hs t r ok.1 in (u, e ∙ f, y ∙ regroup x)
  where
    regroup :
        {a : Str}
        → a ≡ s.selected_lines ++ selection q (h ∷ [])
        → a ++ selection q hs ≡ s.selected_lines ++ selection q (h ∷ hs)
    regroup e = rw (e, append_assoc, append-nil) refl

-- On the right side, with the trailing characters kept, the selected text is made, in order, of
-- exactly those lines of the hunks met by the first line of the query whose number lies in the
-- queried range: the number of a line in the new file, and for a deleted line, which has none, the
-- number of the line of the new file that follows it.
pub extract-right :
    (patch file_name : Str) (q : Query) (hs : List Hunk)
    → is_right q ≡ true
    → All IsHunk hs
    → splitlines patch ≡ lines_of hs
    → (extract_hunk_lines_from_patch patch file_name q false).1 ≡ selection q hs
unfolding extract_hunk_lines_from_patch
extract-right patch file_name q hs r ok e =
    let (s, f, x) = run_hunks q hs (initial file_name) r ok in ground (arith, e, f, x)
