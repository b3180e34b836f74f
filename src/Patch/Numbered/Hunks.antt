-- ===== src/Patch/Numbered/Hunks.antt =====
-- The numbered form of a whole patch, hunk by hunk.
use pr_insight.Base.{
  ℕ, suc, Bool, true, false, ◌&&◌, List, [], ◌∷◌, ◌++◌, ◌≡◌, refl, ap, ◌∙◌, append-nil,
  append_assoc, arith, length, all, All, if◌then◌else◌,
}
use pr_insight.Base.Fail.{Outcome, returned, raised}
use pr_insight.Base.Int.{ℤ, pos, ◌+ℤ◌, int_laws}
use pr_insight.Base.Text.{Str, codes, starts_with, rstrip}
use pr_insight.Patch.Numbered.{Loop, is_empty, numbered, round, run, finish, initial, convert_lines}
pub use pr_insight.Patch.Numbered.Shown.{
  is_body, new_side, old_side, Hunk, IsHunk, lines_of, counted, listed, shown, render,
}
use pr_insight.Patch.Numbered.Shown.{plus_not_minus, written, show_hunk_lem}

module _ (s : Loop) where
  abbrev read : List Str → Loop
  read body = record s {
    new_content_lines = s.new_content_lines ++ new_side body;
    old_content_lines = s.old_content_lines ++ old_side body;
  }

round_body :
    (s : Loop) (line : Str) (rest : List Str)
    → is_body line ≡ true
    → round false s line rest ≡ returned (read s (line ∷ []))
unfolding round
round_body s line rest h =
    ground
      (arith, plus_not_minus line, append-nil s.new_content_lines, append-nil s.old_content_lines)

read_nil : (s : Loop) → s ≡ read s []
read_nil s = ground (arith, append-nil s.new_content_lines, append-nil s.old_content_lines)

read_cons :
    (s : Loop) (line : Str) (body : List Str)
    → read (read s (line ∷ [])) body ≡ read s (line ∷ body)
read_cons s line body = ground (
  arith,
  append_assoc s.new_content_lines (line ∷ []) (new_side body),
  append_assoc s.old_content_lines (line ∷ []) (old_side body),
  append-nil s.new_content_lines,
  append-nil s.old_content_lines,
)

run-round :
    (first : Bool) (s : Loop) (line : Str) (rest : List Str) {s' : Loop}
    → round first s line rest ≡ returned s'
    → run first s (line ∷ rest) ≡ run false s' rest
unfolding run
run-round first s line rest e = rw (e, run)

run_body :
    (body rest : List Str) (s : Loop)
    → all is_body body ≡ true
    → run false s (body ++ rest) ≡ run false (read s body) rest
run_body [] rest s h = ap (λ t. run false t rest) (read_nil s)
run_body (line ∷ body) rest s h =
    run-round false s line (body ++ rest) (round_body s line (body ++ rest) (ground arith))
    ∙ run_body body rest (read s (line ∷ [])) (ground arith)
    ∙ ap (λ t. run false t rest) (read_cons s line body)

sides_empty :
    (body : List Str) → (is_empty (new_side body) && is_empty (old_side body)) ≡ is_empty body
sides_empty [] = refl
sides_empty (line ∷ body) = ground (arith, plus_not_minus line)

-- The state behind a header, before the lines of its hunk.
abbrev opened : Str → Hunk → Loop
opened text h = record {
  text = text;
  new_content_lines = [];
  old_content_lines = [];
  matched = true;
  start2 = pos h.groups.start_new;
  prev_header_line = h.header;
  header_line = h.header;
}

round_first :
    (text : Str) (h : Hunk) (rest : List Str)
    → IsHunk h
    → round true (initial text) h.header rest ≡ returned (opened text h)
unfolding round
round_first text h rest ok = ground (arith, ok.opens, ok.unmarked, ok.matches)

not_empty :
    (line : Str) → starts_with (codes "@@") line ≡ true → (c : ℕ) × (r : Str) × (line ≡ c ∷ r)
unfolding starts_with
not_empty [] h = cc
not_empty (c ∷ r) h = (c, r, refl)

round-written :
    (text : Str) (h k : Hunk) (rest : List Str)
    → IsHunk h
    → IsHunk k
    → round false (read (opened text h) h.body) k.header rest
      ≡ returned (opened (if is_empty h.body then text else written text h) k)
unfolding round
round-written text h k rest ok next =
    let (c, r, e) = not_empty h.header ok.opens in
    ground (arith, next.opens, next.unmarked, next.matches, sides_empty h.body, e)

round_next :
    (text : Str) (h k : Hunk) (rest : List Str)
    → IsHunk h
    → IsHunk k
    → round false (read (opened text h) h.body) k.header rest
      ≡ returned (opened (if is_empty h.body then text else shown text h) k)
round_next text h k rest ok next =
    round-written text h k rest ok next
    ∙ ap (λ (u : Str). returned (opened (if is_empty h.body then text else u) k))
        (show_hunk_lem text h)

finish-written :
    (text : Str) (h : Hunk)
    → finish (read (opened text h) h.body)
      ≡ rstrip (if is_empty (new_side h.body) then text else written text h)
unfolding finish
finish-written text h = ground arith

finish_last :
    (text : Str) (h : Hunk) → finish (read (opened text h) h.body) ≡ rstrip (render text (h ∷ []))
finish_last text h =
    finish-written text h
    ∙ ap (λ (u : Str). rstrip (if is_empty (new_side h.body) then text else u))
        (show_hunk_lem text h)

abbrev conclude : Outcome Loop → Outcome Str
conclude r = elim r [ returned s ↦ returned (finish s) | raised e ↦ raised e ]

run_hunks :
    (hs : List Hunk) (text : Str) (h : Hunk)
    → IsHunk h
    → All IsHunk hs
    → conclude (run false (read (opened text h) h.body) (lines_of hs))
      ≡ returned (rstrip (render text (h ∷ hs)))
unfolding run
run_hunks [] text h ok all_ok = ap returned (finish_last text h)
run_hunks (k ∷ hs) text h ok all_ok =
    ap conclude (
      run-round false _ k.header _ (round_next text h k (k.body ++ lines_of hs) ok all_ok.0)
      ∙ run_body k.body (lines_of hs) _ all_ok.0.lines)
    ∙ run_hunks hs (if is_empty h.body then text else shown text h) k all_ok.0 all_ok.1

-- Converting a patch that is a list of hunks shows each hunk under its header: if it changes a line,
-- the lines of the new file, numbered one by one from the start that the header gives, and, if it
-- deletes a line, the lines of the old file. A hunk that is not last is left out only when it has no
-- line, the last one when the new file has no line of it.
pub convert_lines-hunks :
    (text : Str) (h : Hunk) (hs : List Hunk)
    → IsHunk h
    → All IsHunk hs
    → convert_lines text (lines_of (h ∷ hs)) ≡ returned (rstrip (render text (h ∷ hs)))
unfolding convert_lines
convert_lines-hunks text h hs ok all_ok =
    ap conclude (
      run-round true _ h.header _ (round_first text h (h.body ++ lines_of hs) ok)
      ∙ run_body h.body (lines_of hs) (opened text h) ok.lines)
    ∙ run_hunks hs text h ok all_ok

-- Hunks as they are shown where another hunk follows.
abbrev pub render_inner : Str → List Hunk → Str
render_inner text [] = text
render_inner text (h ∷ hs) = render_inner (if is_empty h.body then text else shown text h) hs

render-last :
    (hs : List Hunk) (text : Str) (last : Hunk)
    → is_empty (new_side last.body) ≡ true
    → render text (hs ++ last ∷ []) ≡ render_inner text hs
render-last [] text last h = ground arith
render-last (k ∷ []) text last h = ground arith
render-last (k ∷ l ∷ hs) text last h = render-last (l ∷ hs) _ last h

-- A last hunk that only deletes lines is not shown: the text is that of the hunks before it.
pub convert_lines-last_deletions :
    (text : Str) (h : Hunk) (hs : List Hunk) (last : Hunk)
    → IsHunk h
    → All IsHunk (hs ++ last ∷ [])
    → is_empty (new_side last.body) ≡ true
    → convert_lines text (lines_of (h ∷ (hs ++ last ∷ [])))
      ≡ returned (rstrip (render_inner text (h ∷ hs)))
convert_lines-last_deletions text h hs last ok all_ok e =
    convert_lines-hunks text h (hs ++ last ∷ []) ok all_ok
    ∙ ap (λ t. returned (rstrip t)) (render-last (h ∷ hs) text last e)

+ℤ-zero : (n : ℤ) → n ≡ n +ℤ pos 0
+ℤ-zero n = omega int_laws

+ℤ-suc : (n : ℤ) (k : ℕ) → n +ℤ pos 1 +ℤ pos k ≡ n +ℤ pos (suc k)
+ℤ-suc n k = omega int_laws

-- Numbering is consecutive: what stands behind `xs` is numbered from `n` plus the length of `xs`.
pub numbered-append :
    (xs ys : List Str) (n : ℤ)
    → numbered n (xs ++ ys) ≡ numbered n xs ++ numbered (n +ℤ pos (length xs)) ys
unfolding numbered
numbered-append [] ys n = ap (λ m. numbered m ys) (+ℤ-zero n)
numbered-append (x ∷ xs) ys n =
    simp (numbered-append xs ys, append_assoc) (rw (+ℤ-suc n (length xs)))
