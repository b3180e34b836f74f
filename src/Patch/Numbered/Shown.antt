-- ===== src/Patch/Numbered/Shown.antt =====
-- How hunks are to be shown with numbers, told apart from the code, and what the code shows.
use pr_insight.Base.{
  ℕ, ◌+◌, ◌||◌, any, Bool, true, false, not, ◌&&◌, some, List, [], ◌∷◌, ◌++◌, ◌≡◌, refl, arith,
  select, all, if◌then◌else◌,
}
use pr_insight.Base.Int.{pos, ◌+ℤ◌}
use pr_insight.Base.Text.{Str, codes, starts_with, rstrip, decimal, decimal_ℤ}
use pr_insight.Patch.Header.{Groups, match_header}
use pr_insight.Patch.Numbered.{
  is_empty, numbered, unnumbered, is_plus_line, is_minus_line, show_hunk, no_newline_mark,
}

-- A line of a hunk: no header, no end-of-file mark, not empty.
abbrev pub is_body : Str → Bool
is_body line =
    not (no_newline_mark line) && (not (starts_with (codes "@@") line) && not (is_empty line))

-- The lines that the new file has, and those that the old one had.
abbrev pub new_side : List Str → List Str
new_side = select (λ line. not (is_minus_line line))

abbrev pub old_side : List Str → List Str
old_side = select (λ line. not (is_plus_line line))

pub record Hunk : Type 0 where
  pub header : Str
  pub groups : Groups
  pub body : List Str

pub record IsHunk (h : Hunk) : Type 0 where
  pub opens : starts_with (codes "@@") h.header ≡ true
  pub unmarked : no_newline_mark h.header ≡ false
  pub matches : match_header h.header ≡ some h.groups
  pub lines : all is_body h.body ≡ true

abbrev pub lines_of : List Hunk → List Str
lines_of [] = []
lines_of (h ∷ hs) = h.header ∷ (h.body ++ lines_of hs)

-- The lines with their numbers in front, from `n` on.
abbrev pub counted : ℕ → List Str → Str
counted n [] = []
counted n (line ∷ lines) = decimal n ++ (b' ' ∷ (line ++ (b'\n' ∷ counted (n + 1) lines)))

abbrev pub listed : List Str → Str
listed [] = []
listed (line ∷ lines) = line ++ (b'\n' ∷ listed lines)

-- The header of a hunk, the lines of the new file numbered from the start that it gives when the hunk
-- changes a line, and the lines of the old file when it deletes one.
abbrev pub shown : Str → Hunk → Str
shown text h =
    let opened = text ++ (b'\n' ∷ (h.header ++ (b'\n' ∷ []))) in
    let deletes = any is_minus_line h.body in
    let new_shown =
      if any is_plus_line h.body || deletes
      then rstrip opened
        ++ (codes "\n__new hunk__\n" ++ counted h.groups.start_new (new_side h.body))
      else opened in
    if deletes
    then rstrip new_shown ++ (codes "\n__old hunk__\n" ++ listed (old_side h.body))
    else new_shown

-- A hunk is shown under its header, the last one only if the new file has a line of it.
abbrev pub render : Str → List Hunk → Str
render text [] = text
render text (h ∷ []) = if is_empty (new_side h.body) then text else shown text h
render text (h ∷ k ∷ hs) = render (if is_empty h.body then text else shown text h) (k ∷ hs)

-- the text that the code makes of a hunk
abbrev pub written : Str → Hunk → Str
written text h =
    show_hunk (text ++ (b'\n' ∷ (h.header ++ (b'\n' ∷ [])))) (pos h.groups.start_new)
      (new_side h.body) (old_side h.body)

pub plus_not_minus : (line : Str) → is_plus_line line ≡ true → is_minus_line line ≡ false
unfolding starts_with
plus_not_minus [] h = cc
plus_not_minus (c ∷ line) h = ground arith

any_new : (body : List Str) → any is_plus_line (new_side body) ≡ any is_plus_line body
any_new [] = refl
any_new (line ∷ body) = ground (arith, any_new body, plus_not_minus line)

any_old : (body : List Str) → any is_minus_line (old_side body) ≡ any is_minus_line body
any_old [] = refl
any_old (line ∷ body) = ground (arith, any_old body, plus_not_minus line)

one_more : (n : ℕ) → pos n +ℤ pos 1 ≡ pos (n + 1)
unfolding ◌+ℤ◌
one_more n = ground arith

numbered-counted : (n : ℕ) (lines : List Str) → numbered (pos n) lines ≡ counted n lines
unfolding numbered decimal_ℤ
numbered-counted n [] = refl
numbered-counted n (line ∷ lines) = rw (one_more n, numbered-counted (n + 1) lines)

unnumbered-listed : (lines : List Str) → unnumbered lines ≡ listed lines
unfolding unnumbered
unnumbered-listed [] = refl
unnumbered-listed (line ∷ lines) = rw (unnumbered-listed lines)

pub show_hunk_lem :
    (text : Str) (h : Hunk)
    → show_hunk
        (text ++ (b'\n' ∷ (h.header ++ (b'\n' ∷ []))))
        (pos h.groups.start_new)
        (new_side h.body)
        (old_side h.body)
      ≡ shown text h
unfolding show_hunk
show_hunk_lem text h = rw (
  any_new h.body,
  any_old h.body,
  numbered-counted h.groups.start_new (new_side h.body),
  unnumbered-listed (old_side h.body),
)
