-- ===== src/Suggestions/Numbers/Removed.antt =====
-- The numbers that Patch.Numbered puts in front of lines are removed again.
use pr_insight.Base.{
  ℕ, ◌+◌, true, false, List, [], ◌∷◌, ◌++◌, ◌≡◌, refl, ap, sym, ◌∙◌, arith, All, all, any,
  any-append, append_assoc, map,
}
use pr_insight.Base.Int.{pos, ◌+ℤ◌}
use pr_insight.Base.Text.{
  Str, codes, decimal, decimal_ℤ, is_space, is_break, strip, strip_by, lstrip_by, rstrip,
  lines_from, splitlines, join,
}
use pr_insight.Base.Text.Digits.{is_digit, IsNumber, IsNumber-all, decimal-IsNumber}
use pr_insight.Base.Text.Lines.{Unbroken, lines_from-line}
use pr_insight.Base.Text.Strip.{rstrip-stop}
use pr_insight.Patch.Numbered.{numbered}
use pr_insight.Suggestions.Numbers.{after_number, remove_number, remove_from_patch}

-- a line with its number
abbrev with_number : ℕ → Str → Str
with_number n line = decimal n ++ b' ' ∷ line

number_lines : ℕ → List Str → List Str
number_lines n [] = []
number_lines n (line ∷ lines) = with_number n line ∷ number_lines (n + 1) lines

digit_given : (c : ℕ) → is_digit c ≡ true → is_space c ≡ false
unfolding is_space
digit_given c h = ground (arith, h)

strip-given : (c : ℕ) (x : Str) → is_space c ≡ false → strip (c ∷ x) ≡ c ∷ rstrip x
unfolding strip_by lstrip_by
strip-given c x h = rw h (rstrip-stop c [] x h)

not_all : (d : Str) (line : Str) → all is_digit (d ++ b' ' ∷ line) ≡ false
not_all [] line = refl
not_all (c ∷ d) line = ground (arith, not_all d line)

after_number-space : (d line : Str) → all is_digit d ≡ true → after_number (d ++ b' ' ∷ line) ≡ line
unfolding after_number
after_number-space [] line h = refl
after_number-space (c ∷ d) line h = ground (arith, h, after_number-space d line)

remove_number_lem : (d line : Str) → IsNumber d → remove_number (d ++ b' ' ∷ line) ≡ line
unfolding remove_number after_number
remove_number_lem [] line h = elim h [ ]
remove_number_lem (c ∷ d) line (h, hs) = rw (
  strip-given c (d ++ b' ' ∷ line) (digit_given c h),
  not_all (c ∷ d) line,
  h,
  after_number-space d line hs,
)

is_digit-Unbroken : (d : Str) → all is_digit d ≡ true → any is_break d ≡ false
unfolding is_break
is_digit-Unbroken [] h = refl
is_digit-Unbroken (c ∷ d) h = ground (arith, h, is_digit-Unbroken d)

with_number-Unbroken :
    (d line : Str) → all is_digit d ≡ true → Unbroken line → Unbroken (d ++ b' ' ∷ line)
unfolding is_break
with_number-Unbroken d line h u = any-append is_break d (b' ' ∷ line) ∙ rw (is_digit-Unbroken d h) u

one_more : (n : ℕ) → pos n +ℤ pos 1 ≡ pos (n + 1)
unfolding ◌+ℤ◌
one_more n = ground arith

-- the text of the numbered lines, with its line breaks
number_text :
    (n : ℕ) (line : Str) (lines : List Str)
    → numbered (pos n) (line ∷ lines) ≡ with_number n line ++ 10 ∷ numbered (pos (n + 1)) lines
unfolding numbered decimal_ℤ
number_text n line lines =
    rw (one_more n)
      (sym (append_assoc (decimal n) (b' ' ∷ line) (10 ∷ numbered (pos (n + 1)) lines)))

numbered-lines :
    (n : ℕ) (lines : List Str)
    → All Unbroken lines
    → lines_from false (numbered (pos n) lines) ≡ number_lines n lines
unfolding lines_from numbered number_lines
numbered-lines n [] h = refl
numbered-lines n (line ∷ lines) (u, us) =
    ap (lines_from false) (number_text n line lines)
    ∙ (lines_from-line (with_number n line) (numbered (pos (n + 1)) lines)
          (with_number-Unbroken (decimal n) line (IsNumber-all (decimal n) (decimal-IsNumber n)) u)
        ∙ ap (λ (ls : List Str). with_number n line ∷ ls) (numbered-lines (n + 1) lines us))

remove_number-number_lines :
    (n : ℕ) (lines : List Str) → map remove_number (number_lines n lines) ≡ lines
unfolding number_lines
remove_number-number_lines n [] = refl
remove_number-number_lines n (line ∷ lines) = rw (
  remove_number_lem (decimal n) line (decimal-IsNumber n),
  remove_number-number_lines (n + 1) lines,
)

-- The lines of a new hunk that Patch.Numbered writes with their numbers in front, whatever the
-- first number, are given back by `remove_line_numbers` when no line has a line break in it:
-- character by character, also a line that begins with a digit or is empty.
pub remove_from_patch-numbered :
    (n : ℕ) (lines : List Str)
    → All Unbroken lines
    → remove_from_patch (numbered (pos n) lines) ≡ join (codes "\n") lines
unfolding remove_from_patch splitlines
remove_from_patch-numbered n lines h =
    ap (λ (ls : List Str). join (codes "\n") (map remove_number ls)) (numbered-lines n lines h)
    ∙ ap (join (codes "\n")) (remove_number-number_lines n lines)
