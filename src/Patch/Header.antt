-- ===== src/Patch/Header.antt =====
-- `RE_HUNK_HEADER` and `extract_hunk_headers` of git_patch_processing.py. A digit is an ASCII digit.
use pr_insight.Base.{
  ℕ, ◌+◌, ◌-◌, ◌*◌, ◌&&◌, Bool, Option, none, some, [], ◌∷◌, leb, ◌==◌, if◌then◌else◌,
}
use pr_insight.Base.Fail.{◌>>=◌}
use pr_insight.Base.Text.{Str, codes}

-- `match.groups()` of the pattern; an optional size that is not there is `None`
pub record Groups : Type 0 where
  pub start_old : ℕ
  pub size_old : Option ℕ
  pub start_new : ℕ
  pub size_new : Option ℕ
  pub section : Str

-- a literal part of the pattern
literal : Str → Str → Option Str
literal [] s = some s
literal (c ∷ p) [] = none
literal (c ∷ p) (d ∷ s) = if c == d then literal p s else none

abbrev is_digit : ℕ → Bool
is_digit c = leb b'0' c && leb c b'9'

-- the further digits of a number, and what stands behind it
digits : ℕ → Str → ℕ × Str
digits n [] = (n, [])
digits n (c ∷ s) =
    let rest = digits (n * 10 + (c - b'0')) s in if is_digit c then rest else (n, c ∷ s)

-- `(\d+)`
number : Str → Option (ℕ × Str)
number [] = none
number (c ∷ s) = if is_digit c then some (digits (c - b'0') s) else none

-- `(?:,(\d+))?`
optional_size : Str → Option ℕ × Str
optional_size [] = (none, [])
optional_size (c ∷ s) =
    if c == b','
    then elim (number s) [ none ↦ (none, c ∷ s) | some (n, r) ↦ (some n, r) ]
    else (none, c ∷ s)

-- `[ ]?(.*)`
up_to_newline : Str → Str
up_to_newline [] = []
up_to_newline (c ∷ s) = if c == b'\n' then [] else c ∷ up_to_newline s

section_of : Str → Str
section_of [] = []
section_of (c ∷ s) = up_to_newline (if c == b' ' then s else c ∷ s)

-- `RE_HUNK_HEADER.match(line)`
unfoldable pub match_header : Str → Option Groups
unfolding literal digits number optional_size up_to_newline section_of
match_header line = do
  s ← literal (codes "@@ -") line
  (a, s) ← number s
  let (b, s) = optional_size s
  s ← literal (codes " +") s
  (c, s) ← number s
  let (d, s) = optional_size s
  s ← literal (codes " @@") s
  some (record { start_old = a; size_old = b; start_new = c; size_new = d; section = section_of s })

-- The numbers of a header, a size that is not there read as 0.
pub record HunkHeader : Type 0 where
  pub section_header : Str
  pub size1 : ℕ
  pub size2 : ℕ
  pub start1 : ℕ
  pub start2 : ℕ

or_zero : Option ℕ → ℕ
or_zero none = 0
or_zero (some n) = n

-- `extract_hunk_headers(match)`. All groups are digits then, so that `map(int, …)` does not raise.
unfoldable pub extract_hunk_headers : Groups → HunkHeader
unfolding or_zero
extract_hunk_headers g = record {
  section_header = g.section;
  size1 = or_zero g.size_old;
  size2 = or_zero g.size_new;
  start1 = g.start_old;
  start2 = g.start_new;
}
