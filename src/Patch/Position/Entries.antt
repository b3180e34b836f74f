-- ===== src/Patch/Position/Entries.antt =====
-- The lines of a patch of hunks with their numbers in the new file, told apart from the loops.
use pr_insight.Base.{
  ℕ, suc, ◌+◌, true, false, not, ◌&&◌, Option, none, some, List, [], ◌∷◌, ◌++◌, ◌≡◌, refl, arith,
  ◌==◌, if◌then◌else◌,
}
use pr_insight.Base.Int.{ℤ, pos, negsuc, ◌-ℤ◌, eqb_ℤ}
use pr_insight.Base.Fail.{returned}
use pr_insight.Base.Text.{Str, codes, lstrip, contains, starts_with}
use pr_insight.Patch.Header.{match_header}
use pr_insight.Patch.Numbered.{is_minus_line, is_empty}
use pr_insight.Patch.Numbered.Shown.{Hunk, IsHunk, is_body}
use pr_insight.Patch.Position.{Count, number_of, at_header}

-- The lines of the body of a hunk with their numbers in the new file, where `next` is the number of
-- the next line that the new file has; a deleted line counts as the line before it.
abbrev pub body_entries : ℕ → List Str → List (Str × ℤ)
body_entries next [] = []
body_entries next (line ∷ lines) =
    if is_minus_line line
    then (line, pos next -ℤ pos 1) ∷ body_entries next lines
    else (line, pos next) ∷ body_entries (suc next) lines

-- The lines of a patch with their numbers; a header counts as the line before its hunk.
abbrev pub entries : List Hunk → List (Str × ℤ)
entries [] = []
entries (h ∷ hs) =
    (h.header, pos h.groups.start_new -ℤ pos 1)
    ∷ (body_entries h.groups.start_new h.body ++ entries hs)

-- Both sizes stand in the header.
abbrev pub IsSized : Hunk → Type 0
IsSized h = ((a : ℕ) × (h.groups.size_old ≡ some a)) × ((b : ℕ) × (h.groups.size_new ≡ some b))

abbrev pub first_number : ℤ → ℕ → List (Str × ℤ) → Option ℕ
first_number wanted i [] = none
first_number wanted i ((line, n) ∷ es) =
    if eqb_ℤ n wanted then some i else first_number wanted (suc i) es

-- the first line with the text that is not deleted
abbrev pub first_text : Str → ℕ → List (Str × ℤ) → Option (ℕ × ℤ)
first_text text i [] = none
first_text text i ((line, n) ∷ es) =
    if contains text line && not (is_minus_line line)
    then some (i, n)
    else first_text text (suc i) es

pub header_count :
    (h : Hunk)
    → IsSized h
    → at_header (some h.groups) ≡ returned (record { delta = 0; start2 = h.groups.start_new })
header_count h ((a, e), (b, f)) = rw (e, f)

-- what a line of a body does to the count
abbrev pub counted : Count → Str → Count
counted c line = if is_minus_line line then c else record c { delta = suc c.delta }

pub count_body :
    (c : Count) (line : Str)
    → is_body line ≡ true
    → (if starts_with (codes "@@") line
        then at_header (match_header line)
        else if not (starts_with (codes "-") line)
        then returned (record c { delta = suc c.delta })
        else returned c)
      ≡ returned (counted c line)
count_body c line h = ground (arith, h)

pub count_header :
    (c : Count) (h : Hunk)
    → IsHunk h
    → IsSized h
    → (if starts_with (codes "@@") h.header
        then at_header (match_header h.header)
        else if not (starts_with (codes "-") h.header)
        then returned (record c { delta = suc c.delta })
        else returned c)
      ≡ returned (record { delta = 0; start2 = h.groups.start_new })
count_header c h ok sized = rw (ok.opens, ok.matches) (header_count h sized)

-- the number of a line of a body, and of the line that follows it
abbrev pub line_number : ℕ → Str → ℤ
line_number next line = if is_minus_line line then pos next -ℤ pos 1 else pos next

abbrev pub next_after : ℕ → Str → ℕ
next_after next line = if is_minus_line line then next else suc next

pub number_counted :
    (c : Count) (line : Str) → number_of (counted c line) ≡ line_number (c.start2 + c.delta) line
unfolding number_of ◌-ℤ◌
number_counted c line = ground arith

pub next_counted :
    (c : Count) (line : Str)
    → (counted c line).start2 + (counted c line).delta ≡ next_after (c.start2 + c.delta) line
next_counted c line = ground arith

pub body_entries_cons :
    (next : ℕ) (line : Str) (body : List Str)
    → body_entries next (line ∷ body)
      ≡ (line, line_number next line) ∷ body_entries (next_after next line) body
body_entries_cons next line body = ground arith

-- the place of a line, or -1
abbrev pub place : Option ℕ → ℤ
place none = negsuc 0
place (some i) = pos i

abbrev pub places : Option (ℕ × ℤ) → ℤ × ℤ
places none = (negsuc 0, negsuc 0)
places (some (i, n)) = (pos i, n)

-- what stands behind a plus
abbrev pub behind_plus : List Hunk → Str → Option (ℕ × ℤ)
behind_plus hs [] = none
behind_plus hs (x ∷ text) = if x == b'+' then first_text (lstrip text) 0 (entries hs) else none

abbrev pub or_else : Option (ℕ × ℤ) → Option (ℕ × ℤ) → Option (ℕ × ℤ)
or_else none other = other
or_else (some hit) other = some hit

pub number_header : (n : ℕ) → number_of (record { delta = 0; start2 = n }) ≡ pos n -ℤ pos 1
unfolding number_of ◌-ℤ◌
number_header n = ground arith

pub no_delta : (n : ℕ) → n + 0 ≡ n
no_delta n = omega arith

pub header_given : (line : Str) → starts_with (codes "@@") line ≡ true → is_empty line ≡ false
unfolding starts_with
header_given [] h = cc
header_given (c ∷ line) h = refl
