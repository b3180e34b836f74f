-- ===== src/Patch/Position.antt =====
-- `find_line_number_of_relevant_line_in_file` of pr_insight/algo/patch_utils.py. The patch of a file is
-- a text here; for `None` the code raises.
pub mod Entries
pub mod Loops
pub mod Found
use pr_insight.Base.{
  ℕ, suc, ◌+◌, Bool, true, false, not, ◌&&◌, Option, none, some, List, [], ◌∷◌, ◌==◌, if◌then◌else◌,
}
use pr_insight.Base.Int.{ℤ, pos, negsuc, ◌-ℤ◌, eqb_ℤ}
use pr_insight.Base.Fail.{
  Outcome, returned, raised, and_then, attribute_error, type_error, index_error,
}
use pr_insight.Base.Text.{
  Str, codes, contains, starts_with, strip, strip_by, lstrip, lstrip_by, is_space, splitlines,
  str_eq,
}
use pr_insight.Patch.Header.{Groups, match_header}
use pr_insight.Patch.Types.{FilePatchInfo}

-- The variables `delta` and `start2` of the loops.
pub record Count : Type 0 where
  pub delta : ℕ
  pub start2 : ℕ

-- `absolute_position_curr`
unfoldable pub number_of : Count → ℤ
unfolding ◌-ℤ◌
number_of c = pos (c.start2 + c.delta) -ℤ pos 1

-- `map(int, match.groups()[:4])`, where a size that is not there is no number
abbrev pub at_header : Option Groups → Outcome Count
at_header none = raised attribute_error
at_header (some g) = elim g.size_old [
  | none ↦ raised type_error
  | some a ↦ elim g.size_new [
    | none ↦ raised type_error
    | some b ↦ returned (record { delta = 0; start2 = g.start_new })
  ]
]

-- How a search by text ends: at a line with its index and its number, or without one.
pub record Walk : Type 0 where
  pub hit : Option (ℕ × ℤ)
  pub count : Count

-- "matching absolute to relative": the index of the first line with the number
unfoldable pub number_loop : ℤ → ℕ → Count → List Str → Outcome (Option ℕ)
unfolding match_header starts_with number_of
number_loop wanted i c [] = returned none
number_loop wanted i c (line ∷ lines) =
    and_then
      (if starts_with (codes "@@") line
        then at_header (match_header line)
        else if not (starts_with (codes "-") line)
        then returned (record c { delta = suc c.delta })
        else returned c)
      (λ c'.
        if eqb_ℤ (number_of c') wanted
        then returned (some i)
        else number_loop wanted (suc i) c' lines)

-- `text in line and line[0] != '-'`
abbrev pub not_deleted : Str → Outcome Bool
not_deleted [] = raised index_error
not_deleted (c ∷ line) = returned (not (c == b'-'))

-- the search for the relevant line
unfoldable pub line_loop : Str → ℕ → Count → List Str → Outcome Walk
unfolding match_header starts_with number_of contains
line_loop relevant_line i c [] = returned (record { hit = none; count = c })
line_loop relevant_line i c (line ∷ lines) =
    and_then
      (if starts_with (codes "@@") line
        then at_header (match_header line)
        else if not (starts_with (codes "-") line)
        then returned (record c { delta = suc c.delta })
        else returned c)
      (λ c'.
        and_then (if contains relevant_line line then not_deleted line else returned false) (λ here.
          if here
          then returned (record { hit = some (i, number_of c'); count = c' })
          else line_loop relevant_line (suc i) c' lines))

-- the search for the relevant line without its plus; the variables are not reset before it
unfoldable pub no_plus_loop : Str → ℕ → Count → List Str → Outcome (Option (ℕ × ℤ))
unfolding match_header starts_with number_of contains
no_plus_loop no_plus_line i c [] = returned none
no_plus_loop no_plus_line i c (line ∷ lines) =
    and_then
      (if starts_with (codes "@@") line
        then at_header (match_header line)
        else if not (starts_with (codes "-") line)
        then returned (record c { delta = suc c.delta })
        else returned c)
      (λ c'.
        and_then (if contains no_plus_line line then not_deleted line else returned false) (λ here.
          if here
          then returned (some (i, number_of c'))
          else no_plus_loop no_plus_line (suc i) c' lines))

-- The variables that stay from one file to the next.
pub record Search : Type 0 where
  pub position : ℤ
  pub absolute_position : ℤ
  pub relevant_line : Str

abbrev pub start : Count
start = record { delta = 0; start2 = 0 }

abbrev pub set_position : Search → Option ℕ → Search
set_position s none = s
set_position s (some i) = record s { position = pos i }

abbrev pub set_both : Search → Option (ℕ × ℤ) → Search
set_both s none = s
set_both s (some (i, a)) = record s { position = pos i; absolute_position = a }

unfoldable pub by_number : Search → List Str → Outcome Search
unfolding number_loop
by_number s lines =
    and_then (number_loop s.absolute_position 0 start lines) (λ o. returned (set_position s o))

-- the second search by text, for a line that begins with '+'
abbrev pub without_plus : Search → Count → List Str → Str → Outcome Search
without_plus s c lines [] = returned s
without_plus s c lines (x ∷ line) =
    if eqb_ℤ s.position (negsuc 0) && x == b'+'
    then and_then (no_plus_loop (lstrip line) 0 c lines) (λ o. returned (set_both s o))
    else returned s

unfoldable pub by_text : Search → List Str → Outcome Search
unfolding line_loop no_plus_loop lstrip_by is_space
by_text s lines =
    and_then (line_loop s.relevant_line 0 start lines)
      (λ w. without_plus (set_both s w.hit) w.count lines s.relevant_line)

-- the one close match, if there is exactly one and it begins with '+'
abbrev pub closest : Str → List Str → Str
closest line [] = line
closest line (m ∷ []) = if starts_with (codes "+") m then m else line
closest line (m ∷ n ∷ ms) = line

-- `close` is `difflib.get_close_matches(…, n=3, cutoff=0.93)`, which is not code of the repository.
module _ (close : Str → List Str → List Str) (relevant_file : Str) where
  abbrev pub in_lines : Search → List Str → Outcome Search
  in_lines s lines =
      if not (eqb_ℤ s.absolute_position (negsuc 0))
      then by_number s lines
      else by_text
          (record s { relevant_line = closest s.relevant_line (close s.relevant_line lines) }) lines

  abbrev pub is_wanted : Str → Bool
  is_wanted [] = false
  is_wanted (c ∷ name) = str_eq (strip (c ∷ name)) relevant_file

  -- the loop over the files
  unfoldable pub search_files : Search → List FilePatchInfo → Outcome Search
  unfolding by_number by_text splitlines strip_by is_space
  search_files s [] = returned s
  search_files s (file ∷ files) =
      if is_wanted file.filename
      then and_then (in_lines s (splitlines file.patch)) (λ s'. search_files s' files)
      else search_files s files

  abbrev pub given : Option ℤ → ℤ
  given none = negsuc 0
  given (some n) = n

  unfoldable pub find_line_number_of_relevant_line_in_file :
      List FilePatchInfo → Str → Option ℤ → Outcome (ℤ × ℤ)
  unfolding search_files
  find_line_number_of_relevant_line_in_file diff_files relevant_line absolute_position =
      and_then
        (search_files
          (record {
            position = negsuc 0;
            absolute_position = given absolute_position;
            relevant_line = relevant_line;
          })
          diff_files)
        (λ s. returned (s.position, s.absolute_position))
