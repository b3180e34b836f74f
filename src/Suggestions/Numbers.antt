-- ===== src/Suggestions/Numbers.antt =====
-- The prompt without line numbers: `remove_line_numbers` of pr_insight/tools/pr_code_suggestions.py.
-- Digits are ASCII digits.
pub mod Removed
use pr_insight.Base.{Bool, true, false, List, [], ◌∷◌, all, map, if◌then◌else◌}
use pr_insight.Base.Text.{Str, codes, strip, strip_by, is_space, splitlines, join}
use pr_insight.Base.Text.Digits.{is_digit}

-- the line behind its number and the character that follows it
unfoldable pub after_number : Str → Str
after_number [] = []
after_number (c ∷ s) = if is_digit c then after_number s else s

abbrev starts_with_digit : Str → Bool
starts_with_digit [] = false
starts_with_digit (c ∷ s) = is_digit c

-- `line.strip()`, as a truth value
abbrev is_given : Str → Bool
is_given [] = false
is_given (c ∷ s) = true

-- one line; `isnumeric` of a text that is not empty
unfoldable pub remove_number : Str → Str
remove_number line =
    if is_given (strip line)
    then (if all is_digit line
        then []
        else if starts_with_digit line
        then after_number line
        else line)
    else line

-- one patch of the list
unfoldable pub remove_from_patch : Str → Str
remove_from_patch patch = join (codes "\n") (map remove_number (splitlines patch))

-- `remove_line_numbers`, of the patches that the object holds
unfoldable pub remove_line_numbers : List Str → List Str
remove_line_numbers patches_diff_list = map remove_from_patch patches_diff_list
