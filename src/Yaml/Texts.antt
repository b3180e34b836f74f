-- ===== src/Yaml/Texts.antt =====
-- The texts that `try_fix_yaml` makes of an answer, one after the other.
use pr_insight.Base.{
  ℕ, Bool, true, false, not, Option, none, some, List, [], ◌∷◌, ◌++◌, ◌&&◌, ◌||◌, ◌-◌, ◌+◌, ◌==◌,
  map, any, all, length, drop, if◌then◌else◌,
}
use mathlib.Core.Option
use pr_insight.Base.Int.{ℤ, pos, negsuc}
use pr_insight.Base.Slice.{slice, bound}
use pr_insight.Base.Text.{
  Str, codes, contains, starts_with, ends_with, strip, strip_by, lstrip, lstrip_by, rstrip,
  rstrip_by, is_space, replace, split, join, find, rfind, remove_prefix, remove_suffix,
}

-- `s.split('\n')` and back
abbrev lines : Str → List Str
lines = split 10

abbrev unlines : List Str → Str
unlines = join (codes "\n")

abbrev keys_yaml : List Str
keys_yaml =
    codes "relevant line:"
    ∷ codes "suggestion content:"
    ∷ codes "relevant file:"
    ∷ codes "existing code:"
    ∷ codes "improved code:"
    ∷ codes "label:"
    ∷ codes "why:"
    ∷ codes "suggestion_summary:"
    ∷ []

-- the loop over the keys at one line
unfoldable pub add_pipe : List Str → Str → Str
unfolding contains replace
add_pipe [] line = line
add_pipe (key ∷ keys) line = add_pipe keys (
    if contains key line && not (contains (codes "|") line)
    then replace key (key ++ codes " |\n        ") line
    else line)

unfoldable pub with_pipes : List Str → Str → Str
unfolding add_pipe split join
with_pipes keys_fix_yaml s = unlines (map (add_pipe (keys_yaml ++ keys_fix_yaml)) (lines s))

unfoldable pub with_indents : Str → Str
unfolding replace
with_indents = replace (codes "|\n") (codes "|2\n")

-- a line of a closing bracket, moved to the right
unfoldable pub move_bracket : Str → Str
unfolding contains lstrip_by is_space
move_bracket line =
    if length line - length (lstrip line) == 2
      && not (contains (codes "|2") line)
      && contains (codes "}") line
    then codes "    " ++ lstrip line
    else line

unfoldable pub with_spaces : Str → Str
unfolding with_indents move_bracket split join
with_spaces s = unlines (map move_bracket (lines (with_indents s)))

-- The pattern "```yaml([\s\S]*?)```(?=\s*$|\")": what may follow the end of a match,
abbrev may_follow : Str → Bool
may_follow [] = true
may_follow (c ∷ s) = c == b'"' || all is_space (c ∷ s)

-- the shortest text up to an end,
unfoldable pub up_to_fence : Str → Option Str
unfolding starts_with is_space
up_to_fence [] = none
up_to_fence (c ∷ s) =
    let longer = Option.map (λ t. c ∷ t) (up_to_fence s) in
    if starts_with (codes "```") (c ∷ s) && may_follow (drop 3 (c ∷ s))
    then some (codes "```")
    else longer

-- and the first match of the pattern.
unfoldable pub snippet : Str → Option Str
unfolding up_to_fence starts_with
snippet [] = none
snippet (c ∷ s) =
    let later = snippet s in
    if starts_with (codes "```yaml") (c ∷ s)
    then elim (up_to_fence (drop 7 (c ∷ s))) [ none ↦ later | some t ↦ some (codes "```yaml" ++ t) ]
    else later

-- `snippet_text.removeprefix('```yaml').rstrip('`')`
abbrev inside : Str → Str
inside t = rstrip_by (λ c. c == b'`') (remove_prefix (codes "```yaml") t)

abbrev or_original : Str → Option Str → Option Str
or_original original (some t) = some (inside t)
or_original original none = Option.map inside (snippet original)

-- the snippet in the repaired text, or else in the original one
unfoldable pub with_snippet : Str → Str → Option Str
unfolding snippet with_spaces rstrip_by remove_prefix
with_snippet original s = or_original original (snippet (with_spaces s))

unfoldable pub without_braces : Str → Str
unfolding strip_by is_space rstrip_by remove_prefix remove_suffix
without_braces s =
    rstrip_by (λ c. c == b':' || c == 10)
      (remove_suffix (codes "}") (remove_prefix (codes "{") (rstrip (strip s))))

-- an index that `find` gives
abbrev index : Option ℕ → ℤ
index none = negsuc 0
index (some i) = pos i

abbrev or_index : Option ℕ → ℤ → ℤ
or_index none other = other
or_index (some i) other = pos i

-- `s.find(p, start)`: a negative start counts from the end
abbrev find_from : Str → ℤ → Str → Option ℕ
find_from p start s = let i = bound (length s) start in Option.map (λ k. i + k) (find p (drop i s))

abbrev some_text : Str → Option Str
some_text [] = none
some_text (c ∷ s) = some (c ∷ s)

-- the text from the first key to an empty line after the last key
abbrev between : Str → Str → Str → Option Str
between first_key last_key s =
    let index_start =
      or_index (find (codes "\n" ++ (first_key ++ codes ":")) s)
        (index (find (first_key ++ codes ":") s)) in
    let index_last_code = index (rfind (last_key ++ codes ":") s) in
    let index_end = or_index (find_from (codes "\n\n") index_last_code s) (pos (length s)) in
    some_text (
      strip (
        strip_by (λ c. c == b'`')
          (strip_by (λ c. any (◌==◌ c) (codes "```yaml")) (strip (slice index_start index_end s)))))

unfoldable pub between_keys : Str → Str → Str → Option Str
unfolding find rfind strip_by is_space
between_keys [] last_key s = none
between_keys first_key [] s = none
between_keys first_key last_key s = between first_key last_key s

abbrev without_plus : Str → Str
without_plus line = if starts_with (codes "+") line then codes " " ++ drop 1 line else line

unfoldable pub without_pluses : Str → Str
unfolding split join starts_with
without_pluses s = unlines (map without_plus (lines s))

unfoldable pub without_tabs : Str → Option Str
unfolding contains replace
without_tabs s =
    if contains (codes "\t") s then some (replace (codes "\t") (codes "    ") s) else none

-- `improve_sections + describe_sections`
abbrev sections : List Str
sections =
    codes "existing_code:"
    ∷ codes "improved_code:"
    ∷ codes "response:"
    ∷ codes "why:"
    ∷ codes "description:"
    ∷ codes "title:"
    ∷ codes "changes_diagram:"
    ∷ codes "pr_files:"
    ∷ codes "pr_ticket:"
    ∷ []

abbrev ends_section : List Str → Str → Bool
ends_section keys line =
    ends_with (codes ": |") line
    || ends_with (codes ": |-") line
    || ends_with (codes ": |2") line
    || any (λ key. ends_with key line) keys

-- the loop over the lines; the flag says that `start_line` is not -1
unfoldable pub indent_sections : List Str → Bool → List Str → List Str
unfolding contains ends_with rstrip_by is_space
indent_sections keys inside_section [] = []
indent_sections keys inside_section (line ∷ rest) =
    let line_stripped = rstrip line in
    let starts = any (λ key. contains key line_stripped) sections in
    let ends = not starts && ends_section keys line_stripped in
    (if not starts && not ends && inside_section then codes "    " ++ line else line)
    ∷ indent_sections keys (starts || (not ends && inside_section)) rest

unfoldable pub with_sections : List Str → Str → Str
unfolding indent_sections split join replace
with_sections keys_fix_yaml s =
    replace (codes " |\n") (codes " |2\n")
      (unlines (indent_sections (keys_yaml ++ keys_fix_yaml) false (lines s)))

unfoldable pub without_pipe : Str → Str
unfolding lstrip_by
without_pipe s = lstrip_by (λ c. c == b'|' || c == 10) s
