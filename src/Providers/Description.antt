-- ===== src/Providers/Description.antt =====
-- The description of a pull request: `get_user_description` and `get_pr_description` of
-- pr_insight/git_providers/git_provider.py, and the sections that `_prepare_pr_answer` of
-- pr_insight/tools/pr_description.py writes.
pub mod Find
pub mod Cut
pub mod Written
pub mod NextHeader
use pr_insight.Base.{
  ℕ, ◌+◌, ◌-◌, ◌<◌, min, Bool, true, false, not, Option, none, some, List, [], ◌∷◌, ◌++◌, ◌&&◌,
  ◌==◌, any, length, take, drop, ltb, if◌then◌else◌,
}
use pr_insight.Base.Int.{ℤ, pos}
use pr_insight.Base.Text.{
  Str, codes, contains, starts_with, ends_with, find, lower, lower_code, strip, strip_by, is_space,
  split_text, str_eq, elem,
}
use pr_insight.Tokens.Clip.{clip_tokens}

-- `_possible_headers`
abbrev pub user_description_header : Str
user_description_header = codes "### **user description**"

abbrev pub possible_headers : List Str
possible_headers =
    user_description_header
    ∷ codes "### **pr type**"
    ∷ codes "### **pr description**"
    ∷ codes "### **pr labels**"
    ∷ codes "### **type**"
    ∷ codes "### **description**"
    ∷ codes "### **labels**"
    ∷ codes "### 🤖 generated by pr insight"
    ∷ []

unfoldable pub is_generated_by_pr_insight : Str → Bool
unfolding starts_with
is_generated_by_pr_insight description_lowercase =
    any (λ header. starts_with header description_lowercase) possible_headers

abbrev pub earlier : ℕ → Option ℕ → ℕ
earlier end_position none = end_position
earlier end_position (some i) = min end_position i

-- one round of the loop over the headers
abbrev pub nearer : Str → ℕ → Str → ℕ
nearer description_lowercase end_position header =
    if str_eq header user_description_header
    then end_position
    else earlier end_position (find header description_lowercase)

-- "try to clip at the next header"
unfoldable pub next_header : Str → List Str → ℕ → ℕ
next_header lowered [] end_position = end_position
next_header lowered (header ∷ headers) end_position =
    next_header lowered headers (nearer lowered end_position header)

-- `find(header) + len(header)`, where `find` cannot fail
abbrev after_header : Option ℕ → ℕ
after_header none = 0
after_header (some i) = i + length user_description_header

-- `description[:-3].strip()`, if it ends with a line
abbrev pub without_line : Str → Str
without_line s = if ends_with (codes "___") s then strip (take (length s - 3) s) else s

abbrev first_piece : List Str → Str
first_piece [] = []
first_piece (s ∷ pieces) = s

abbrev without_header : Str → Str
without_header s =
    if starts_with user_description_header (lower s)
    then strip (drop (length user_description_header) s)
    else s

-- the text from the header of the user's description to the next one
abbrev pub extracted : Str → ℕ → ℕ → Str
extracted description start_position end_position =
    if not (end_position == length description) && ltb start_position end_position
    then without_line
        (strip (take (end_position - start_position) (drop start_position description)))
    else without_header (strip (first_piece (split_text (codes "___") description)))

-- The user's part of a description that the program wrote, if it has one.
abbrev pub original_user_description : Str → Str → Str
original_user_description description description_lowercase =
    if contains user_description_header description_lowercase
    then extracted description (after_header (find user_description_header description_lowercase))
        (next_header description_lowercase possible_headers (length description))
    else []

-- `get_user_description`, of the description of the pull request, where nothing is stored from an
-- earlier call
unfoldable pub user_description_of : Str → Str
user_description_of full =
    let description = strip full in
    if is_generated_by_pr_insight (lower description)
    then original_user_description description (lower description)
    else description

-- `get_user_description` with the attribute `user_description`: the result, and the attribute after
-- it; a description with no part of the user is not stored
abbrev stored : Str → Option Str
stored full =
    if is_generated_by_pr_insight (lower (strip full))
      && not (contains user_description_header (lower (strip full)))
    then none
    else some (user_description_of full)

unfoldable pub get_user_description : Option Str → Str → Str × Option Str
unfolding user_description_of
get_user_description (some s) full = (s, some s)
get_user_description none full = (user_description_of full, stored full)

-- `process_description` is not modelled here; `clip` is `clip_tokens` of a text and a budget.
module _ {F : Type 0} (process_description : Str → Str × F) (clip : Str → ℕ → Str) where
  -- `max_tokens_description`, where `None` and 0 clip nothing
  abbrev clip_description : Option ℕ → Str → Str
  clip_description none s = s
  clip_description (some n) s = if n == 0 then s else clip s n

  -- `get_pr_description`, with the files if it is split
  unfoldable pub get_pr_description : Bool → Bool → Option ℕ → Option Str → Str → Str × Option F
  unfolding get_user_description
  get_pr_description full split_changes_walkthrough budget user_description pr =
      let description = if full then pr else (get_user_description user_description pr).0 in
      if split_changes_walkthrough
      then (
        clip_description budget (process_description description).0,
        some (process_description description).1,
      )
      else (clip_description budget description, none)

-- `### **{key_publish}**\n`, the value and its newline
abbrev pub section : Str → Str → Str
section key_publish value =
    codes "### **" ++ (key_publish ++ (codes "**\n" ++ (value ++ codes "\n")))

-- the sections of a published description, in order, with lines between them
unfoldable pub write_sections : List (Str × Str) → Str
write_sections [] = []
write_sections ((key, value) ∷ []) = section key value
write_sections ((key, value) ∷ (e ∷ rest)) =
    section key value ++ (codes "\n\n___\n\n" ++ write_sections (e ∷ rest))
