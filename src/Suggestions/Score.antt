-- ===== src/Suggestions/Score.antt =====
-- The scores of suggestions: `analyze_self_reflection_response`,
-- `validate_one_liner_suggestion_not_repeating_code` and the threshold of `prepare_prediction_main`
-- of pr_insight/tools/pr_code_suggestions.py, and the end of `_get_prediction`. A suggestion is a
-- dict, as Prepare keeps it when YAML gives dicts.
pub mod Repeated
use pr_insight.Base.{
  Bool, true, false, not, ◌&&◌, Option, none, some, List, [], ◌∷◌, ◌++◌, ◌==◌, length, map, select,
  if◌then◌else◌,
}
use pr_insight.Base.Int.{ℤ, pos, negsuc, max_ℤ, leb_ℤ, ltb_ℤ}
use pr_insight.Base.Text.{Str, codes, contains, strip, str_eq}
use pr_insight.Base.Fail.{
  Outcome, returned, raised, and_then, attribute_error, type_error, key_error,
}
use pr_insight.Base.Json.{
  Value, null, boolean, number, text, array, object, Fields, end, field, nil, same, set_field,
  lookup_field, has_field, item, items_of, get_default, or_else, truthy, bit,
}
use pr_insight.Patch.Types.{FilePatchInfo}
use pr_insight.Yaml.Load.{Reader, Keys, load_yaml}
use pr_insight.Suggestions.Prepare.{len_of, texts_of}

abbrev pub score_key : Str
score_key = codes "score"

abbrev pub set_score : Value → Fields → Fields
set_score v s = set_field score_key v s

-- the score 7 and no reason, when the feedback cannot be read
abbrev pub with_default : Fields → Fields
with_default s = set_field (codes "score_why") (text []) (set_score (number (pos 7)) s)

-- what follows a call that may raise, and what the handler of the exception leaves
abbrev pub attempt : {A : Type 0} → Fields → Outcome A → (A → Fields) → Fields
attempt s (returned a) f = f a
attempt s (raised e) f = s

-- `v < 0`
unfoldable pub is_negative : Value → Outcome Bool
is_negative (number n) = returned (ltb_ℤ n (pos 0))
is_negative (boolean b) = returned false
is_negative _ = raised type_error

-- `a < 0 or b < 0`
abbrev pub one_negative : Value → Value → Outcome Bool
one_negative a b = and_then (is_negative a) (λ n. if n then returned true else is_negative b)

-- the lines of the feedback
abbrev pub with_lines : Value → Value → Fields → Fields
with_lines first last s =
    let t =
      set_field (codes "relevant_lines_end") last
        (set_field (codes "relevant_lines_start") first s) in
    attempt (with_default t) (one_negative first last)
      (λ b. if b then set_score (number (pos 0)) t else t)

abbrev pub get_line : Value → Str → Outcome Value
get_line feedback k = get_default k (number (negsuc 0)) feedback

-- the lines, when the suggestion has none yet
abbrev pub if_no_lines : Value → Fields → Fields
if_no_lines feedback s =
    if has_field (codes "relevant_lines_start") s
    then s
    else attempt (with_default s) (get_line feedback (codes "relevant_lines_start")) (λ first.
      attempt (with_default s) (get_line feedback (codes "relevant_lines_end"))
        (λ last. with_lines first last s))

-- the `try` of one suggestion
unfoldable pub with_feedback : Value → Fields → Fields
with_feedback feedback s =
    attempt (with_default s) (item (codes "suggestion_score") feedback) (λ score.
      attempt (with_default (set_score score s)) (item (codes "why") feedback)
        (λ why. if_no_lines feedback (set_field (codes "score_why") why (set_score score s))))

-- `suggestion.get(k, '').strip()`
abbrev pub stripped : Option Value → Outcome Str
stripped none = returned []
stripped (some (text t)) = returned (strip t)
stripped (some _) = raised attribute_error

unfoldable pub code_of : Str → Fields → Outcome Str
code_of k s = stripped (lookup_field k s)

-- the file held the code, the pull request took it out, and has the new code already
unfoldable pub repeats : Str → Str → FilePatchInfo → Bool
repeats existing_code new_code file =
    contains existing_code file.base_file
    && not (contains existing_code file.head_file)
    && contains new_code file.head_file

abbrev pub is_missing : Str → Bool
is_missing [] = true
is_missing (c ∷ s) = false

abbrev pub is_named : Str → FilePatchInfo → Bool
is_named relevant_file file = str_eq (strip file.filename) relevant_file

-- the loop over the files; a file without head ends it
unfoldable pub check_files : Str → Str → Str → List FilePatchInfo → Fields → Fields
unfolding repeats
check_files existing_code new_code relevant_file [] s = s
check_files existing_code new_code relevant_file (file ∷ files) s =
    let here = is_named relevant_file file in
    let next =
      if here && repeats existing_code new_code file then set_score (number (pos 0)) s else s in
    let rest = check_files existing_code new_code relevant_file files next in
    if here && is_missing file.head_file then s else rest

abbrev pub or_same : Fields → Outcome Fields → Fields
or_same s (returned t) = t
or_same s (raised e) = s

-- `validate_one_liner_suggestion_not_repeating_code`, on the files of the pull request
unfoldable pub validate_one_liner : List FilePatchInfo → Fields → Fields
unfolding code_of check_files
validate_one_liner files s = or_same s (
    and_then (code_of (codes "existing_code") s) (λ existing_code.
      if contains (codes "...") existing_code
      then returned s
      else and_then (code_of (codes "improved_code") s) (λ new_code.
        and_then (code_of (codes "relevant_file") s)
          (λ relevant_file. returned (check_files existing_code new_code relevant_file files s)))))

-- one of two equal codes is cleared
abbrev pub clear_if : Bool → Bool → Fields → Fields
clear_if equal committable s =
    if not equal
    then s
    else if committable
    then set_field (codes "improved_code") (text []) s
    else set_field (codes "existing_code") (text []) s

unfoldable pub clear_equal : Bool → Fields → Fields
clear_equal committable s = attempt s (item (codes "existing_code") (object s)) (λ a.
    attempt s (item (codes "improved_code") (object s)) (λ b. clear_if (same a b) committable s))

-- one round of the loop over the suggestions
unfoldable pub review : Bool → List FilePatchInfo → Value → Fields → Fields
unfolding with_feedback validate_one_liner clear_equal
review committable files feedback s =
    clear_equal committable (validate_one_liner files (with_feedback feedback s))

unfoldable pub review_all : Bool → List FilePatchInfo → List Value → List Fields → List Fields
unfolding review
review_all committable files [] ss = ss
review_all committable files (v ∷ vs) [] = []
review_all committable files (v ∷ vs) (s ∷ ss) =
    review committable files v s ∷ review_all committable files vs ss

-- the feedback by its number; a dict has none, and raises outside the `try`
abbrev feedback_list : Value → Outcome (List Value)
feedback_list (array vs) = returned (items_of vs)
feedback_list (text t) = returned (texts_of t)
feedback_list (object d) = raised key_error
feedback_list _ = raised type_error

-- the feedback is used if there is one for each suggestion
unfoldable pub with_reflection :
    Bool → List FilePatchInfo → Value → List Fields → Outcome (List Fields)
unfolding review_all
with_reflection committable files answer ss =
    and_then (get_default (codes "code_suggestions") (array nil) answer) (λ feedback.
      if not (truthy feedback)
      then returned ss
      else and_then (len_of feedback) (λ n.
        if n == length ss
        then and_then (feedback_list feedback) (λ vs. returned (review_all committable files vs ss))
        else returned ss))

abbrev no_keys : Keys
no_keys = record { keys_fix_yaml = []; first_key = []; last_key = [] }

-- the suggestions with the scores of an answer, or with the score 7 when there is no answer
unfoldable pub scored :
    Reader Value → Bool → List FilePatchInfo → Str → List Fields → Outcome (List Fields)
unfolding with_reflection
scored r committable files [] ss = returned (map with_default ss)
scored r committable files (c ∷ response) ss =
    with_reflection committable files (load_yaml r no_keys (c ∷ response)) ss

-- `int(v)`, with `int` of a text as a parameter
abbrev int_of : (Str → Outcome ℤ) → Value → Outcome ℤ
int_of int_of_text (number n) = returned n
int_of int_of_text (boolean b) = returned (bit b)
int_of int_of_text (text t) = int_of_text t
int_of int_of_text _ = raised type_error

-- a suggestion is kept from a score of `max(1, …)` on; without a score it counts as 1
unfoldable pub is_selected : (Str → Outcome ℤ) → ℤ → Fields → Bool
is_selected int_of_text threshold s =
    elim (int_of int_of_text (or_else (number (pos 1)) (lookup_field score_key s))) [
      | returned score ↦ leb_ℤ (max_ℤ (pos 1) threshold) score
      | raised e ↦ false
    ]

-- the suggestions of all calls that are kept
unfoldable pub select_all : (Str → Outcome ℤ) → ℤ → List (List Fields) → List Fields
unfolding is_selected
select_all int_of_text threshold [] = []
select_all int_of_text threshold (ss ∷ predictions) =
    select (is_selected int_of_text threshold) ss ++ select_all int_of_text threshold predictions
