-- ===== src/Tests/Suggestions.antt =====
-- The theorems on suggestions, applied to small texts.
use pr_insight.Base.{true, false, [], ◌∷◌, ◌≡◌, refl, none, any}
use pr_insight.Base.Int.{ℤ, pos}
use pr_insight.Base.Text.{
  str_eq, Str, contains, codes, lower_code, join, strip_by, is_space, is_break,
}
use pr_insight.Patch.Numbered.{numbered}
use pr_insight.Base.Fail.{Outcome, returned, raised, value_error}
use pr_insight.Base.Json.{
  Value, text, number, array, object, Items, nil, cons, Fields, end, field, item, truthy,
  lookup_field, set_field, is_in, same,
}
use pr_insight.Patch.Types.{FilePatchInfo, modified}
use pr_insight.Suggestions.Score.{code_of, repeats, review, is_selected, is_negative}
use pr_insight.Suggestions.Score.Repeated.{is_repeated, is_selected-review}
use pr_insight.Yaml.Load.{Reader, load_yaml}
use pr_insight.Suggestions.Prepare.{
  Settings, as_object, answer_keys, prepare_pr_code_suggestions, has_keys, soften, is_seen,
  says_const_instead, truncate_if_needed,
}
use pr_insight.Suggestions.Prepare.Valid.{HasValid, prepare_pr_code_suggestions-HasValid}
use pr_insight.Suggestions.Numbers.{remove_from_patch, remove_number}
use pr_insight.Suggestions.Numbers.Removed.{remove_from_patch-numbered}

number_alone : remove_number (codes "12") ≡ []
unfolding remove_number strip_by is_space
number_alone = refl

number_kept : remove_number (codes "+12") ≡ codes "+12"
unfolding remove_number strip_by is_space
number_kept = refl

remove_from_patch-numbered_example :
    remove_from_patch (numbered (pos 9) (codes " a" ∷ [] ∷ codes "7 b" ∷ []))
    ≡ join (codes "\n") (codes " a" ∷ [] ∷ codes "7 b" ∷ [])
unfolding is_break
remove_from_patch-numbered_example =
    remove_from_patch-numbered 9 (codes " a" ∷ [] ∷ codes "7 b" ∷ []) (refl, (refl, (refl, tt)))

abbrev summarized : Str → Fields → Value
summarized summary rest = object (
    field (codes "one_sentence_summary") (text summary) (
      field (codes "label") (text (codes "Critical bug")) (
        field (codes "relevant_file") (text (codes "f.py"))
          (field (codes "suggestion_content") (text (codes "x")) rest))))

abbrev with_code : Fields
with_code =
    field (codes "existing_code") (text (codes "a"))
      (field (codes "improved_code") (text (codes "abcd")) end)

-- a suggestion, one with an equal summary, one without code and a number
abbrev suggestions : Items
suggestions = cons (summarized (codes "s") with_code) (
    cons (summarized (codes "s") with_code)
      (cons (summarized (codes "t") end) (cons (number (pos 3)) nil)))

abbrev list_reader : Reader Value
list_reader = record {
  safe_load = λ s. returned (array suggestions);
  empty = object end;
  is_true = truthy;
  from_latin_1 = λ s. raised value_error;
  from_utf_16 = λ s. raised value_error;
}

abbrev suggestion_settings : Settings
suggestion_settings = record {
  focus_only_on_problems = true;
  max_code_suggestion_length = pos 2;
  suggestion_truncation_message = codes "cut";
}

reads_suggestions :
    item
      (codes "code_suggestions")
      (as_object (load_yaml list_reader answer_keys (strip_by is_space (codes "- a"))))
    ≡ returned (array suggestions)
unfolding load_yaml lookup_field
reads_suggestions = refl

prepare_pr_code_suggestions-HasValid_example :
    (answer : Value) × (prepare_pr_code_suggestions list_reader suggestion_settings (codes "- a")
      ≡ returned answer)
    × HasValid answer
prepare_pr_code_suggestions-HasValid_example =
    prepare_pr_code_suggestions-HasValid list_reader suggestion_settings (codes "- a") suggestions
      reads_suggestions

one_kept :
    prepare_pr_code_suggestions list_reader suggestion_settings (codes "- a")
    ≡ returned (
        object (
          field
            (codes "code_suggestions")
            (array (
              cons
                (object (
                  field (codes "one_sentence_summary") (text (codes "s")) (
                    field (codes "label") (text (codes "possible issue")) (
                      field (codes "relevant_file") (text (codes "f.py")) (
                        field (codes "suggestion_content") (text (codes "x")) (
                          field
                            (codes "existing_code")
                            (text (codes "a"))
                            (field (codes "improved_code") (text (codes "ab\ncut")) end)))))))
                nil))
            end))
unfolding prepare_pr_code_suggestions is_space load_yaml lookup_field set_field has_keys is_in
    soften lower_code is_seen says_const_instead truncate_if_needed same
one_kept = refl

abbrev done_file : FilePatchInfo
done_file = record {
  base_file = codes "x = a";
  head_file = codes "x = b";
  patch = [];
  filename = codes "f.py";
  tokens = pos 0;
  edit_type = modified;
  old_filename = none;
  num_plus_lines = pos 1;
  num_minus_lines = pos 1;
  language = none;
  ai_file_summary = none;
}

abbrev done_suggestion : Fields
done_suggestion = field (codes "relevant_file") (text (codes "f.py ")) (
    field (codes "existing_code") (text (codes " a")) (
      field (codes "improved_code") (text (codes "b"))
        (field (codes "relevant_lines_start") (number (pos 1)) end)))

abbrev best_feedback : Value
best_feedback = object (
    field (codes "suggestion_score") (number (pos 10))
      (field (codes "why") (text (codes "good")) end))

-- no text is a number
abbrev no_number : Str → Outcome ℤ
no_number t = raised value_error

reads_old : code_of (codes "existing_code") done_suggestion ≡ returned (codes "a")
unfolding code_of lookup_field is_space strip_by
reads_old = refl

reads_new : code_of (codes "improved_code") done_suggestion ≡ returned (codes "b")
unfolding code_of lookup_field is_space strip_by
reads_new = refl

reads_name : code_of (codes "relevant_file") done_suggestion ≡ returned (codes "f.py")
unfolding code_of lookup_field is_space strip_by
reads_name = refl

no_dots : contains (codes "...") (codes "a") ≡ false
unfolding contains
no_dots = refl

repeats_done : any (is_repeated (codes "a") (codes "b") (codes "f.py")) (done_file ∷ []) ≡ true
unfolding repeats is_space strip_by str_eq contains
repeats_done = refl

is_selected-review_example :
    is_selected no_number (pos 1) (review true (done_file ∷ []) best_feedback done_suggestion)
    ≡ false
is_selected-review_example =
    is_selected-review no_number (pos 1) true (done_file ∷ []) best_feedback done_suggestion
      (codes "a") (codes "b") (codes "f.py") reads_old reads_new reads_name no_dots refl
      repeats_done

-- without the files the score of the feedback counts
best_selected : is_selected no_number (pos 1) (review true [] best_feedback done_suggestion) ≡ true
unfolding is_selected review lookup_field set_field same is_space strip_by is_negative contains
best_selected = refl
