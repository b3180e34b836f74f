-- ===== src/Suggestions/Prepare.antt =====
-- Which suggestions of an answer are kept: `_prepare_pr_code_suggestions` and
-- `_truncate_if_needed` of pr_insight/tools/pr_code_suggestions.py.
pub mod Keeps
pub mod Valid
use pr_insight.Base.{
  ℕ, zero, suc, Bool, true, false, List, [], ◌∷◌, ◌++◌, length, take, if◌then◌else◌,
}
use pr_insight.Base.Int.{ℤ, pos, pos_part, ltb_ℤ}
use pr_insight.Base.Text.{Str, codes, contains, lower, strip}
use pr_insight.Base.Fail.{Outcome, returned, raised, and_then, attribute_error, type_error}
use pr_insight.Base.Json.{
  Value, null, boolean, number, text, array, object, Items, nil, cons, Fields, end, field, same,
  set_field, set_item, count_fields, is_in, item, items_of,
}
use pr_insight.Yaml.Load.{Reader, Keys, load_yaml}

-- the settings of the section `pr_code_suggestions`
pub record Settings : Type 0 where
  pub focus_only_on_problems : Bool
  pub max_code_suggestion_length : ℤ
  pub suggestion_truncation_message : Str

-- the two lists of the loop
pub record State : Type 0 where
  pub suggestion_list : List Value
  pub one_sentence_summary_list : List Value

-- all keys are in the value, which is asked up to the first that is not
unfoldable pub has_keys : List Str → Value → Outcome Bool
has_keys [] s = returned true
has_keys (k ∷ ks) s =
    let rest = has_keys ks s in and_then (is_in k s) (λ b. if b then rest else returned false)

abbrev pub needed_keys : List Str
needed_keys = codes "one_sentence_summary" ∷ codes "label" ∷ codes "relevant_file" ∷ []

abbrev pub code_keys : List Str
code_keys = codes "existing_code" ∷ codes "improved_code" ∷ []

abbrev pub lower_of : Value → Outcome Str
lower_of (text t) = returned (lower t)
lower_of _ = raised attribute_error

-- a critical label is made less declarative
unfoldable pub soften : Bool → Value → Outcome Value
soften focus s =
    if focus
    then and_then (item (codes "label") s) (λ l. and_then (lower_of l) (λ t.
      if contains (codes "critical") t
      then set_item (codes "label") (text (codes "possible issue")) s
      else returned s))
    else returned s

-- `m in seen`
unfoldable pub is_seen : Value → List Value → Bool
is_seen m [] = false
is_seen m (k ∷ ks) = let rest = is_seen m ks in if same k m then true else rest

-- 'const', 'instead' and 'let' are all in the content
unfoldable pub says_const_instead : Value → Outcome Bool
unfolding has_keys
says_const_instead s =
    and_then (item (codes "suggestion_content") s)
      (has_keys (codes "const" ∷ codes "instead" ∷ codes "let" ∷ []))

unfoldable pub count_items : Items → ℕ
count_items nil = 0
count_items (cons v vs) = suc (count_items vs)

-- `len(v)`
abbrev pub len_of : Value → Outcome ℕ
len_of (text t) = returned (length t)
len_of (array vs) = returned (count_items vs)
len_of (object d) = returned (count_fields d)
len_of _ = raised type_error

-- the characters of a text, as `+=` adds them to a list
unfoldable pub characters : Str → Items
characters [] = nil
characters (c ∷ t) = cons (text (c ∷ [])) (characters t)

-- `vs[:n]`, followed by `ws`
unfoldable pub cut_items : ℕ → Items → Items → Items
cut_items zero vs ws = ws
cut_items (suc n) nil ws = ws
cut_items (suc n) (cons v vs) ws = cons v (cut_items n vs ws)

-- `v = v[:n]; v += end`
unfoldable pub cut : ℕ → Str → Value → Outcome Value
unfolding cut_items characters
cut n ending (text t) = returned (text (take n t ++ ending))
cut n ending (array vs) = returned (array (cut_items n vs (characters ending)))
cut n ending _ = raised type_error

-- `_truncate_if_needed`
unfoldable pub truncate_if_needed : Settings → Value → Outcome Value
unfolding cut
truncate_if_needed c s =
    let limit = c.max_code_suggestion_length in
    if ltb_ℤ (pos 0) limit
    then and_then (item (codes "improved_code") s) (λ v. and_then (len_of v) (λ n.
      if ltb_ℤ limit (pos n)
      then and_then (cut (pos_part limit) (b'\n' ∷ c.suggestion_truncation_message) v)
          (λ w. set_item (codes "improved_code") w s)
      else returned s))
    else returned s

abbrev pub summary_of : Value → Outcome Value
summary_of = item (codes "one_sentence_summary")

-- at the end of both lists
abbrev pub appended : State → Value → Outcome State
appended st s = and_then (summary_of s) (λ m. returned (record {
  suggestion_list = st.suggestion_list ++ s ∷ [];
  one_sentence_summary_list = st.one_sentence_summary_list ++ m ∷ [];
}))

-- a suggestion with its code: it is appended
abbrev pub append : Settings → State → Value → Outcome State
append c st s = and_then (truncate_if_needed c s) (appended st)

-- a suggestion that is no duplicate
abbrev pub append_new : Settings → State → Value → Outcome State
append_new c st s = and_then (says_const_instead s) (λ b.
    if b
    then returned st
    else and_then (has_keys code_keys s) (λ h. if h then append c st s else returned st))

-- a suggestion with the needed keys
abbrev pub append_if_new : Settings → State → Value → Outcome State
append_if_new c st s = and_then (soften c.focus_only_on_problems s) (λ t.
    and_then (summary_of t)
      (λ m. if is_seen m st.one_sentence_summary_list then returned st else append_new c st t))

-- the body of the `try`
unfoldable pub consider : Settings → State → Value → Outcome State
consider c st s =
    and_then (has_keys needed_keys s) (λ b. if b then append_if_new c st s else returned st)

-- one suggestion: an exception leaves it out
abbrev pub or_skip : State → Outcome State → State
or_skip st (returned st') = st'
or_skip st (raised e) = st

unfoldable pub consider_all : Settings → State → List Value → State
unfolding consider
consider_all c st [] = st
consider_all c st (s ∷ ss) = consider_all c (or_skip st (consider c st s)) ss

unfoldable pub keys_of : Fields → List Value
keys_of end = []
keys_of (field k v d) = text k ∷ keys_of d

unfoldable pub texts_of : Str → List Value
texts_of [] = []
texts_of (c ∷ t) = text (c ∷ []) ∷ texts_of t

-- what a loop over a value goes through
abbrev pub iterate : Value → Outcome (List Value)
iterate (array vs) = returned (items_of vs)
iterate (object d) = returned (keys_of d)
iterate (text t) = returned (texts_of t)
iterate _ = raised type_error

unfoldable pub array_of : List Value → Items
array_of [] = nil
array_of (v ∷ vs) = cons v (array_of vs)

-- `if isinstance(data, list)`
abbrev pub as_object : Value → Value
as_object (array vs) = object (field (codes "code_suggestions") (array vs) end)
as_object v = v

abbrev pub no_suggestions : State
no_suggestions = record { suggestion_list = []; one_sentence_summary_list = [] }

abbrev pub answer_keys : Keys
answer_keys = record {
  keys_fix_yaml =
      codes "relevant_file"
      ∷ codes "suggestion_content"
      ∷ codes "existing_code"
      ∷ codes "improved_code"
      ∷ [];
  first_key = codes "code_suggestions";
  last_key = codes "label";
}

unfoldable pub with_valid : Settings → Value → Outcome Value
unfolding consider_all array_of keys_of texts_of
with_valid c answer = and_then (item (codes "code_suggestions") answer) (λ v.
    and_then (iterate v) (λ ss.
      set_item (codes "code_suggestions")
        (array (array_of (consider_all c no_suggestions ss).suggestion_list)) answer))

-- `_prepare_pr_code_suggestions`
unfoldable pub prepare_pr_code_suggestions : Reader Value → Settings → Str → Outcome Value
unfolding with_valid
prepare_pr_code_suggestions r c predictions =
    with_valid c (as_object (load_yaml r answer_keys (strip predictions)))
