-- ===== src/Suggestions/Prepare/Valid.antt =====
-- The suggestions that are kept have all keys, and each has a summary of its own.
use pr_insight.Base.{true, false, List, [], ◌∷◌, ◌++◌, ◌≡◌, ap, ◌∙◌, subst, arith, All, All-snoc}
use pr_insight.Base.Text.{Str, codes, strip}
use pr_insight.Base.Fail.{
  Outcome, returned, raised, Returns, Returns-and_then, Returns-if, Succeeds, Returns_mono,
  any_value, known_value,
}
use pr_insight.Base.Json.{Value, array, Items, items_of, same, set_item, item}
use pr_insight.Suggestions.Prepare.Keeps.{
  Keeps, soften-Keeps, truncate-Keeps, has_keys-Keeps, set_item-item, set_item-Succeeds,
}
use pr_insight.Yaml.Load.{Reader, load_yaml}
use pr_insight.Suggestions.Prepare.{
  Settings, State, has_keys, needed_keys, code_keys, soften, is_seen, says_const_instead,
  truncate_if_needed, summary_of, appended, append, append_new, append_if_new, consider,
  consider_all, or_skip, no_suggestions, iterate, array_of, with_valid, as_object, answer_keys,
  prepare_pr_code_suggestions,
}

-- all the keys that the tool reads
abbrev pub HasKeys : Value → Type 0
HasKeys s = (has_keys needed_keys s ≡ returned true) × (has_keys code_keys s ≡ returned true)

-- each suggestion has its summary in the list
abbrev pub Summaries : List Value → List Value → Type 0
Summaries [] [] = Unit
Summaries (s ∷ ss) (m ∷ ms) = (summary_of s ≡ returned m) × Summaries ss ms
Summaries _ _ = ⊥

-- none is equal to one before it
abbrev pub Different : List Value → Type 0
Different [] = Unit
Different (m ∷ ms) = All (λ n. same m n ≡ false) ms × Different ms

pub record IsValid (st : State) : Type 0 where
  pub have_keys : All HasKeys st.suggestion_list
  pub summaries : Summaries st.suggestion_list st.one_sentence_summary_list
  pub different : Different st.one_sentence_summary_list

Summaries-snoc :
    (ss ms : List Value) (s m : Value)
    → Summaries ss ms
    → summary_of s ≡ returned m
    → Summaries (ss ++ s ∷ []) (ms ++ m ∷ [])
Summaries-snoc [] [] s m h e = (e, tt)
Summaries-snoc (t ∷ ss) (n ∷ ms) s m (h, hs) e = (h, Summaries-snoc ss ms s m hs e)
Summaries-snoc [] (n ∷ ms) s m h e = elim h [ ]
Summaries-snoc (t ∷ ss) [] s m h e = elim h [ ]

not_seen_parts :
    (m n : Value) (ms : List Value)
    → is_seen m (n ∷ ms) ≡ false
    → (same n m ≡ false) × (is_seen m ms ≡ false)
unfolding is_seen
not_seen_parts m n ms h = (ground (arith, h), ground (arith, h))

Different-snoc :
    (m : Value) (ms : List Value) → Different ms → is_seen m ms ≡ false → Different (ms ++ m ∷ [])
Different-snoc m [] d h = (tt, tt)
Different-snoc m (n ∷ ms) (d, ds) h =
    let (e, hs) = not_seen_parts m n ms h in
    (All-snoc (λ k. same n k ≡ false) ms m d e, Different-snoc m ms ds hs)

appended-IsValid :
    (st : State) (s m : Value)
    → IsValid st
    → HasKeys s
    → summary_of s ≡ returned m
    → is_seen m st.one_sentence_summary_list ≡ false
    → Returns (appended st s) IsValid
appended-IsValid st s m v h e new = rw e (record {
  have_keys = All-snoc HasKeys st.suggestion_list s v.have_keys h;
  summaries = Summaries-snoc st.suggestion_list st.one_sentence_summary_list s m v.summaries e;
  different = Different-snoc m st.one_sentence_summary_list v.different new;
})

append-IsValid :
    (c : Settings) (st : State) (s m : Value)
    → IsValid st
    → HasKeys s
    → summary_of s ≡ returned m
    → is_seen m st.one_sentence_summary_list ≡ false
    → Returns (append c st s) IsValid
append-IsValid c st s m v h e new =
    Returns-and_then (truncate_if_needed c s) (appended st) (Keeps s) IsValid (truncate-Keeps c s)
      (λ t k.
        appended-IsValid st t m v
          (has_keys-Keeps needed_keys s t k h.0, has_keys-Keeps code_keys s t k h.1) (k.1 ∙ e) new)

append_new-IsValid :
    (c : Settings) (st : State) (s m : Value)
    → IsValid st
    → has_keys needed_keys s ≡ returned true
    → summary_of s ≡ returned m
    → is_seen m st.one_sentence_summary_list ≡ false
    → Returns (append_new c st s) IsValid
append_new-IsValid c st s m v h e new =
    Returns-and_then (says_const_instead s) _ (λ b. Unit) IsValid (any_value (says_const_instead s))
      (λ b u.
        Returns-if b (returned st) _ IsValid (λ yes. v)
          (λ no.
            Returns-and_then (has_keys code_keys s) _ (λ k. has_keys code_keys s ≡ returned k)
              IsValid (known_value (has_keys code_keys s))
              (λ k q.
                Returns-if k _ (returned st) IsValid
                  (λ yes. append-IsValid c st s m v (h, q ∙ ap returned yes) e new) (λ no. v))))

append_if_new-IsValid :
    (c : Settings) (st : State) (s : Value)
    → IsValid st
    → has_keys needed_keys s ≡ returned true
    → Returns (append_if_new c st s) IsValid
append_if_new-IsValid c st s v h =
    Returns-and_then (soften c.focus_only_on_problems s) _ (Keeps s) IsValid
      (soften-Keeps c.focus_only_on_problems s)
      (λ t k.
        Returns-and_then (summary_of t) _ (λ m. summary_of t ≡ returned m) IsValid
          (known_value (summary_of t))
          (λ m e.
            Returns-if (is_seen m st.one_sentence_summary_list) (returned st) _ IsValid (λ old. v)
              (λ new. append_new-IsValid c st t m v (has_keys-Keeps needed_keys s t k h) e new)))

consider-IsValid :
    (c : Settings) (st : State) (s : Value) → IsValid st → Returns (consider c st s) IsValid
unfolding consider
consider-IsValid c st s v =
    Returns-and_then (has_keys needed_keys s) _ (λ k. has_keys needed_keys s ≡ returned k) IsValid
      (known_value (has_keys needed_keys s))
      (λ k q.
        Returns-if k _ (returned st) IsValid
          (λ yes. append_if_new-IsValid c st s v (q ∙ ap returned yes)) (λ no. v))

or_skip-IsValid :
    (st : State) (m : Outcome State) → IsValid st → Returns m IsValid → IsValid (or_skip st m)
or_skip-IsValid st (returned st') v h = h
or_skip-IsValid st (raised e) v h = v

pub consider_all-IsValid :
    (c : Settings) (ss : List Value) (st : State) → IsValid st → IsValid (consider_all c st ss)
unfolding consider_all
consider_all-IsValid c [] st v = v
consider_all-IsValid c (s ∷ ss) st v =
    consider_all-IsValid c ss (or_skip st (consider c st s))
      (or_skip-IsValid st (consider c st s) v (consider-IsValid c st s v))

no_suggestions-IsValid : IsValid no_suggestions
no_suggestions-IsValid = record { have_keys = tt; summaries = tt; different = tt }

-- the suggestions of an answer are those of valid lists
abbrev pub HasValid : Value → Type 0
HasValid answer =
    (st : State) × IsValid st
    × (item (codes "code_suggestions") answer ≡ returned (array (array_of st.suggestion_list)))

with_valid-HasValid : (c : Settings) (answer : Value) → Returns (with_valid c answer) HasValid
unfolding with_valid
with_valid-HasValid c answer =
    let key = codes "code_suggestions" in
    Returns-and_then (item key answer) _ (λ v. Unit) HasValid (any_value (item key answer))
      (λ v u.
        Returns-and_then (iterate v) _ (λ ss. Unit) HasValid (any_value (iterate v))
          (λ ss u'.
            let st = consider_all c no_suggestions ss in
            let new = array (array_of st.suggestion_list) in
            Returns_mono (set_item key new answer) (λ t. item key t ≡ returned new) HasValid
              (set_item-item key new answer)
              (λ t e. (st, consider_all-IsValid c ss no_suggestions no_suggestions-IsValid, e))))

with_valid-Succeeds :
    (c : Settings) (answer : Value) (vs : Items)
    → item (codes "code_suggestions") answer ≡ returned (array vs)
    → Succeeds (with_valid c answer)
unfolding with_valid
with_valid-Succeeds c answer vs h =
    let key = codes "code_suggestions" in
    let kept = (consider_all c no_suggestions (items_of vs)).suggestion_list in
    rw h (set_item-Succeeds key (array vs) (array (array_of kept)) answer h)

-- If what YAML reads of the model's answer is a list, or has a list of suggestions, whatever stands
-- in the list, _prepare_pr_code_suggestions returns an answer whose suggestions all have the keys of
-- the summary, the label, the file and both codes, and no two of which have equal summaries.
pub prepare_pr_code_suggestions-HasValid :
    (r : Reader Value) (c : Settings) (predictions : Str) (vs : Items)
    → item (codes "code_suggestions") (as_object (load_yaml r answer_keys (strip predictions)))
      ≡ returned (array vs)
    → (answer : Value) × (prepare_pr_code_suggestions r c predictions ≡ returned answer)
      × HasValid answer
unfolding prepare_pr_code_suggestions
prepare_pr_code_suggestions-HasValid r c predictions vs h =
    let read = as_object (load_yaml r answer_keys (strip predictions)) in
    let (answer, e) = with_valid-Succeeds c read vs h in
    (answer, e, subst (λ (m : Outcome Value). Returns m HasValid) e (with_valid-HasValid c read))
