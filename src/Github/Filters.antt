-- ===== src/Github/Filters.antt =====
-- Which requests the GitHub App ignores: the filters of pr_insight/servers/github_app.py.
use pr_insight.Base.{Bool, true, false, List, [], ◌∷◌, ◌&&◌, ◌||◌, any, if◌then◌else◌}
use pr_insight.Base.Fail.{Outcome, returned, raised, and_then, type_error}
use pr_insight.Base.Json.{
  Value, Items, text, array, nil, cons, object, end, truthy, is_text, get, get_default, item, is_in,
  lookup_field,
}
use pr_insight.Base.Text.{Str, codes}

-- `config.ignore_pr_title`: a list of patterns or one
pub data TitlePatterns : Type 0 where
  many : List Str → TitlePatterns
  one : Str → TitlePatterns

-- The settings that the filters read. A list that is not set is empty.
pub record FilterSettings : Type 0 where
  pub ignore_bot_pr : Bool
  pub ignore_repositories : List Str
  pub ignore_pr_authors : List Str
  pub ignore_pr_title : TitlePatterns
  pub ignore_pr_labels : List Str
  pub ignore_pr_source_branches : List Str
  pub ignore_pr_target_branches : List Str

-- `sender`, `sender_id` and `sender_type` of `get_log_context`
pub record Sender : Type 0 where
  pub login : Value
  pub id : Value
  pub sender_type : Value

abbrev empty_object : Value
empty_object = object end

-- `body.get("sender", {}).get(k)`
abbrev of_sender : Str → Value → Outcome Value
of_sender k body = and_then (get_default (codes "sender") empty_object body) (get k)

abbrev or_empty : Outcome Value → Value
or_empty (returned v) = v
or_empty (raised e) = text []

-- The sender that `get_log_context` finds: an exception leaves the texts empty.
unfoldable pub sender_of : Value → Sender
unfolding lookup_field
sender_of body = record {
  login = or_empty (of_sender (codes "login") body);
  id = or_empty (of_sender (codes "id") body);
  sender_type = or_empty (of_sender (codes "type") body);
}

abbrev or_false : Outcome Bool → Bool
or_false (returned b) = b
or_false (raised e) = false

-- the body of the `try` in `is_bot_user`
abbrev bot_test : FilterSettings → Sender → Outcome Bool
bot_test o s =
    if o.ignore_bot_pr && is_text (codes "Bot") s.sender_type
    then and_then (is_in (codes "pr-insight") s.login) (λ b. returned true)
    else returned false

unfoldable pub is_bot_user : FilterSettings → Sender → Bool
unfolding is_text is_in
is_bot_user o s = or_false (bot_test o s)

abbrev labels_of : Items → Outcome (List Value)
labels_of nil = returned []
labels_of (cons v vs) =
    and_then (item (codes "name") v) (λ n. and_then (labels_of vs) (λ ns. returned (n ∷ ns)))

-- `[label['name'] for label in pr_labels]`, for a value that is true
abbrev label_names : Value → Outcome (List Value)
label_names (array vs) = labels_of vs
label_names _ = raised type_error

-- `label in ignore_pr_labels`
abbrev is_listed : List Str → Value → Bool
is_listed names v = any (λ s. is_text s v) names

abbrev title_patterns : TitlePatterns → List Str
title_patterns (many ps) = ps
title_patterns (one p) = p ∷ []

-- what follows a test: `return False` if it is true
abbrev unless : Outcome Bool → Outcome Bool → Outcome Bool
unless test rest = and_then test (λ b. if b then returned false else rest)

abbrev is_set : List Str → Bool
is_set [] = false
is_set (p ∷ ps) = true

-- What the filters read in the body.
pub record Request : Type 0 where
  pub pull_request : Value
  pub title : Value
  pub pr_labels : Value
  pub source_branch : Value
  pub target_branch : Value
  pub sender : Value
  pub repo_full_name : Value

-- `v.get(k, {})`
abbrev get_object : Str → Value → Outcome Value
get_object k v = get_default k empty_object v

-- `v.get(k, "")`
abbrev get_text : Str → Value → Outcome Value
get_text k v = get_default k (text []) v

infixl 5 ◌>>=◌
abbrev ◌>>=◌ : {A B : Type 0} → Outcome A → (A → Outcome B) → Outcome B
m >>= f = and_then m f

unfoldable pub request_of : Value → Outcome Request
unfolding lookup_field
request_of body = do
  pull_request ← get_object (codes "pull_request") body
  title ← get_text (codes "title") pull_request
  labels ← get_default (codes "labels") (array nil) pull_request
  head ← get_object (codes "head") pull_request
  source_branch ← get_text (codes "ref") head
  base ← get_object (codes "base") pull_request
  target_branch ← get_text (codes "ref") base
  sender ← of_sender (codes "login") body
  repository ← get_object (codes "repository") body
  repo_full_name ← get_text (codes "full_name") repository
  returned (record {
    pull_request = pull_request;
    title = title;
    pr_labels = labels;
    source_branch = source_branch;
    target_branch = target_branch;
    sender = sender;
    repo_full_name = repo_full_name;
  })

-- `search` is `re.search` of a text, as a truth value; it may raise on a pattern that is not one.
module _ (search : Str → Str → Outcome Bool) where
  -- `re.search(regex, v)`
  abbrev search_in : Str → Value → Outcome Bool
  search_in regex (text s) = search regex s
  search_in regex _ = raised type_error

  -- `any(re.search(regex, v) for regex in patterns)`
  unfoldable pub any_search : List Str → Value → Outcome Bool
  any_search [] v = returned false
  any_search (p ∷ ps) v =
      let rest = any_search ps v in
      and_then (search_in p v) (λ b. if b then returned true else rest)

  -- the tests, in the order of the source
  abbrev pub ignores_repository : FilterSettings → Value → Outcome Bool
  ignores_repository o repo =
      if is_set o.ignore_repositories && truthy repo
      then any_search o.ignore_repositories repo
      else returned false

  abbrev pub ignores_author : FilterSettings → Value → Outcome Bool
  ignores_author o sender =
      if is_set o.ignore_pr_authors && truthy sender
      then any_search o.ignore_pr_authors sender
      else returned false

  abbrev pub ignores_title : FilterSettings → Value → Outcome Bool
  ignores_title o title =
      if truthy title && is_set (title_patterns o.ignore_pr_title)
      then any_search (title_patterns o.ignore_pr_title) title
      else returned false

  abbrev pub ignores_labels : FilterSettings → Value → Outcome Bool
  ignores_labels o labels =
      if truthy labels && is_set o.ignore_pr_labels
      then and_then (label_names labels)
          (λ names. returned (any (is_listed o.ignore_pr_labels) names))
      else returned false

  -- The two searches stand under one test of the settings, but a list that is not set finds nothing.
  abbrev pub ignores_branch : FilterSettings → Value → Value → List Str → Outcome Bool
  ignores_branch o pull_request branch patterns =
      if truthy pull_request
        && (is_set o.ignore_pr_source_branches || is_set o.ignore_pr_target_branches)
      then any_search patterns branch
      else returned false

  -- `return False` at the first filter that fits
  abbrev pub filters : FilterSettings → Request → Outcome Bool
  filters o r = unless (ignores_repository o r.repo_full_name) (
      unless (ignores_author o r.sender) (
        unless (ignores_title o r.title) (
          unless (ignores_labels o r.pr_labels) (
            unless (ignores_branch o r.pull_request r.source_branch o.ignore_pr_source_branches) (
              unless (ignores_branch o r.pull_request r.target_branch o.ignore_pr_target_branches)
                (returned true))))))

  abbrev pub or_true : Outcome Bool → Bool
  or_true (returned b) = b
  or_true (raised e) = true

  -- `should_process_pr_logic`, which processes a request on which the filters raise
  unfoldable pub should_process_pr_logic : FilterSettings → Value → Bool
  unfolding request_of any_search truthy is_text
  should_process_pr_logic o body = or_true (and_then (request_of body) (filters o))
