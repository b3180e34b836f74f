-- ===== src/Agent.antt =====
-- The handling of a request: `PRAgent` of pr_insight/agent/pr_insight.py.
pub mod Dispatch
use pr_insight.Base.{
  Bool, true, false, not, Option, none, some, List, [], ◌∷◌, ◌++◌, ◌==◌, if◌then◌else◌, map,
}
use pr_insight.Base.Fail.{Outcome, returned, raised, and_then, value_error}
use pr_insight.Base.Text.{Str, codes, lower, lower_code, lstrip_by, str_eq, contains}
use pr_insight.Cli.{validate_user_args, update_settings_from_args}

-- the classes of `command2class`
pub data Tool : Type 0 where
  pr_reviewer pr_description pr_code_suggestions pr_questions pr_line_questions : Tool
  pr_update_changelog pr_config pr_help_message pr_similar_issue pr_add_docs : Tool
  pr_generate_labels pr_help_docs : Tool

abbrev command2class : List (Str × Tool)
command2class =
    (codes "auto_review", pr_reviewer)
    ∷ (codes "answer", pr_reviewer)
    ∷ (codes "review", pr_reviewer)
    ∷ (codes "review_pr", pr_reviewer)
    ∷ (codes "describe", pr_description)
    ∷ (codes "describe_pr", pr_description)
    ∷ (codes "improve", pr_code_suggestions)
    ∷ (codes "improve_code", pr_code_suggestions)
    ∷ (codes "ask", pr_questions)
    ∷ (codes "ask_question", pr_questions)
    ∷ (codes "ask_line", pr_line_questions)
    ∷ (codes "update_changelog", pr_update_changelog)
    ∷ (codes "config", pr_config)
    ∷ (codes "settings", pr_config)
    ∷ (codes "help", pr_help_message)
    ∷ (codes "similar_issue", pr_similar_issue)
    ∷ (codes "add_docs", pr_add_docs)
    ∷ (codes "generate_labels", pr_generate_labels)
    ∷ (codes "help_docs", pr_help_docs)
    ∷ []

find_tool : Str → List (Str × Tool) → Option Tool
unfolding str_eq
find_tool action [] = none
find_tool action ((name, tool) ∷ table) =
    if str_eq name action then some tool else find_tool action table

-- `command2class[action]`, if it is there
unfoldable pub tool_of : Str → Option Tool
unfolding find_tool
tool_of action = find_tool action command2class

-- A tool as the handler makes it: with the arguments, and the flags `is_answer` and `is_auto`.
pub record Call : Type 0 where
  pub tool : Tool
  pub args : List Str
  pub is_answer : Bool
  pub is_auto : Bool
  pub notifies : Bool

-- the branches on the action
unfoldable pub call_of : Str → List Str → Option Call
unfolding tool_of
call_of action args = elim (tool_of action) [
  | none ↦ none
  | some tool ↦ some (record {
    tool = tool;
    args = args;
    is_answer = str_eq action (codes "answer");
    is_auto = str_eq action (codes "auto_review");
    notifies = not (str_eq action (codes "auto_review"));
  })
]

-- `action.lstrip("/").lower()`
unfoldable pub action_of : Str → Str
unfolding lstrip_by lower_code
action_of action = lower (lstrip_by (λ c. c == b'/') action)

-- `lang_instruction_text`
abbrev pub language_instruction : Str → Str
language_instruction language =
    codes "Your response MUST be written in the language corresponding to locale code: '"
    ++ (language ++ codes "'. This is crucial.")

abbrev pub separator : Str
separator = codes "\n======\n\nIn addition, "

-- one section's `extra_instructions`, where `None` is the empty text
unfoldable pub add_language : Str → Str → Str
unfolding contains
add_language instruction current =
    if contains instruction current
    then current
    else elim current [ [] ↦ instruction | c ∷ rest ↦ (c ∷ rest) ++ (separator ++ instruction) ]

-- S is the settings object with the values V: `set` writes a setting, `language` reads
-- `response_language`, `each_extra` applies a function to the `extra_instructions` of every section that
-- has them. `run` makes a tool and runs it.
pub record World (S V : Type 0) : Type 1 where
  pub set : Str → V → S → S
  pub parse : Str → Option V
  pub raw : Str → V
  pub language : S → Str
  pub each_extra : (Str → Str) → S → S
  pub apply_repo_settings : S → Outcome S
  pub run : Call → S → Outcome S

module _ {S V : Type 0} (w : World S V) where
  -- "Append the response language in the extra instructions"
  unfoldable pub respond_in : S → S
  unfolding add_language lower_code
  respond_in s =
      if not (str_eq (lower (w.language s)) (codes "en-us"))
      then w.each_extra (add_language (language_instruction (w.language s))) s
      else s

  abbrev pub run_call : Option Call → S → Outcome (Bool × S)
  run_call none s = returned (false, s)
  run_call (some call) s = and_then (w.run call s) (λ s'. returned (true, s'))

  -- what follows the check of the arguments
  abbrev perform : Str → List Str × S → Outcome (Bool × S)
  perform action (args, s) = run_call (call_of (action_of action) args) (respond_in s)

  abbrev checked : Str → List Str → Bool → S → Outcome (Bool × S)
  checked action args false s = returned (false, s)
  checked action args true s = perform action (update_settings_from_args w.set w.parse w.raw args s)

  abbrev with_words : List Str → S → Outcome (Bool × S)
  with_words [] s = raised value_error
  with_words (action ∷ args) s = checked action args (validate_user_args args).0 s

  -- `_handle_request`; `words` are the request's words, as the list that is given or as shlex splits the
  -- text, which may raise
  unfoldable pub handle : Outcome (List Str) → S → Outcome (Bool × S)
  unfolding call_of action_of respond_in validate_user_args update_settings_from_args
  handle words s =
      and_then (w.apply_repo_settings s) (λ s1. and_then words (λ ws. with_words ws s1))

  -- the answer of `handle_request`, which catches every exception
  unfoldable pub handle_request : Outcome (List Str) → S → Bool
  unfolding handle
  handle_request words s = elim (handle words s) [ returned r ↦ r.0 | raised e ↦ false ]
