-- ===== src/Github/Comments.antt =====
-- The commands in comments: `handle_comments_on_pr` and `handle_line_comments` of
-- pr_insight/servers/github_app.py.
pub mod Ask
use pr_insight.Base.{
  Bool, true, false, Option, none, some, List, [], ◌∷◌, ◌++◌, ◌&&◌, ◌==◌, if◌then◌else◌,
}
use pr_insight.Base.Effect.{Effect, ◌>>=◌, ◌>>◌, pure, from, modify, when, rescue}
use pr_insight.Base.Fail.{Outcome, returned, raised, and_then, index_error, attribute_error}
use pr_insight.Base.Json.{
  Value, null, boolean, number, text, array, object, end, truthy, is_text, get, get_default, item,
  is_in, lookup_field,
}
use pr_insight.Base.Text.{
  Str, codes, contains, starts_with, lstrip, lstrip_by, strip, strip_by, is_space, replace,
  split_text, decimal_ℤ,
}
use pr_insight.Github.World.{World}

-- `'/ask' + split[1] + ' \n' + split[0].strip().lstrip('>')`
abbrev pub ask_first : List Str → Outcome Str
ask_first (before ∷ question ∷ rest) =
    returned
      (codes "/ask" ++ (question ++ (codes " \n" ++ lstrip_by (λ c. c == b'>') (strip before))))
ask_first _ = raised index_error

-- the branches on a text that is not empty
abbrev pub command_of : Str → Outcome (Option Value)
command_of comment_body =
    if starts_with (codes "/") (lstrip comment_body)
    then returned (some (text comment_body))
    else if contains (codes "/ask") comment_body
        && starts_with (codes "> ![image]") (strip comment_body)
    then and_then (ask_first (split_text (codes "/ask") comment_body))
        (λ t. returned (some (text t)))
    else returned none

-- the command of a comment, where `none` says that it is ignored
unfoldable pub comment_command : Value → Outcome (Option Value)
unfolding contains starts_with lstrip_by strip_by is_space split_text
comment_command (text (c ∷ s)) = command_of (c ∷ s)
comment_command v = returned (some v)

-- where a comment belongs: to a pull request, to its code, or to none
pub data Target : Type 0 where
  on_pull_request on_code : Value → Target
  elsewhere : Target

-- `m`, if the key is in the value
abbrev if_in : {A : Type 0} → Str → Value → A → (Value → Outcome A) → Outcome A
if_in k v none_of_it f =
    and_then (is_in k v) (λ b. if b then and_then (item k v) f else returned none_of_it)

abbrev on_code_target : Value → Outcome Target
on_code_target body =
    if_in (codes "comment") body elsewhere (λ comment.
      if_in (codes "pull_request_url") comment elsewhere (λ url. returned (on_code url)))

abbrev or_code : Value → Target → Outcome Target
or_code body (on_pull_request url) = returned (on_pull_request url)
or_code body _ = on_code_target body

-- the tests on the body, in order
unfoldable pub target_of : Value → Outcome Target
unfolding is_in lookup_field
target_of body =
    and_then
      (if_in (codes "issue") body elsewhere (λ issue.
        if_in (codes "pull_request") issue elsewhere (λ pull_request.
          if_in (codes "url") pull_request elsewhere (λ url. returned (on_pull_request url)))))
      (or_code body)

module _ {S V : Type 0} (w : World S V) where
  -- `f"{v}"`
  abbrev format : Value → Str
  format null = codes "None"
  format (boolean true) = codes "True"
  format (boolean false) = codes "False"
  format (number n) = decimal_ℤ n
  format (text s) = s
  format (array vs) = w.shown (array vs)
  format (object d) = w.shown (object d)

  -- `comment_body.replace('/ask', '').strip()`
  abbrev question_of : Value → Outcome Str
  question_of (text s) = returned (strip (replace (codes "/ask") [] s))
  question_of _ = raised attribute_error

  abbrev ask_line : Value → Value → Value → Value → Value → Str → Str
  ask_line start_line end_line side path comment_id question =
      codes "/ask_line --line_start="
      ++ (format start_line
          ++ (codes " --line_end="
              ++ (format end_line
                  ++ (codes " --side="
                      ++ (format side
                          ++ (codes " --file_name="
                              ++ (format path
                                  ++ (codes " --comment_id="
                                      ++ (format comment_id ++ (codes " " ++ question))))))))))

  -- `handle_line_comments`
  unfoldable pub handle_line_comments : Value → Value → Effect S Value
  unfolding truthy lookup_field replace strip_by is_space decimal_ℤ is_in
  handle_line_comments body comment_body =
      if truthy comment_body
      then (do
        comment ← from (item (codes "comment") body)
        start_line ← from (item (codes "start_line") comment)
        end_line ← from (item (codes "line") comment)
        question ← from (question_of comment_body)
        diff_hunk ← from (item (codes "diff_hunk") comment)
        modify (w.set (codes "ask_diff_hunk") (w.json_value diff_hunk))
        path ← from (item (codes "path") comment)
        side ← from (item (codes "side") comment)
        comment_id ← from (item (codes "id") comment)
        asks ← from (is_in (codes "/ask") comment_body)
        let first_line = if truthy start_line then start_line else end_line
        let line_question = text (ask_line first_line end_line side path comment_id question)
        pure (if asks then line_question else comment_body))
      else pure (text [])

  abbrev on_line : Value → Value → Effect S (Value × Bool)
  on_line body comment_body = do
    comment ← from (item (codes "comment") body)
    subject_type ← from (if_in (codes "subject_type") comment null returned)
    if is_text (codes "line") subject_type
        then handle_line_comments body comment_body >>= (λ command. pure (command, true))
        else pure (comment_body, false)

  -- the `try` on a comment to a line: the command, and `disable_eyes`
  abbrev line_command : Value → Value → Effect S (Value × Bool)
  line_command body comment_body = do
    asks ← from (is_in (codes "/ask") comment_body)
    if asks then on_line body comment_body else pure (comment_body, false)

  -- the url, the command and `disable_eyes`, where `none` says that the comment is ignored
  abbrev pub located : Value → Value → Target → Effect S (Option (Value × Value × Bool))
  located body command (on_pull_request url) = pure (some (url, command, false))
  located body command (on_code url) = do
    found ← rescue (command, false) (line_command body command)
    pure (some (url, found.0, found.1))
  located body command elsewhere = pure none

  abbrev pub ask_agent : Value → Value → Option (Value × Value × Bool) → Effect S (Unit {0})
  ask_agent body sender_id none = pure tt
  ask_agent body sender_id (some (url, command, disable_eyes)) = do
    comment ← from (get_default (codes "comment") (object end) body)
    comment_id ← from (get (codes "id") comment)
    w.get_git_provider_with_context url
    eligible ← w.is_eligible sender_id url
    when eligible (modify (w.run url command (some (comment_id, disable_eyes))))

  abbrev pub on_command : Value → Value → Option Value → Effect S (Unit {0})
  on_command body sender_id none = pure tt
  on_command body sender_id (some command) = do
    target ← from (target_of body)
    place ← located body command target
    ask_agent body sender_id place

  -- `handle_comments_on_pr`
  unfoldable pub handle_comments : Value → Value → Effect S (Unit {0})
  unfolding comment_command target_of handle_line_comments lookup_field is_in is_text
  handle_comments body sender_id = do
    commented ← from (is_in (codes "comment") body)
    when commented (do
      comment ← from (get_default (codes "comment") (object end) body)
      comment_body ← from (get (codes "body") comment)
      command ← from (comment_command comment_body)
      on_command body sender_id command)
