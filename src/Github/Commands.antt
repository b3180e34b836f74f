-- ===== src/Github/Commands.antt =====
-- The commands that an event runs by itself: `_check_pull_request_event`,
-- `_perform_auto_commands_github`, `handle_new_pr_opened`, `handle_push_trigger_for_new_commits` and
-- `handle_closed_pr` of pr_insight/servers/github_app.py.
pub mod Opened
use pr_insight.Base.{
  Bool, true, false, not, Option, none, some, List, [], ◌∷◌, ◌&&◌, ◌||◌, any, if◌then◌else◌,
}
use pr_insight.Base.Effect.{Effect, ◌>>=◌, ◌>>◌, pure, from, reads, modify, when}
use pr_insight.Base.Fail.{Outcome, returned, and_then}
use pr_insight.Base.Json.{
  Value, boolean, text, object, end, truthy, is_text, same, get, get_default, lookup_field,
}
use pr_insight.Base.Text.{Str, codes, split, join}
use pr_insight.Cli.{update_settings_from_args}
use pr_insight.Github.Filters.{should_process_pr_logic}
use pr_insight.Github.World.{AppSettings, World}

-- `action in ("review_requested", "synchronize")`
abbrev is_update : Value → Bool
is_update action = is_text (codes "review_requested") action || is_text (codes "synchronize") action

-- the last guard: an update with the times of an event that was just opened
abbrev not_fresh : Value → Value → Value → Outcome (Option (Value × Value))
not_fresh action pull_request api_url = and_then (get (codes "created_at") pull_request) (λ created.
    and_then (get (codes "updated_at") pull_request) (λ updated.
      returned
        (if is_update action && same created updated then none else some (pull_request, api_url))))

abbrev pub if_open : Value → Value → Value → Outcome (Option (Value × Value))
if_open action pull_request api_url =
    and_then (get_default (codes "draft") (boolean true) pull_request) (λ draft.
      and_then (get (codes "state") pull_request) (λ state.
        if truthy draft || not (is_text (codes "open") state)
        then returned none
        else not_fresh action pull_request api_url))

-- `_check_pull_request_event`, where `none` is the invalid result
unfoldable pub check_pull_request_event : Value → Value → Outcome (Option (Value × Value))
unfolding truthy is_text same lookup_field
check_pull_request_event action body = and_then (get (codes "pull_request") body) (λ pull_request.
    if truthy pull_request
    then and_then (get (codes "url") pull_request)
        (λ api_url. if truthy api_url then if_open action pull_request api_url else returned none)
    else returned none)

-- the two lists of commands that `commands_conf` names
pub data CommandsConf : Type 0 where
  for_pr for_push : CommandsConf

abbrev commands_of : CommandsConf → AppSettings → List Str
commands_of for_pr o = o.pr_commands
commands_of for_push o = o.push_commands

abbrev stops : CommandsConf → AppSettings → Bool
stops for_pr o = o.disable_auto_feedback
stops for_push o = false

-- `split_command[0]` and `split_command[1:]`; `split` gives at least one piece
abbrev head_of : List Str → Str
head_of [] = []
head_of (w ∷ ws) = w

abbrev tail_of : List Str → List Str
tail_of [] = []
tail_of (w ∷ ws) = ws

module _ {S V : Type 0} (w : World S V) where
  abbrev run_command : Value → Str → List Str × S → S
  run_command api_url command (other_args, s) =
      w.run api_url (text (join (codes " ") (command ∷ other_args))) none s

  -- one round of the loop over the commands
  abbrev pub auto_command : Value → Str → S → S
  auto_command api_url command s =
      let words = split b' ' command in
      run_command api_url (head_of words)
        (update_settings_from_args w.set w.parse w.raw (tail_of words) s)

  unfoldable pub auto_commands : Value → List Str → S → S
  unfolding split update_settings_from_args join
  auto_commands api_url [] s = s
  auto_commands api_url (c ∷ cs) s = auto_commands api_url cs (auto_command api_url c s)

  -- what follows the filters; without commands nothing is set
  abbrev pub run_commands : Value → List Str → S → S
  run_commands api_url [] s = s
  run_commands api_url (c ∷ cs) s =
      auto_commands api_url (c ∷ cs)
        (w.set (codes "config.is_auto_command") (w.json_value (boolean true)) s)

  abbrev pub with_settings : CommandsConf → Value → Value → AppSettings → S → S
  with_settings conf body api_url o s =
      if stops conf o
      then s
      else if should_process_pr_logic w.search o.filter_settings body
      then run_commands api_url (commands_of conf o) s
      else s

  -- `_perform_auto_commands_github`
  unfoldable pub perform_auto_commands : CommandsConf → Value → Value → Effect S (Unit {0})
  unfolding auto_commands should_process_pr_logic
  perform_auto_commands conf body api_url =
      w.apply_repo_settings api_url
      >> modify (λ s. with_settings conf body api_url (w.settings s) s)

  -- the commands, for an eligible sender
  abbrev pub if_eligible : CommandsConf → Value → Value → Value → Effect S (Unit {0})
  if_eligible conf body sender_id api_url = do
    eligible ← w.is_eligible sender_id api_url
    when eligible (perform_auto_commands conf body api_url)

  -- `action in get_settings().github_app.handle_pr_actions`
  abbrev handles : Value → S → Bool
  handles action s = any (λ a. is_text a action) ((w.settings s).handle_pr_actions)

  abbrev pub opened : Value → Value → Value → Option (Value × Value) → Effect S (Unit {0})
  opened action body sender_id none = pure tt
  opened action body sender_id (some (pull_request, api_url)) = do
    handled ← reads (handles action)
    when handled (w.apply_repo_settings api_url >> if_eligible for_pr body sender_id api_url)

  -- `handle_new_pr_opened`
  unfoldable pub handle_new_pr_opened : Value → Value → Value → Effect S (Unit {0})
  unfolding lookup_field is_text
  handle_new_pr_opened action body sender_id = do
    pull_request ← from (get_default (codes "pull_request") (object end) body)
    title ← from (get_default (codes "title") (text []) pull_request)
    valid ← from (check_pull_request_event action body)
    opened action body sender_id valid

  -- the guards on the commits of a push
  abbrev pub push_of : Value → Value → AppSettings → Outcome Bool
  push_of body pull_request o = and_then (get (codes "before") body) (λ before_sha.
      and_then (get (codes "after") body) (λ after_sha.
        and_then (get (codes "merge_commit_sha") pull_request) (λ merge_commit_sha. returned (
          not (same before_sha after_sha)
          && not (o.push_trigger_ignore_merge_commits && same after_sha merge_commit_sha)))))

  abbrev pub pushed : Value → Value → Option (Value × Value) → Effect S (Unit {0})
  pushed body sender_id none = pure tt
  pushed body sender_id (some (pull_request, api_url)) = do
    w.apply_repo_settings api_url
    o ← reads w.settings
    when o.handle_push_trigger (do
      new ← from (push_of body pull_request o)
      when new (w.triggered api_url (if_eligible for_push body sender_id api_url)))

  -- `handle_push_trigger_for_new_commits`
  unfoldable pub handle_push_trigger : Value → Value → Value → Effect S (Unit {0})
  unfolding lookup_field same
  handle_push_trigger action body sender_id = do
    valid ← from (check_pull_request_event action body)
    pushed body sender_id valid

  -- `handle_closed_pr`
  unfoldable pub handle_closed_pr : Value → Effect S (Unit {0})
  unfolding lookup_field truthy
  handle_closed_pr body = do
    pull_request ← from (get_default (codes "pull_request") (object end) body)
    merged ← from (get_default (codes "merged") (boolean false) pull_request)
    when (truthy merged) (do
      api_url ← from (get_default (codes "url") (text []) pull_request)
      w.write_pr_statistics api_url pull_request)
