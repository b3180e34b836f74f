-- ===== src/Github/Requests.antt =====
-- The dispatch of a webhook request: `handle_request` of pr_insight/servers/github_app.py.
pub mod Ignored
use pr_insight.Base.{Bool, true, false, not, List, [], ◌∷◌, ◌&&◌, if◌then◌else◌}
use pr_insight.Base.Effect.{Effect, after, ◌>>=◌, pure, from, reads, when}
use pr_insight.Base.Json.{Value, truthy, is_text, get, is_in, lookup_field}
use pr_insight.Base.Text.{codes}
use pr_insight.Github.Filters.{Sender, sender_of, is_bot_user, should_process_pr_logic}
use pr_insight.Github.World.{AppSettings, World}
use pr_insight.Github.Commands.{handle_new_pr_opened, handle_push_trigger, handle_closed_pr}
use pr_insight.Github.Comments.{handle_comments}

abbrev is_set : {A : Type 0} → List A → Bool
is_set [] = false
is_set (c ∷ s) = true

module _ {S V : Type 0} (w : World S V) where
  abbrev closed : Value → Effect S (Unit {0})
  closed body = do o ← reads w.settings; when (is_set o.analytics_folder) (handle_closed_pr w body)

  -- the branches on the event `pull_request` with an action that is not "created"
  abbrev pub pull_request_event : Value → Value → Value → Effect S (Unit {0})
  pull_request_event body action id =
      if is_text (codes "synchronize") action
      then handle_push_trigger w action body id
      else if is_text (codes "closed") action
      then closed body
      else handle_new_pr_opened w action body id

  -- The branches on the event and the action. A comment that is edited is not handled, as no other
  -- event is, but its action has to be one in which a text can be.
  abbrev pub route : Value → Value → Value → Value → Bool → Effect S (Unit {0})
  route body event action id true = pure tt
  route body event action id false =
      if is_text (codes "created") action
      then handle_comments w body id
      else if is_text (codes "pull_request") event
      then pull_request_event body action id
      else if is_text (codes "issue_comment") event
      then from (is_in (codes "edited") action) >>= (λ b. pure tt)
      else pure tt

  -- the two filters
  abbrev pub is_ignored : AppSettings → Value → Value → Bool → Bool
  is_ignored o body action check_run =
      if is_bot_user o.filter_settings (sender_of body) && not check_run
      then true
      else not (is_text (codes "created") action)
        && not check_run
        && not (should_process_pr_logic w.search o.filter_settings body)

  -- `handle_request`
  unfoldable pub handle_request : Value → Value → Effect S (Unit {0})
  unfolding lookup_field truthy is_text is_in
  handle_request body event = do
    action ← from (get (codes "action") body)
    when (truthy action) (do
      o ← reads w.settings
      check_run ← from (is_in (codes "check_run") body)
      when (not (is_ignored o body action check_run))
          (route body event action (sender_of body).id check_run))
