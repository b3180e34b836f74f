-- ===== src/Github/World.antt =====
-- The settings of the GitHub App, and what its handlers call.
use pr_insight.Base.{Bool, Option, List}
use pr_insight.Base.Effect.{Effect}
use pr_insight.Base.Fail.{Outcome}
use pr_insight.Base.Json.{Value}
use pr_insight.Base.Text.{Str}
use pr_insight.Github.Filters.{FilterSettings}

-- Section `github_app`, and what the handlers read of `config`.
pub record AppSettings : Type 0 where
  pub filter_settings : FilterSettings
  pub handle_pr_actions : List Str
  pub pr_commands : List Str
  pub push_commands : List Str
  pub disable_auto_feedback : Bool
  pub handle_push_trigger : Bool
  pub push_trigger_ignore_merge_commits : Bool
  pub analytics_folder : Str

-- S is the state with the settings object in it, V the values of settings. `search` is `re.search`;
-- `shown` is `str` of a list or a dict. `run` is `PRAgent.handle_request`, which catches what its
-- tools raise, of the url, the request and, for a comment, its id and `disable_eyes`.
-- `triggered url work` is the part of `handle_push_trigger_for_new_commits` that counts the tasks of
-- a pull request: it does the work, at once or later, or skips it.
pub record World (S V : Type 0) : Type 0 where
  pub settings : S → AppSettings
  pub set : Str → V → S → S
  pub parse : Str → Option V
  pub raw : Str → V
  pub json_value : Value → V
  pub search : Str → Str → Outcome Bool
  pub shown : Value → Str
  pub apply_repo_settings : Value → Effect S (Unit {0})
  pub is_eligible : Value → Value → Effect S Bool
  pub get_git_provider_with_context : Value → Effect S (Unit {0})
  pub run : Value → Value → Option (Value × Bool) → S → S
  pub write_pr_statistics : Value → Value → Effect S (Unit {0})
  pub triggered : Value → Effect S (Unit {0}) → Effect S (Unit {0})
