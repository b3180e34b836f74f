-- ===== src/Tests/Webhooks.antt =====
-- The theorems on webhook requests and on answers in YAML, applied to small values.
use pr_insight.Base.{◌++◌, true, false, none, some, List, [], ◌∷◌, ◌≡◌, refl, inl, In}
use pr_insight.Base.Effect.{pure}
use pr_insight.Base.Fail.{returned, raised, value_error}
use pr_insight.Base.Json.{
  Value, Fields, field, end, object, text, boolean, null, lookup_field, truthy, is_text,
}
use pr_insight.Base.Text.{Str, codes, str_eq}
use pr_insight.Github.Trigger.{push, Reach, start, later, unused, at, arrive}
use pr_insight.Github.Trigger.Safe.{
  IsOrderly, WorksNext, IsCovered, Reach-Orderly, waiting-WorksNext, arrive-IsCovered,
}
use pr_insight.Base.{if◌then◌else◌}
use pr_insight.Github.Filters.{FilterSettings, many, should_process_pr_logic}
use pr_insight.Github.World.{AppSettings, World}
use pr_insight.Github.Commands.{
  perform_auto_commands, check_pull_request_event, handle_new_pr_opened, auto_commands,
}
use pr_insight.Github.Comments.{comment_command}
use pr_insight.Github.Comments.Ask.{IsCommand, comment_command-IsCommand}
use pr_insight.Github.Requests.{handle_request}
use pr_insight.Github.Requests.Ignored.{IsDraft, handle_request-draft}
use pr_insight.Yaml.Texts.{with_pipes, with_spaces, with_snippet, without_braces}
use pr_insight.Yaml.Load.{Reader, Keys, load_yaml}
use pr_insight.Yaml.Load.Fence.{fenced, load_yaml-fenced}

abbrev url : Str
url = codes "pr/1"

-- two pushes one after the other
two_pushes : Reach (at url (arrive true 8) (at url (arrive true 7) (λ u. unused)))
two_pushes = later (later start (push url true 7 _)) (push url true 8 _)

Reach-Orderly_example :
    IsOrderly (at url (arrive true 8) (at url (arrive true 7) (λ u. unused)) url)
Reach-Orderly_example = Reach-Orderly two_pushes url

second_waits : In 8 (at url (arrive true 8) (at url (arrive true 7) (λ u. unused)) url).waiting
unfolding arrive str_eq
second_waits = inl refl

waiting-WorksNext_example :
    WorksNext 8 (at url (arrive true 8) (at url (arrive true 7) (λ u. unused)) url)
waiting-WorksNext_example = waiting-WorksNext two_pushes url 8 second_waits

arrive-IsCovered_example :
    IsCovered 9 (arrive true 9 (at url (arrive true 8) (at url (arrive true 7) (λ u. unused)) url))
arrive-IsCovered_example = arrive-IsCovered two_pushes url 9

abbrev no_filters : FilterSettings
no_filters = record {
  ignore_bot_pr = true;
  ignore_repositories = [];
  ignore_pr_authors = [];
  ignore_pr_title = many [];
  ignore_pr_labels = [];
  ignore_pr_source_branches = [];
  ignore_pr_target_branches = [];
}

abbrev app_settings : AppSettings
app_settings = record {
  filter_settings = no_filters;
  handle_pr_actions = codes "opened" ∷ [];
  pr_commands = codes "/describe" ∷ codes "/review --x=1" ∷ [];
  push_commands = codes "/review" ∷ [];
  disable_auto_feedback = false;
  handle_push_trigger = true;
  push_trigger_ignore_merge_commits = true;
  analytics_folder = [];
}

abbrev request_text : Value → Str
request_text (text s) = s
request_text v = []

-- The state is what was run and set, latest first.
abbrev world : World (List Str) Str
world = record {
  settings = λ s. app_settings;
  set = λ k v s. k ∷ s;
  parse = λ t. none;
  raw = λ t. t;
  json_value = λ v. [];
  search = λ p t. returned false;
  shown = λ v. [];
  apply_repo_settings = λ u. pure tt;
  is_eligible = λ u i. pure true;
  get_git_provider_with_context = λ u. pure tt;
  run = λ u r c s. request_text r ∷ s;
  write_pr_statistics = λ u p. pure tt;
  triggered = λ u work. work;
}

abbrev pull_request : Fields
pull_request =
    field (codes "url") (text (codes "pr/1"))
      (field (codes "draft") (boolean false) (field (codes "state") (text (codes "open")) end))

abbrev draft_request : Fields
draft_request =
    field (codes "url") (text (codes "pr/1")) (field (codes "state") (text (codes "open")) end)

abbrev body_of : Str → Fields → Fields
body_of action p =
    field (codes "action") (text action) (field (codes "pull_request") (object p) end)

has_action :
    lookup_field (codes "action") (body_of (codes "opened") draft_request)
    ≡ some (text (codes "opened"))
unfolding lookup_field
has_action = refl

has_request :
    (p : Fields)
    → lookup_field (codes "pull_request") (body_of (codes "opened") p) ≡ some (object p)
unfolding lookup_field
has_request p = refl

not_said : IsDraft draft_request
unfolding lookup_field truthy is_text
not_said = refl

not_named :
    (is_text (codes "created") (text (codes "opened")) ≡ false)
    × (is_text (codes "closed") (text (codes "opened")) ≡ false)
unfolding is_text
not_named = (refl, refl)

handle_request-draft_example :
    handle_request world
      (object (body_of (codes "opened") draft_request))
      (text (codes "pull_request"))
      []
    ≡ (returned tt, [])
handle_request-draft_example =
    handle_request-draft world (codes "opened") (body_of (codes "opened") draft_request)
      draft_request [] has_action (has_request draft_request) not_named.0 not_named.1 not_said

-- The state is what was given to the agent.
abbrev log_world : World (List (Value × Value)) Str
log_world = record {
  settings = λ s. app_settings;
  set = λ k v s. s;
  parse = λ t. none;
  raw = λ t. t;
  json_value = λ v. [];
  search = λ p t. returned false;
  shown = λ v. [];
  apply_repo_settings = λ u. pure tt;
  is_eligible = λ u i. pure true;
  get_git_provider_with_context = λ u. pure tt;
  run = λ u r c s. s ++ (u, r) ∷ [];
  write_pr_statistics = λ u p. pure tt;
  triggered = λ u work. work;
}

both_given :
    (handle_new_pr_opened log_world
      (text (codes "opened"))
      (object (body_of (codes "opened") pull_request))
      null
      []).1
    ≡ (text (codes "pr/1"), text (codes "/describe"))
      ∷ (text (codes "pr/1"), text (codes "/review"))
      ∷ []
unfolding handle_new_pr_opened check_pull_request_event perform_auto_commands
    should_process_pr_logic auto_commands
both_given = refl

comment_command-IsCommand_example : IsCommand (comment_command (text (b'/' ∷ codes "ask why")))
comment_command-IsCommand_example = comment_command-IsCommand b'/' (codes "ask why")

image_comment :
    comment_command (text (codes "> ![image](x)\n/ask why"))
    ≡ returned (some (text (codes "/ask why \n ![image](x)")))
unfolding comment_command
image_comment = refl

-- A reader that knows one text.
abbrev reader : Reader Str
reader = record {
  safe_load = λ s. if str_eq s (codes "a: 1") then returned s else raised value_error;
  empty = [];
  is_true = λ d. true;
  from_latin_1 = λ s. raised value_error;
  from_utf_16 = λ s. raised value_error;
}

abbrev no_keys : Keys
no_keys = record { keys_fix_yaml = []; first_key = []; last_key = [] }

braces_removed : load_yaml reader no_keys (codes "{a: 1}") ≡ codes "a: 1"
unfolding load_yaml str_eq with_pipes with_spaces with_snippet without_braces
braces_removed = refl

reads_it : reader.safe_load (codes "a: 1") ≡ returned (codes "a: 1")
unfolding str_eq
reads_it = refl

load_yaml-fenced_example : load_yaml reader no_keys (fenced (codes "a: 1")) ≡ codes "a: 1"
load_yaml-fenced_example = load_yaml-fenced reader no_keys (codes "a: 1") (codes "a: 1") reads_it
