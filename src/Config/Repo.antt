-- ===== src/Config/Repo.antt =====
-- The settings that a repository brings: `apply_repo_settings` of pr_insight/git_providers/utils.py.
pub mod Forbidden
use pr_insight.Base.{Bool, true, false, not, Option, none, some, List, [], ◌∷◌, ◌++◌, if◌then◌else◌}
use pr_insight.Base.Dict.{Dict, lookup, insert, erase}
use pr_insight.Base.Fail.{Outcome, returned, raised, and_then, Exception, type_error}
use pr_insight.Base.Text.{Str, codes, lower, lower_code, str_eq}
use pr_insight.Config.Loader.{
  Toml, plain, array, item, no_items, Sections, section_of, SettingsFile, load,
}

-- The settings object, the `repo_settings` of the request's context, and the comments that are
-- posted.
pub record Session : Type 0 where
  pub settings : Sections
  pub cached : Option Str
  pub comments : List Str

-- What is not code of the repository, or not modelled. `file_of` is the temporary file that a text is
-- written to; `constructor_` is `Dynaconf` with the arguments of the security, which raises TypeError
-- in versions without them, and `load_default` what the object without them reads. `set` is the
-- settings object's, on names with dots, and `store` that of the new object, on sections.
pub record Host : Type 0 where
  pub get_git_provider : Outcome {0} Unit
  pub has_context : Bool
  pub get_repo_settings : Outcome Str
  pub file_of : Str → SettingsFile
  pub silent : Bool
  pub constructor_ : Outcome {0} Unit
  pub load_default : SettingsFile → Outcome Sections
  pub is_supported_gfm : Bool
  pub publishes : Outcome {0} Unit
  pub message : Exception → Str
  pub use_repo_settings_file : Sections → Bool
  pub model : Sections → Str
  pub set : Str → Toml → Sections → Sections
  pub store : Str → Dict Toml → Sections → Outcome Sections

-- `for key, value in contents.items(): section_dict[key] = value`
unfoldable pub override : Dict Toml → Dict Toml → Dict Toml
unfolding insert
override [] section_dict = section_dict
override ((key, value) ∷ contents) section_dict = override contents (insert key value section_dict)

-- a section: `unset`, and `set` without a merge
abbrev apply_section : Str → Dict Toml → Sections → Sections
apply_section section contents s =
    insert section (override contents (section_of (lookup section s))) (erase section s)

-- the loop over the sections of the new settings
unfoldable pub apply_sections : Sections → Sections → Sections
unfolding override lookup insert erase
apply_sections [] s = s
apply_sections ((section, []) ∷ new) s = apply_sections new s
apply_sections ((section, c ∷ contents) ∷ new) s =
    apply_sections new (apply_section section (c ∷ contents) s)

-- `header` and `body` of `handle_configurations_errors`
abbrev error_header : Str
error_header = codes "❌ **PR-Insight failed to apply 'local' repo settings**"

abbrev error_body : Bool → Str → Str → Str
error_body gfm message content =
    error_header
    ++ (codes
          "\n\nThe configuration file needs to be a valid [TOML](https://repolense-merge-docs.khulnasoft.com/usage-guide/configuration_options/), please fix it.\n\n"
        ++ (codes "___\n\n**Error message:**\n`"
            ++ (message
                ++ (codes "`\n\n"
                    ++ (if gfm
                        then codes
                            "\n\n<details><summary>Configuration content:</summary>\n\n```toml\n"
                          ++ (content ++ codes "\n```\n\n</details>")
                        else codes "\n\n**Configuration content:**\n\n```toml\n"
                          ++ (content ++ codes "\n```\n\n"))))))

abbrev model_claude : Str
model_claude = codes "bedrock/anthropic.claude-3-5-sonnet-20240620-v1:0"

module _ (h : Host) where
  -- `set_claude_model`
  abbrev set_claude_model : Sections → Sections
  set_claude_model s =
      h.set (codes "config.fallback_models") (array (item (plain model_claude) no_items)) (
        h.set (codes "config.model_weak") (plain model_claude)
          (h.set (codes "config.model") (plain model_claude) s))

  -- the short name of a model
  unfoldable pub with_model : Sections → Sections
  unfolding str_eq lower_code
  with_model s =
      if str_eq (lower (h.model s)) (codes "claude-3-5-sonnet") then set_claude_model s else s

  -- `new_settings.as_dict()`: the object loads when it is first read
  abbrev pub new_settings : SettingsFile → Outcome Sections
  new_settings file = elim h.constructor_ [
    | returned u ↦ load h.store h.silent false false none (file ∷ []) []
    | raised type_error ↦ h.load_default file
    | raised e ↦ raised e
  ]

  -- `handle_configurations_errors`, which catches what the comment raises
  abbrev with_error : Str → Exception → Session → Session
  with_error text e s = elim h.publishes [
    | returned u ↦ record s {
      comments = error_body h.is_supported_gfm (h.message e) text ∷ s.comments;
    }
    | raised e' ↦ s
  ]

  abbrev pub with_new : Str → Outcome Sections → Session → Session
  with_new text (returned new) s = record s { settings = apply_sections new s.settings }
  with_new text (raised e) s = with_error text e s

  -- a text of settings, where the empty one says that there are none
  abbrev pub with_text : Str → Session → Session
  with_text [] s = s
  with_text (c ∷ text) s = with_new (c ∷ text) (new_settings (h.file_of (c ∷ text))) s

  -- `context["repo_settings"] = repo_settings`
  abbrev pub keep : Str → Session → Session
  keep text s = if h.has_context then record s { cached = some text } else s

  abbrev fetched : Outcome Str → Session → Session
  fetched (returned text) s = with_text text (keep text s)
  fetched (raised e) s = s

  -- `context.get("repo_settings", None)`
  abbrev pub in_context : Session → Option Str
  in_context s = if h.has_context then s.cached else none

  abbrev pub from_repo : Option Str → Session → Session
  from_repo (some text) s = with_text text s
  from_repo none s = fetched h.get_repo_settings s

  abbrev pub finish : Session → Session
  finish s = record s { settings = with_model s.settings }

  abbrev pub after_repo : Session → Session
  after_repo s = if h.use_repo_settings_file s.settings then from_repo (in_context s) s else s

  -- `apply_repo_settings`
  unfoldable pub apply_repo_settings : Session → Outcome Session
  unfolding apply_sections
  apply_repo_settings s = and_then h.get_git_provider (λ u. returned (finish (after_repo s)))
