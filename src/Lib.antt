-- ===== src/Lib.antt =====
-- A model of pr-insight, the part of it that decides: how the patches of a pull request become the
-- prompts that a model is asked with, which model is asked, and which settings and arguments are
-- accepted.
--
-- The parts and the code that they are about:
--   Base         Python's texts, integers, dicts, slices and exceptions. A text is the list of its
--                code points; `lower` and `upper` are those of ASCII letters.
--   Settings     The settings that the modelled code reads, as records.
--   Patch        pr_insight/algo/git_patch_processing.py and types.py. Header: RE_HUNK_HEADER and
--                extract_hunk_headers. Omit: omit_deletion_hunks, handle_patch_deletions. Numbered:
--                decouple_and_convert_to_hunks_with_lines_numbers. Extract:
--                extract_hunk_lines_from_patch. Extend: extend_patch, process_patch_lines. Position:
--                find_line_number_of_relevant_line_in_file of pr_insight/algo/patch_utils.py.
--   Tokens       Table: MAX_TOKENS of pr_insight/algo/__init__.py. Limit and Clip: get_max_tokens and
--                clip_tokens of pr_insight/algo/utils.py. Handler: pr_insight/algo/token_handler.py.
--   Processing   pr_insight/algo/pr_processing.py. Extended: pr_generate_extended_diff. Full:
--                generate_full_patch. Compressed: pr_generate_compressed_diff. Diff: get_pr_diff and
--                get_pr_diff_multiple_patchs. Multi: get_pr_multi_diffs. Summary: the AI metadata.
--   Languages    pr_insight/algo/language_handler.py.
--   Models       retry_with_fallback_models of pr_processing.py, and get_model of
--                pr_insight/algo/settings_utils.py.
--   Config       Loader: pr_insight/custom_merge_loader.py. Roots and Secrets: the search for the
--                project and apply_secrets_to_config of pr_insight/config_loader.py. Repo:
--                apply_repo_settings of pr_insight/git_providers/utils.py, over Loader.
--   Cli          pr_insight/algo/cli_args.py, and update_settings_from_args of
--                pr_insight/algo/parser_utils.py.
--   Agent        PRAgent of pr_insight/agent/pr_insight.py.
--   Servers      verify_signature and DefaultDictWithTimeout of pr_insight/servers/utils.py.
--   Github       pr_insight/servers/github_app.py. Filters: is_bot_user, should_process_pr_logic.
--                Commands: the events that run commands by themselves. Comments: the commands in
--                comments. Requests: handle_request. Trigger: the tasks of pushes, as steps.
--   Yaml         load_yaml and try_fix_yaml of pr_insight/algo/parser_utils.py.
--   Ignored      pr_insight/algo/file_filter.py.
--   Providers    pr_insight/git_providers/git_provider.py: descriptions, persistent comments, clones
--                and the main language; and how pr_insight/tools/pr_description.py writes sections.
--   Suggestions  pr_insight/tools/pr_code_suggestions.py. Numbers: remove_line_numbers.
--                Prepare: which suggestions of an answer are kept, over Yaml.
--                Score: the scores that a second answer gives them, and which are kept for them.
--   Tests        The theorems applied to concrete values.
--
-- How they meet: Languages groups the files of a pull request; Processing takes the patches that
-- Patch prepares, counts them with a counter that the token handler gives, and holds them against
-- the limit of Tokens; Models asks for a prompt, one model after the other; Config and Cli fill the
-- settings that all of them read; Agent checks the arguments of a request with Cli and runs a tool.
-- Github decides which events and comments become requests; Yaml reads what a model answers.
--
-- State: the loops of the source keep local variables; each loop is a function on a record of them,
-- and one round of it a function `round` or `step`. An exception is a value of Outcome. A dict is
-- the list of its entries in order. The settings object, the process state, the clock, the digest
-- of a payload, shlex, the encoder, the float products of clip_tokens and of the token estimate,
-- the YAML and TOML parsers, difflib, and the file system are not code of this repository and are
-- arguments of the definitions, and so are the calls of code that is not modelled: the git provider
-- and the run of a tool. The agent also takes apply_repo_settings as an argument. Every loop runs
-- over a list, so that no fuel is needed, except in the decimal notation of a number, whose fuel is
-- above the number.
--
-- Numbers: token counts and sizes are natural numbers; where the source subtracts, the difference
-- is an integer or stands as a sum on the other side. Digits of a hunk header are ASCII digits.
--
-- Tasks: the pushes of a pull request are handled by asyncio, which switches tasks only where one
-- waits. Github.Trigger has one step for what a task does between two waits, and `Reach` is any
-- sequence of such steps; that entries of its dicts expire is left out there.
--
-- Not modelled: the clients of the hosting services, the other web servers, most of the tools, the
-- AI handlers and the markdown output, which are calls of services and text templates.
pub mod Base
pub mod Settings
pub mod Patch
pub mod Tokens
pub mod Processing
pub mod Languages
pub mod Models
pub mod Config
pub mod Cli
pub mod Servers
pub mod Github
pub mod Ignored
pub mod Providers
pub mod Suggestions
pub mod Yaml
pub mod Agent
mod Tests
