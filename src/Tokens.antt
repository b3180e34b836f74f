-- ===== src/Tokens.antt =====
-- Token limits and clipping: `get_max_tokens` and `clip_tokens` of pr_insight/algo/utils.py (the
-- same functions stand in settings_utils.py), and `TokenHandler` of token_handler.py.
mod Table
pub mod Limit
pub mod Clip
pub mod Handler
