-- ===== src/Suggestions.antt =====
-- The code suggestions: pr_insight/tools/pr_code_suggestions.py.
pub mod Numbers
pub mod Prepare
pub mod Score
