-- ===== src/Processing.antt =====
-- From the files of a pull request to the text of a prompt: pr_insight/algo/pr_processing.py.
pub mod Full
pub mod Sorted
pub mod Files
pub mod Summary
pub mod Extended
pub mod Compressed
pub mod Diff
pub mod Multi
