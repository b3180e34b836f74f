-- ===== src/Patch.antt =====
-- Patches of one file in the unified diff format: pr_insight/algo/types.py, git_patch_processing.py
-- and patch_utils.py.
pub mod Types
pub mod Header
pub mod Omit
pub mod Numbered
pub mod Extract
pub mod Extend
pub mod Position
