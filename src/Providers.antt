-- ===== src/Providers.antt =====
-- What all git providers share: pr_insight/git_providers/git_provider.py.
pub mod Description
pub mod Comments
pub mod Clones
pub mod MainLanguage
