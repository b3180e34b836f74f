-- ===== src/Github.antt =====
-- The GitHub App: pr_insight/servers/github_app.py.
pub mod Filters
pub mod World
pub mod Commands
pub mod Comments
pub mod Requests
pub mod Trigger
