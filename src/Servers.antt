-- ===== src/Servers.antt =====
-- What the web servers share: pr_insight/servers/utils.py.
pub mod Signature
pub mod Timeouts
