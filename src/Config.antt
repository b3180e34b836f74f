-- ===== src/Config.antt =====
-- The loading of the configuration.
pub mod Loader
pub mod Roots
pub mod Secrets
pub mod Repo
