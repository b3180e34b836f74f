-- ===== src/Tests.antt =====
-- The theorems applied to concrete values.
mod Patches
mod Prompts
mod Services
mod Diffs
mod Requests
mod Webhooks
mod Providers
mod Suggestions
