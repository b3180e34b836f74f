-- ===== src/Yaml.antt =====
-- The repair of the YAML that a model answers: `load_yaml` and `try_fix_yaml` of
-- pr_insight/algo/parser_utils.py.
pub mod Texts
pub mod Load
