-- ===== src/Settings.antt =====
-- The settings that the modelled code reads: `get_settings()` of pr_insight/config_loader.py gives
-- an object of which each record below is a part. A key that is not set has the default that the
-- code names where it reads it.
use pr_insight.Base.{Bool, Option, List}
use pr_insight.Base.Int.{ℤ}
use pr_insight.Base.Text.{Str}

-- section `config`: what bears on patches
pub record PatchSettings : Type 0 where
  pub allow_dynamic_context : Bool
  pub max_extra_lines_before_dynamic_context : ℤ
  pub patch_extension_skip_types : List Str
  pub patch_extra_lines_before : ℤ
  pub patch_extra_lines_after : ℤ
  pub enable_ai_metadata : Bool
  pub large_patch_policy : Str

-- A setting that is a list of names, or one text with the names between commas.
pub data Names : Type 0 where
  listed : List Str → Names
  commas : Str → Names

-- section `config`: what bears on models
pub record ModelSettings : Type 0 where
  pub model : Str
  pub model_weak : Str
  pub model_reasoning : Str
  pub fallback_models : Names
  pub custom_model_max_tokens : ℤ
  pub max_model_tokens : ℤ

-- section `openai`: the deployments
pub record DeploymentSettings : Type 0 where
  pub deployment_id : Option Str
  pub fallback_deployments : Names
