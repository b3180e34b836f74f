-- ===== src/Config/Secrets.antt =====
-- The secrets of a secret manager in the settings: `apply_secrets_to_config` of
-- pr_insight/config_loader.py. The settings object is not code of the repository: S is its type,
-- `get` and `set` are its methods on names such as "OPENAI.KEY", and `is_empty` is `value == ""`.
use pr_insight.Base.{Bool, true, Option, none, some, List, [], ◌∷◌, ◌++◌, if◌then◌else◌}
use pr_insight.Base.Dict.{Dict}
use pr_insight.Base.Text.{Str, codes, split, upper, upper_code}

pub record Store (S V : Type 0) : Type 0 where
  pub get : Str → S → Option V
  pub set : Str → V → S → S
  pub is_empty : V → Bool

-- the name of a setting, for a key with one dot
abbrev name_of : List Str → Option Str
name_of (section ∷ setting ∷ []) = some (upper section ++ (codes "." ++ upper setting))
name_of _ = none

unfoldable pub setting_name : Str → Option Str
unfolding split upper_code
setting_name key = name_of (split b'.' key)

module _ {S V : Type 0} (w : Store S V) where
  -- `current_value is None or current_value == ""`
  abbrev pub is_unset : Option V → Bool
  is_unset none = true
  is_unset (some v) = w.is_empty v

  abbrev pub apply_named : Option Str → V → S → S
  apply_named none value s = s
  apply_named (some name) value s = if is_unset (w.get name s) then w.set name value s else s

  -- the loop of `apply_secrets_to_config`
  unfoldable pub apply_secrets_to_config : Dict V → S → S
  unfolding setting_name
  apply_secrets_to_config [] s = s
  apply_secrets_to_config ((key, value) ∷ secrets) s =
      apply_secrets_to_config secrets (apply_named (setting_name key) value s)
