-- ===== src/Tokens/Limit.antt =====
-- `get_max_tokens`.
use pr_insight.Base.{
  ℕ, ◌≤◌, ◌<◌, String, Bool, true, ◌&&◌, Option, none, some, List, [], ◌∷◌, ◌≡◌, ◌⊎◌, refl, arith,
  ltb, min, if◌then◌else◌,
}
use pr_insight.Base.Fail.{Outcome, returned, raised, other_error}
use pr_insight.Base.Int.{pos, pos_part, ltb_ℤ, ◌≤ℤ◌}
use pr_insight.Base.Text.{Str, codes, str_eq}
use pr_insight.Settings.{ModelSettings}
use pr_insight.Tokens.Table.{max_tokens_table}

find_model : Str → List (String × ℕ) → Option ℕ
find_model model [] = none
find_model model ((name, n) ∷ table) =
    if str_eq (codes name) model then some n else find_model model table

-- `MAX_TOKENS[model]`, if the model is there
unfoldable pub known_limit : Str → Option ℕ
unfolding find_model max_tokens_table
known_limit model = find_model model max_tokens_table

-- "if settings.config.max_model_tokens and …"
cap_limit : ModelSettings → ℕ → ℕ
cap_limit settings n =
    if ltb_ℤ (pos 0) settings.max_model_tokens
    then min (pos_part settings.max_model_tokens) n
    else n

unfoldable pub get_max_tokens : ModelSettings → Str → Outcome ℕ
unfolding cap_limit
get_max_tokens settings model = elim (known_limit model) [
  | some n ↦ returned (cap_limit settings n)
  | none ↦
      if ltb_ℤ (pos 0) settings.custom_model_max_tokens
      then returned (cap_limit settings (pos_part settings.custom_model_max_tokens))
      else raised other_error
]

-- A model that is in the table has its entry for a limit, or `max_model_tokens` if that is positive
-- and lower.
pub get_max_tokens-known :
    (settings : ModelSettings) (model : Str) (n : ℕ)
    → known_limit model ≡ some n
    → (k : ℕ) × (get_max_tokens settings model ≡ returned k)
      × (k ≤ n)
      × ((settings.max_model_tokens ≤ℤ pos 0) ⊎ (pos k ≤ℤ settings.max_model_tokens))
      × ((k ≡ n) ⊎ (pos k ≡ settings.max_model_tokens))
unfolding get_max_tokens
get_max_tokens-known settings model n h =
    (cap_limit settings n, ground arith, ground arith, ground arith, ground arith)

-- The call raises when the model is not in the table and no positive limit is configured.
pub get_max_tokens-raises :
    (settings : ModelSettings) (model : Str)
    → known_limit model ≡ none
    → settings.custom_model_max_tokens ≤ℤ pos 0
    → get_max_tokens settings model ≡ raised other_error
unfolding get_max_tokens
get_max_tokens-raises settings model h c = ground arith

above_all : ℕ → List (String × ℕ) → Bool
above_all b [] = true
above_all b ((name, n) ∷ table) = ltb b n && above_all b table

find_model-above :
    (b : ℕ) (table : List (String × ℕ)) (model : Str) (n : ℕ)
    → above_all b table ≡ true
    → find_model model table ≡ some n
    → b < n
unfolding above_all find_model
find_model-above b [] model n t h = cc
find_model-above b ((name, m) ∷ table) model n t h =
    ground (arith, find_model-above b table model n)

table_above : above_all 1500 max_tokens_table ≡ true
unfolding above_all max_tokens_table
table_above = refl

-- Every limit of the table is above the larger of the two output buffers.
pub known_limit-above_buffer : (model : Str) (n : ℕ) → known_limit model ≡ some n → 1500 < n
unfolding known_limit
known_limit-above_buffer model n h = find_model-above 1500 max_tokens_table model n table_above h
