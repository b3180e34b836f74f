-- ===== src/Models.antt =====
-- The models that a command asks, in their order: `retry_with_fallback_models`, `_get_all_models`
-- and `_get_all_deployments` of pr_insight/algo/pr_processing.py, and `get_model` of
-- pr_insight/algo/settings_utils.py.
pub mod Retry
use pr_insight.Base.{
  ℕ, suc, ◌-◌, Bool, true, false, Option, none, some, List, [], ◌∷◌, ◌≡◌, refl, arith, map, ltb,
  ◌==◌, length, if◌then◌else◌,
}
use pr_insight.Base.Fail.{Outcome, returned, raised, and_then, value_error, other_error}
use pr_insight.Base.Text.{Str, split, strip, strip_by, is_space}
use pr_insight.Settings.{Names, listed, commas, ModelSettings, DeploymentSettings}

-- `ModelType`
pub data ModelType : Type 0 where
  regular weak reasoning : ModelType

-- a text that is not empty
abbrev is_set : Str → Bool
is_set [] = false
is_set (c ∷ s) = true

-- `get_model`, for the two names that it is called with
unfoldable pub get_model : ModelSettings → ModelType → Str
get_model s weak = if is_set s.model_weak then s.model_weak else s.model
get_model s reasoning = if is_set s.model_reasoning then s.model_reasoning else s.model
get_model s regular = s.model

abbrev pub names_of : Names → List Str
names_of (listed names) = names
names_of (commas text) = map strip (split b',' text)

-- `_get_all_models`
unfoldable pub all_models : ModelSettings → ModelType → List Str
unfolding get_model
all_models s t = get_model s t ∷ names_of s.fallback_models

-- `not isinstance(fallback_deployments, list) and fallback_deployments`, and the split
abbrev pub deployments_of : Names → List Str
deployments_of (listed names) = names
deployments_of (commas []) = []
deployments_of (commas (c ∷ text)) = map strip (split b',' (c ∷ text))

abbrev pub each_same : Option Str → List Str → List (Option Str)
each_same d [] = []
each_same d (m ∷ models) = d ∷ each_same d models

-- the branches on `fallback_deployments`
abbrev pub deployments_for : Option Str → List Str → List Str → Outcome (List (Option Str))
deployments_for d [] models = returned (each_same d models)
deployments_for d (x ∷ xs) models =
    if ltb (suc (length (x ∷ xs))) (length models)
    then raised value_error
    else returned (d ∷ map some (x ∷ xs))

-- `_get_all_deployments`
unfoldable pub all_deployments : DeploymentSettings → List Str → Outcome (List (Option Str))
all_deployments s models =
    deployments_for s.deployment_id (deployments_of s.fallback_deployments) models

abbrev pub zip : List Str → List (Option Str) → List (Str × Option Str)
zip [] ds = []
zip (m ∷ ms) [] = []
zip (m ∷ ms) (d ∷ ds) = (m, d) ∷ zip ms ds

-- W is the state of the process, in which a setting can be written; the callback may change it.
module _ {W A : Type 0} (set_deployment : Option Str → W → W) (f : Str → W → Outcome A × W) where
  -- what follows one call of the callback
  abbrev pub after_call :
      Outcome A × W → Bool → (W → Outcome (Option A) × W) → Outcome (Option A) × W
  after_call (returned a, w) last next = (returned (some a), w)
  after_call (raised e, w) true next = (raised other_error, w)
  after_call (raised e, w) false next = next w

  -- the loop over the pairs; i counts them, n is the number of models; after the last pair Python
  -- returns None
  unfoldable pub try_pairs : ℕ → ℕ → List (Str × Option Str) → W → Outcome (Option A) × W
  try_pairs i n [] w = (returned none, w)
  try_pairs i n ((m, d) ∷ pairs) w =
      after_call (f m (set_deployment d w)) (suc i == n) (try_pairs (suc i) n pairs)

  abbrev pub with_deployments : List Str → Outcome (List (Option Str)) → W → Outcome (Option A) × W
  with_deployments models (returned ds) w = try_pairs 0 (length models) (zip models ds) w
  with_deployments models (raised e) w = (raised e, w)

  -- `retry_with_fallback_models`
  unfoldable pub retry_with_fallback_models :
      ModelSettings → DeploymentSettings → ModelType → W → Outcome (Option A) × W
  unfolding all_models all_deployments try_pairs
  retry_with_fallback_models s ds t w =
      with_deployments (all_models s t) (all_deployments ds (all_models s t)) w
