-- ===== src/Models/Retry.antt =====
-- What `retry_with_fallback_models` does when a model answers, and when none does.
use pr_insight.Base.{
  ℕ, suc, ◌+◌, ◌≤◌, ◌<◌, Bool, true, false, Option, none, some, List, [], ◌∷◌, ◌++◌, ◌≡◌, refl,
  arith, map, ltb, ◌==◌, length, length-append, subst, ap, ◌∙◌, if_cases,
}
use pr_insight.Base.Fail.{Outcome, returned, raised, value_error, other_error, Returns}
use pr_insight.Base.Text.{Str}
use pr_insight.Settings.{ModelSettings, DeploymentSettings}
use pr_insight.Models.{
  ModelType, all_models, all_deployments, deployments_for, deployments_of, each_same, zip,
  after_call, try_pairs, with_deployments, retry_with_fallback_models,
}

length-each_same :
    (d : Option Str) (models : List Str) → length (each_same d models) ≡ length models
length-each_same d [] = refl
length-each_same d (m ∷ models) = omega (arith, length-each_same d models)

length-map-some : (xs : List Str) → length (map {B = Option Str} some xs) ≡ length xs
length-map-some [] = refl
length-map-some (x ∷ xs) = omega (arith, length-map-some xs)

deployments_for_enough :
    (d : Option Str) (xs models : List Str)
    → Returns (deployments_for d xs models) (λ ds. length models ≤ length ds)
deployments_for_enough d [] models = omega (arith, length-each_same d models)
deployments_for_enough d (x ∷ xs) models =
    if_cases (λ r. Returns r (λ ds. length models ≤ length ds))
      (ltb (suc (length (x ∷ xs))) (length models)) (raised value_error)
      (returned (d ∷ map some (x ∷ xs))) (λ h. tt) (λ h. ground (arith, h, length-map-some xs))

-- Whenever `_get_all_deployments` returns, there is a deployment for each of the models.
pub all_deployments-Returns :
    (s : DeploymentSettings) (models : List Str)
    → Returns (all_deployments s models) (λ ds. length models ≤ length ds)
unfolding all_deployments
all_deployments-Returns s models =
    deployments_for_enough s.deployment_id (deployments_of s.fallback_deployments) models

length-zip :
    (ms : List Str) (ds : List (Option Str))
    → length ms ≤ length ds
    → length (zip ms ds) ≡ length ms
length-zip [] ds h = refl
length-zip (m ∷ ms) [] h = omega (arith, h)
length-zip (m ∷ ms) (d ∷ ds) h = omega (arith, h, length-zip ms ds (omega (arith, h)))

some_model : (s : ModelSettings) (t : ModelType) → 0 < length (all_models s t)
unfolding all_models
some_model s t = omega arith

module _ {W A : Type 0} (set_deployment : Option Str → W → W) (f : Str → W → Outcome A × W) where
  -- the state that is left when the callback answers
  abbrev next_state : Outcome A × W → (W → Option W) → Option W
  next_state (returned a, w) go = none
  next_state (raised e, w) go = go w

  -- the state after the calls for these pairs, if every one of them raises
  abbrev pub all_raise : List (Str × Option Str) → W → Option W
  all_raise [] w = some w
  all_raise ((m, d) ∷ pairs) w = next_state (f m (set_deployment d w)) (all_raise pairs)

  skip_one :
      (r : Outcome A × W) (go : W → Option W) (w1 : W) (b : Bool)
      (next : W → Outcome (Option A) × W)
      → next_state r go ≡ some w1
      → b ≡ false
      → (w' : W) × (go w' ≡ some w1) × (after_call set_deployment f r b next ≡ next w')
  skip_one (returned a, w) go w1 b next h e = grind (arith, h)
  skip_one (raised x, w) go w1 true next h e = ground (arith, e)
  skip_one (raised x, w) go w1 false next h e = (w, h, refl)

  try_pairs-skips :
      (i n : ℕ) (before rest : List (Str × Option Str)) (w w1 : W)
      → all_raise before w ≡ some w1
      → i + length before < n
      → try_pairs set_deployment f i n (before ++ rest) w
        ≡ try_pairs set_deployment f (i + length before) n rest w1
  unfolding try_pairs
  try_pairs-skips i n [] rest w w1 h l = ground (arith, h)
  try_pairs-skips i n ((m, d) ∷ before) rest w w1 h l =
      let (w', g, q) =
        skip_one (f m (set_deployment d w)) (all_raise before) w1 (suc i == n)
          (try_pairs set_deployment f (suc i) n (before ++ rest)) h (ground (arith, l)) in
      q
      ∙ try_pairs-skips (suc i) n before rest w' w1 g (omega (arith, l))
      ∙ ap (λ j. try_pairs set_deployment f j n rest w1) (omega arith)

  last_one :
      (r : Outcome A × W) (w1 : W) (next : W → Outcome (Option A) × W)
      → next_state r some ≡ some w1
      → after_call set_deployment f r true next ≡ (raised other_error, w1)
  last_one (returned a, w) w1 next h = grind (arith, h)
  last_one (raised x, w) w1 next h = grind (arith, h)

  try_pairs-all_raise :
      (i n : ℕ) (p : Str × Option Str) (pairs : List (Str × Option Str)) (w w1 : W)
      → all_raise (p ∷ pairs) w ≡ some w1
      → i + length (p ∷ pairs) ≡ n
      → try_pairs set_deployment f i n (p ∷ pairs) w ≡ (raised other_error, w1)
  unfolding try_pairs
  try_pairs-all_raise i n (m, d) [] w w1 h e =
      ap
        (λ b.
          after_call set_deployment f (f m (set_deployment d w)) b
            (try_pairs set_deployment f (suc i) n []))
        (ground (arith, e))
      ∙ last_one (f m (set_deployment d w)) w1 (try_pairs set_deployment f (suc i) n []) h
  try_pairs-all_raise i n (m, d) (q ∷ pairs) w w1 h e =
      let (w', g, s) =
        skip_one (f m (set_deployment d w)) (all_raise (q ∷ pairs)) w1 (suc i == n)
          (try_pairs set_deployment f (suc i) n (q ∷ pairs)) h (ground (arith, e)) in
      s ∙ try_pairs-all_raise (suc i) n q pairs w' w1 g (omega (arith, e))

  answers_here :
      (i n : ℕ) (m : Str) (d : Option Str) (after : List (Str × Option Str)) (w w2 : W) (a : A)
      → f m (set_deployment d w) ≡ (returned a, w2)
      → try_pairs set_deployment f i n ((m, d) ∷ after) w ≡ (returned (some a), w2)
  unfolding try_pairs
  answers_here i n m d after w w2 a h =
      ap
        (λ r.
          after_call set_deployment f r (suc i == n) (try_pairs set_deployment f (suc i) n after))
        h

  all_raise_from :
      (ms : List Str) (ds : List (Option Str)) (w w1 : W)
      → length (zip ms ds) ≡ length ms
      → 0 < length ms
      → all_raise (zip ms ds) w ≡ some w1
      → try_pairs set_deployment f 0 (length ms) (zip ms ds) w ≡ (raised other_error, w1)
  all_raise_from [] ds w w1 e l h = ground (arith, l)
  all_raise_from (m ∷ ms) [] w w1 e l h = ground (arith, e)
  all_raise_from (m ∷ ms) (d ∷ ds) w w1 e l h =
      try_pairs-all_raise 0 (length (m ∷ ms)) (m, d) (zip ms ds) w w1 h (omega (arith, e))

  retry_runs :
      (s : ModelSettings) (ds : DeploymentSettings) (t : ModelType) (w : W)
      (deployments : List (Option Str))
      → all_deployments ds (all_models s t) ≡ returned deployments
      → retry_with_fallback_models set_deployment f s ds t w
        ≡ try_pairs set_deployment f 0
            (length (all_models s t))
            (zip (all_models s t) deployments)
            w
  unfolding retry_with_fallback_models
  retry_runs s ds t w deployments hd =
      ap (λ r. with_deployments set_deployment f (all_models s t) r w) hd

  each_has_deployment :
      (ds : DeploymentSettings) (models : List Str) (deployments : List (Option Str))
      → all_deployments ds models ≡ returned deployments
      → length (zip models deployments) ≡ length models
  each_has_deployment ds models deployments hd = length-zip models deployments (
      subst (λ r. Returns r (λ xs. length models ≤ length xs)) hd
        (all_deployments-Returns ds models))

  -- When the calls for the first pairs of a model and its deployment raise, and the callback then
  -- answers for the next pair, the answer is the result: the models stand in their order, each call
  -- is made in the state that the calls before it left with the pair's deployment set, and no later
  -- model is asked.
  pub retry-answers :
      (s : ModelSettings) (ds : DeploymentSettings) (t : ModelType) (w w1 w2 : W)
      (deployments : List (Option Str)) (before after : List (Str × Option Str)) (m : Str)
      (d : Option Str) (a : A)
      → all_deployments ds (all_models s t) ≡ returned deployments
      → zip (all_models s t) deployments ≡ before ++ (m, d) ∷ after
      → all_raise before w ≡ some w1
      → f m (set_deployment d w1) ≡ (returned a, w2)
      → retry_with_fallback_models set_deployment f s ds t w ≡ (returned (some a), w2)
  unfolding retry_with_fallback_models
  retry-answers s ds t w w1 w2 deployments before after m d a hd hz hb ha =
      let n = length (all_models s t) in
      let e : length before + suc (length after) ≡ n = omega (
        arith,
        length-append before ((m, d) ∷ after),
        ap length hz,
        each_has_deployment ds (all_models s t) deployments hd,
      ) in
      retry_runs s ds t w deployments hd
      ∙ ap (λ ps. try_pairs set_deployment f 0 n ps w) hz
      ∙ try_pairs-skips 0 n before ((m, d) ∷ after) w w1 hb (omega (arith, e))
      ∙ answers_here (0 + length before) n m d after w1 w2 a ha

  -- When every call raises, so does `retry_with_fallback_models`, after it has asked every model.
  pub retry-all_raise :
      (s : ModelSettings) (ds : DeploymentSettings) (t : ModelType) (w w1 : W)
      (deployments : List (Option Str))
      → all_deployments ds (all_models s t) ≡ returned deployments
      → all_raise (zip (all_models s t) deployments) w ≡ some w1
      → retry_with_fallback_models set_deployment f s ds t w ≡ (raised other_error, w1)
  unfolding retry_with_fallback_models
  retry-all_raise s ds t w w1 deployments hd hw =
      retry_runs s ds t w deployments hd
      ∙ all_raise_from (all_models s t) deployments w w1
          (each_has_deployment ds (all_models s t) deployments hd) (some_model s t) hw
