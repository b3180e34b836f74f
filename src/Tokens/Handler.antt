-- ===== src/Tokens/Handler.antt =====
-- `TokenHandler.count_tokens`, `_get_token_count_by_model_type`, `_calc_claude_tokens` and
-- `ModelTypeValidator` of pr_insight/algo/token_handler.py.
use pr_insight.Base.{
  ℕ, ◌+◌, ◌≤◌, Bool, true, false, ◌&&◌, ◌||◌, Option, none, some, [], ◌∷◌, ◌≡◌, ◌⊎◌, arith, leb,
  ltb, if◌then◌else◌,
}
use pr_insight.Base.Fail.{Outcome, returned, raised, other_error}
use pr_insight.Base.Text.{Str, codes, contains, str_eq, lower}

-- `re.match(r"^o[1-9](-mini|-preview)?$", name)`; `$` lets a last line break stand
o_model_rest : Str → Bool
o_model_rest rest =
    str_eq rest []
    || str_eq rest (codes "\n")
    || str_eq rest (codes "-mini")
    || str_eq rest (codes "-mini\n")
    || str_eq rest (codes "-preview")
    || str_eq rest (codes "-preview\n")

o_model : Str → Bool
unfolding o_model_rest
o_model (o ∷ d ∷ rest) =
    str_eq (o ∷ []) (codes "o") && leb b'1' d && leb d b'9' && o_model_rest rest
o_model _ = false

unfoldable pub is_openai_model : Str → Bool
unfolding o_model
is_openai_model name = contains (codes "gpt") name || o_model name

unfoldable pub is_anthropic_model : Str → Bool
is_anthropic_model name = contains (codes "claude") name

-- What the handler takes from elsewhere: the settings, the encoder, the Anthropic client and the
-- float product of the estimate. `limit` is `MAX_TOKENS[model]` if that is there, and
-- `client_ready` says that the client could be imported and made before it is read.
pub record Service : Type 0 where
  pub model : Str
  pub openai_key : Bool
  pub anthropic_key : Bool
  pub encode_length : Str → ℕ
  pub byte_length : Str → ℕ
  pub client_ready : Bool
  pub limit : Option ℕ
  pub count_remotely : Str → Option ℕ
  pub apply_factor : ℕ → ℕ

abbrev pub claude_max_content_size : ℕ
claude_max_content_size = 9000000

-- the part of the `try` where `max_tokens` is bound; an exception gives it back
ask_client : Service → Str → ℕ → ℕ
ask_client v patch max_tokens =
    if ltb claude_max_content_size (v.byte_length patch)
    then max_tokens
    else elim (v.count_remotely patch) [ none ↦ max_tokens | some n ↦ n ]

-- `_calc_claude_tokens`: where an exception comes before `max_tokens` is bound, the handler's
-- `return max_tokens` raises in its turn.
unfoldable pub calc_claude_tokens : Service → Str → Outcome ℕ
unfolding ask_client
calc_claude_tokens v patch =
    if v.client_ready
    then elim v.limit [ none ↦ raised other_error | some n ↦ returned (ask_client v patch n) ]
    else raised other_error

unfoldable pub token_count_by_model_type : Service → Str → ℕ → Outcome ℕ
unfolding calc_claude_tokens
token_count_by_model_type v patch estimate =
    if is_openai_model (lower v.model) && v.openai_key
    then returned estimate
    else if is_anthropic_model (lower v.model) && v.anthropic_key
    then calc_claude_tokens v patch
    else returned (v.apply_factor estimate)

unfoldable pub count_tokens : Service → Str → Bool → Outcome ℕ
unfolding token_count_by_model_type
count_tokens v patch force_accurate =
    if force_accurate
    then token_count_by_model_type v patch (v.encode_length patch)
    else returned (v.encode_length patch)

-- An accurate count raises nothing if the Anthropic client is there and the model is in the table;
-- a content above the size limit is counted as the whole limit of the model, as is one whose
-- remote count fails.
pub count_tokens_claude :
    (v : Service) (patch : Str) (n : ℕ)
    → v.client_ready ≡ true
    → v.limit ≡ some n
    → is_anthropic_model (lower v.model) ≡ true
    → is_openai_model (lower v.model) ≡ false
    → v.anthropic_key ≡ true
    → (claude_max_content_size + 1 ≤ v.byte_length patch) ⊎ (v.count_remotely patch ≡ none)
    → count_tokens v patch true ≡ returned n
unfolding count_tokens
count_tokens_claude v patch n ready limit a o key why = ground arith
