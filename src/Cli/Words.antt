-- ===== src/Cli/Words.antt =====
-- Which arguments `validate_user_args` refuses, told apart from its code.
use pr_insight.Base.{
  Bool, true, false, none, some, List, [], ◌∷◌, ◌++◌, ◌≡◌, refl, arith, map, ap, ◌∙◌, ◌&&◌, ◌==◌,
  if◌then◌else◌, select, any, ◌||◌, Bool-cases, inl, inr, if_either,
}
use pr_insight.Base.Text.{Str, codes, lower_code, replace, replace_from, starts_with, contains}
use pr_insight.Cli.{
  forbidden_cli_args, first_in, word_of, is_option, validate_loop, validate_user_args,
}

-- the words that no option may have in it
abbrev pub forbidden : List Str
forbidden = map codes (
    ".shared_secret" ∷ ".user" ∷ ".system" ∷ ".enable_comment_approval" ∷ ".enable_manual_approval"
    ∷ ".enable_auto_approval" ∷ ".approve_pr_on_self_review" ∷ ".base_url" ∷ ".url" ∷ ".app_name"
    ∷ ".secret_provider" ∷ ".git_provider" ∷ ".skip_keys" ∷ "openai.key" ∷ ".analytics_folder"
    ∷ ".uri" ∷ ".app_id" ∷ ".webhook_secret" ∷ ".bearer_token" ∷ ".personal_access_token"
    ∷ ".override_deployment_type" ∷ ".private_key" ∷ ".local_cache_path" ∷ ".enable_local_cache"
    ∷ ".jira_base_url" ∷ ".api_base" ∷ ".api_type" ∷ ".api_version" ∷ ".skip_keys" ∷ [])

-- an argument in small letters, with two underscores read as a dot, from left to right
abbrev pub dotted_arg : Str → Str
dotted_arg [] = []
dotted_arg (c ∷ []) = lower_code c ∷ []
dotted_arg (c ∷ d ∷ s) = elim (c == b'_' && d == b'_') [
  | true ↦ b'.' ∷ dotted_arg s
  | false ↦ lower_code c ∷ dotted_arg (d ∷ s)
]

abbrev pub is_dashed : Str → Bool
is_dashed (c ∷ d ∷ s) = c == b'-' && d == b'-'
is_dashed _ = false

-- the forbidden words in the options, in the order of the arguments
abbrev pub found : List Str → List Str
found [] = []
found (arg ∷ args) =
    let rest = found args in
    if is_dashed arg then select (λ w. contains w (dotted_arg arg)) forbidden ++ rest else rest

abbrev pub first_found : List Str → Bool × Str
first_found [] = (true, [])
first_found (w ∷ words) = (false, w)

forbidden_lem : forbidden_cli_args ≡ forbidden
unfolding forbidden_cli_args
forbidden_lem = refl

is_option_lem : (arg : Str) → is_option arg ≡ is_dashed arg
unfolding starts_with
is_option_lem [] = refl
is_option_lem (c ∷ []) = ground arith
is_option_lem (c ∷ d ∷ s) = ground arith

word_of_lem : (arg : Str) → word_of arg ≡ dotted_arg arg
unfolding word_of replace replace_from starts_with
word_of_lem [] = refl
word_of_lem (c ∷ []) = ground arith
word_of_lem (c ∷ d ∷ s) = ground (arith, word_of_lem s, word_of_lem (d ∷ s))

if_cong :
    (b : Bool) (x y : Bool × Str) (xs ys : List Str)
    → x ≡ first_found xs
    → y ≡ first_found ys
    → (if b then x else y) ≡ first_found (if b then xs else ys)
if_cong true x y xs ys h k = h
if_cong false x y xs ys h k = k

first_in_lem :
    (arg_word : Str) (words rest : List Str) (r : Bool × Str)
    → r ≡ first_found rest
    → (elim (first_in arg_word words) [ none ↦ r | some w ↦ (false, w) ])
      ≡ first_found (select (λ w. contains w arg_word) words ++ rest)
first_in_lem arg_word [] rest r h = h
first_in_lem arg_word (w ∷ words) rest r h = ground (arith, h, first_in_lem arg_word words rest r h)

validate_loop_lem : (args : List Str) → validate_loop forbidden args ≡ first_found (found args)
validate_loop_lem [] = refl
validate_loop_lem (arg ∷ args) =
    let rest = validate_loop forbidden args in
    rw (is_option_lem arg, word_of_lem arg)
      (if_cong (is_dashed arg) _ _ _ _
        (first_in_lem (dotted_arg arg) forbidden (found args) rest (validate_loop_lem args))
        (validate_loop_lem args))

-- Arguments are refused exactly if one that starts with "--" has one of the forbidden words in it,
-- in any case of ASCII letters and with two underscores read as a dot, and the word named is the
-- first such word of the first such argument.
pub validate_user_args_lem : (args : List Str) → validate_user_args args ≡ first_found (found args)
unfolding validate_user_args
validate_user_args_lem args =
    ap (λ (ws : List Str). validate_loop ws args) forbidden_lem ∙ validate_loop_lem args

-- an option with a forbidden word in it
abbrev pub is_refused : Str → Bool
is_refused arg = is_dashed arg && any (λ w. contains w (dotted_arg arg)) forbidden

select_refused :
    (p : Str → Bool) (words rest : List Str)
    → any p words ≡ true
    → (first_found (select p words ++ rest)).0 ≡ false
select_refused p [] rest h = cc
select_refused p (w ∷ words) rest h = ground (arith, h, select_refused p words rest)

select_later :
    (p : Str → Bool) (words rest : List Str)
    → (first_found rest).0 ≡ false
    → (first_found (select p words ++ rest)).0 ≡ false
select_later p [] rest h = h
select_later p (w ∷ words) rest h = ground (arith, select_later p words rest h)

both_true : (a b : Bool) → (a && b) ≡ true → (a ≡ true) × (b ≡ true)
both_true a b h = (ground (arith, h), ground (arith, h))

later_true : (a b : Bool) → a ≡ false → (a || b) ≡ true → b ≡ true
later_true a b e h = ground (arith, e, h)

found_refused :
    (args : List Str) → any is_refused args ≡ true → (first_found (found args)).0 ≡ false
found_refused [] h = cc
found_refused (arg ∷ args) h =
    let p = λ (w : Str). contains w (dotted_arg arg) in
    let holds = λ (ws : List Str). (first_found ws).0 ≡ false in
    elim (Bool-cases (is_refused arg)) [
      | inl now ↦
          let (dashed, has_word) = both_true (is_dashed arg) (any p forbidden) now in
          rw dashed (select_refused p forbidden (found args) has_word)
      | inr later ↦
          let rest = found_refused args (later_true (is_refused arg) _ later h) in
          if_either holds (is_dashed arg) (select p forbidden ++ found args) (found args)
            (select_later p forbidden (found args) rest) rest
    ]

pub validate_refused :
    (args : List Str) → any is_refused args ≡ true → (validate_user_args args).0 ≡ false
validate_refused args h =
    ap (λ (r : Bool × Str). r.0) (validate_user_args_lem args) ∙ found_refused args h
