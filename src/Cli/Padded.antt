-- ===== src/Cli/Padded.antt =====
-- What `validate_user_args` does not see in an argument with a space before it.
use pr_insight.Base.{true, Option, List, [], ◌∷◌, ◌++◌, ◌≡◌, refl, map}
use pr_insight.Base.Text.{Str, codes, starts_with, strip, strip_by, lstrip_by, is_space}
use pr_insight.Cli.{
  forbidden_cli_args, validate_loop, validate_user_args, take_arg, update_loop,
  update_settings_from_args,
}

abbrev pub padded : List Str → List Str
padded = map (λ arg. codes " " ++ arg)

validate_loop-padded : (words args : List Str) → validate_loop words (padded args) ≡ (true, [])
unfolding starts_with
validate_loop-padded words [] = refl
validate_loop-padded words (arg ∷ args) = validate_loop-padded words args

update_loop-padded :
    {S V : Type 0} (set : Str → V → S → S) (parse : Str → Option V) (raw : Str → V)
    (args : List Str) (st : List Str × S)
    → update_loop set parse raw (padded args) st ≡ update_loop set parse raw args st
unfolding update_loop strip_by lstrip_by is_space
update_loop-padded set parse raw [] st = refl
update_loop-padded set parse raw (arg ∷ args) st =
    update_loop-padded set parse raw args (take_arg set parse raw (strip arg) st)

-- With a space before each argument the check accepts all arguments, whatever they are, and they
-- still set what they set without the space: the check looks at an argument as it stands, and the
-- settings are made from the stripped argument.
pub validate-update_padded :
    {S V : Type 0} (set : Str → V → S → S) (parse : Str → Option V) (raw : Str → V)
    (args : List Str) (s : S)
    → (validate_user_args (padded args) ≡ (true, []))
      × (update_settings_from_args set parse raw (padded args) s
          ≡ update_settings_from_args set parse raw args s)
unfolding update_settings_from_args validate_user_args
validate-update_padded set parse raw args s =
    (validate_loop-padded forbidden_cli_args args, update_loop-padded set parse raw args ([], s))
