-- ===== src/Github/Commands/Opened.antt =====
-- The commands that a new pull request gives to the agent.
use pr_insight.Base.{
  Bool, Option, none, some, List, [], ◌∷◌, ◌++◌, ◌≡◌, ◌⊎◌, map, ◌==◌, if◌then◌else◌,
}
use pr_insight.Base.Effect.{Effect}
use pr_insight.Base.Fail.{Outcome}
use pr_insight.Base.Json.{Value, text}
use pr_insight.Base.Text.{Str, codes, split, join, strip, strip_by}
use pr_insight.Cli.{is_option, split_once}
use pr_insight.Github.World.{World}
use pr_insight.Github.Commands.{head_of, tail_of}

-- What is left of one argument of a command: nothing, if it sets a setting.
abbrev left_of : Str → Option (Str × Str) → List Str
left_of arg none = arg ∷ []
left_of arg (some setting) = []

abbrev pub plain_arg : Str → List Str
plain_arg arg =
    let option = strip (strip_by (λ c. c == b'-') (strip arg)) in
    if is_option (strip arg) then left_of option (split_once b'=' option) else strip arg ∷ []

abbrev pub plain_args : List Str → List Str
plain_args [] = []
plain_args (arg ∷ args) = plain_arg arg ++ plain_args args

-- The request that a command of the settings comes to: its first word, and the arguments that set
-- nothing.
abbrev pub request_of : Str → Value
request_of command =
    let words = split b' ' command in
    text (join (codes " ") (head_of words ∷ plain_args (tail_of words)))

-- `sent` says what was given to the agent so far: only `run` adds to it.
pub record IsLog {S V : Type 0} (w : World S V) (sent : S → List (Value × Value)) : Type 0 where
  pub set : (k : Str) (v : V) (s : S) → sent (w.set k v s) ≡ sent s
  pub repo : (url : Value) (s : S) → sent (w.apply_repo_settings url s).1 ≡ sent s
  pub eligible : (id url : Value) (s : S) → sent (w.is_eligible id url s).1 ≡ sent s
  pub run :
      (url request : Value) (o : Option (Value × Bool)) (s : S)
      → sent (w.run url request o s) ≡ sent s ++ (url, request) ∷ []

module _ {S V : Type 0} (w : World S V) (sent : S → List (Value × Value)) (log : IsLog w sent) where
  abbrev pub requests : Value → List Str → List (Value × Value)
  requests url commands = map (λ c. (url, request_of c)) commands

  -- what was sent is still `l`, or all commands of some repository's settings were sent behind it
  abbrev pub AllOrNothing : List (Value × Value) → Outcome (Unit {0}) × S → Type 0
  AllOrNothing l r =
      (sent r.1 ≡ l)
      ⊎ ((url : Value) × (u : S) × (sent r.1
            ≡ l ++ requests url (w.settings (w.apply_repo_settings url u).1).pr_commands))
