-- ===== src/Github/Comments/Ask.antt =====
-- Which comments are commands.
use pr_insight.Base.{
  ℕ, if_either, true, Option, none, some, List, [], ◌∷◌, ◌++◌, ◌≡◌, refl, if_cases,
}
use pr_insight.Base.Fail.{Outcome, returned, raised, and_then}
use pr_insight.Base.Json.{Value, text}
use pr_insight.Base.Text.{Str, codes, starts_with, lstrip, lstrip_by, is_space, split_text}
use pr_insight.Github.Comments.{comment_command, ask_first}

-- what is given to the agent, if anything is, is a text whose first character that is no space is a slash
abbrev pub IsCommand : Outcome (Option Value) → Type 0
IsCommand (returned (some v)) =
    (t : Str) × (v ≡ text t) × (starts_with (codes "/") (lstrip t) ≡ true)
IsCommand (returned none) = Unit
IsCommand (raised e) = Unit

slash_first : (t : Str) → starts_with (codes "/") (lstrip (codes "/ask" ++ t)) ≡ true
unfolding starts_with lstrip_by is_space
slash_first t = refl

ask_first-IsCommand :
    (parts : List Str) → IsCommand (and_then (ask_first parts) (λ t. returned (some (text t))))
ask_first-IsCommand [] = tt
ask_first-IsCommand (a ∷ []) = tt
ask_first-IsCommand (before ∷ question ∷ rest) = (_, refl, slash_first _)

-- For a comment whose body is a text that is not empty, comment_command raises, gives nothing, or
-- gives a text whose first character behind spaces is a slash.
pub comment_command-IsCommand : (c : ℕ) (s : Str) → IsCommand (comment_command (text (c ∷ s)))
unfolding comment_command
comment_command-IsCommand c s =
    if_cases IsCommand (starts_with (codes "/") (lstrip (c ∷ s))) _ _ (λ h. (c ∷ s, refl, h))
      (λ _.
        if_either IsCommand _ _ (returned none)
          (ask_first-IsCommand (split_text (codes "/ask") (c ∷ s))) tt)
