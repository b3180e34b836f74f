-- ===== src/Providers/Comments.antt =====
-- Comments of a git provider: `publish_persistent_comment_full`, `limit_output_characters` and
-- `get_num_of_files` of pr_insight/git_providers/git_provider.py.
use pr_insight.Base.{
  Bool, false, Option, none, some, List, [], ◌∷◌, ◌++◌, ◌≡◌, length, take, ltb, if◌then◌else◌,
}
use pr_insight.Base.Int.{ℤ, pos, negsuc}
use pr_insight.Base.Effect.{Effect, ◌>>=◌, ◌>>◌, pure}
use pr_insight.Base.Fail.{Outcome, returned, raised}
use pr_insight.Base.Slice.{slice}
use pr_insight.Base.Text.{Str, codes, lower, lower_code, upper_code, replace, starts_with}

-- `limit_output_characters`
unfoldable pub limit_output_characters : Str → ℤ → Str
limit_output_characters output (pos max_chars) =
    if ltb max_chars (length output) then take max_chars output ++ codes "..." else output
limit_output_characters output max_chars = slice (pos 0) max_chars output ++ codes "..."

-- `get_num_of_files`
unfoldable pub get_num_of_files : {A : Type 0} → Outcome (List A) → ℤ
get_num_of_files (returned files) = pos (length files)
get_num_of_files (raised e) = negsuc 0

-- A provider, by the methods that it implements: S is the state of the service, C the type of its
-- comments.
pub record Provider (S C : Type 0) : Type 0 where
  pub get_issue_comments : Effect S (List C)
  pub comment_text : C → Str
  pub get_latest_commit_url : Effect S Str
  pub get_comment_url : C → Effect S Str
  pub edit_comment : C → Str → Effect S (Unit {0})
  pub publish_comment : Str → Effect S (Option C)

-- `name.capitalize()`
abbrev pub capitalize : Str → Str
capitalize [] = []
capitalize (c ∷ s) = upper_code c ∷ lower s

-- The arguments but the comment.
pub record Persistent : Type 0 where
  pub initial_header : Str
  pub update_header : Bool
  pub name : Str
  pub final_update_message : Bool

module _ {S C : Type 0} (p : Provider S C) (o : Persistent) where
  -- the first comment with the header, on which the loop returns
  unfoldable pub find_comment : List C → Option C
  unfolding starts_with
  find_comment [] = none
  find_comment (c ∷ cs) =
      if starts_with o.initial_header (p.comment_text c) then some c else find_comment cs

  -- `pr_comment_updated`
  abbrev updated : Str → Str → Str
  updated latest_commit_url pr_comment =
      if o.update_header
      then replace o.initial_header
          (o.initial_header
            ++ (codes "\n\n#### ("
                ++ (capitalize o.name
                    ++ (codes " updated until commit " ++ (latest_commit_url ++ codes ")\n")))))
          pr_comment
      else pr_comment

  -- the rest of the round on the comment that is found
  abbrev update : Str → C → Effect S (Option C)
  update pr_comment comment = do
    latest_commit_url ← p.get_latest_commit_url
    comment_url ← p.get_comment_url comment
    p.edit_comment comment (updated latest_commit_url pr_comment)
    if o.final_update_message
        then p.publish_comment (
            codes "**[Persistent "
            ++ (o.name
                ++ (codes "]("
                    ++ (comment_url
                        ++ (codes ")** updated to latest commit " ++ latest_commit_url)))))
        else pure (some comment)

  -- what the `try` returns, if it returns
  abbrev try_update : Str → Option C → Effect S (Option (Option C))
  try_update pr_comment none = pure none
  try_update pr_comment (some c) = update pr_comment c >>= (λ r. pure (some r))

  -- after the `try`: whatever it raised, and where it found nothing, the comment is published
  abbrev or_publish : Str → Outcome (Option (Option C)) × S → Outcome (Option C) × S
  or_publish pr_comment (returned (some r), s) = (returned r, s)
  or_publish pr_comment (returned none, s) = p.publish_comment pr_comment s
  or_publish pr_comment (raised e, s) = p.publish_comment pr_comment s

  -- `publish_persistent_comment_full`
  unfoldable pub publish_persistent_comment_full : Str → Effect S (Option C)
  unfolding find_comment replace lower_code upper_code
  publish_persistent_comment_full pr_comment s =
      or_publish pr_comment
        ((p.get_issue_comments >>= (λ cs. try_update pr_comment (find_comment cs))) s)

  -- Where the first comment with the header can be edited, and no message follows, that comment is
  -- the result, and nothing is published.
  pub publish_persistent-edits :
      (pr_comment : Str) (s s1 s2 s3 s4 : S) (cs : List C) (c : C) (commit url : Str)
      → p.get_issue_comments s ≡ (returned cs, s1)
      → find_comment cs ≡ some c
      → p.get_latest_commit_url s1 ≡ (returned commit, s2)
      → p.get_comment_url c s2 ≡ (returned url, s3)
      → p.edit_comment c (updated commit pr_comment) s3 ≡ (returned tt, s4)
      → o.final_update_message ≡ false
      → publish_persistent_comment_full pr_comment s ≡ (returned (some c), s4)
  unfolding publish_persistent_comment_full
  publish_persistent-edits pr_comment s s1 s2 s3 s4 cs c commit url hc hf hl hu he hm =
      rw (hc, hf, hl, hu, he, hm)
