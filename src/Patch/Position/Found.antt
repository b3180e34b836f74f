-- ===== src/Patch/Position/Found.antt =====
-- Which line of a patch of hunks is found, and its number.
use pr_insight.Base.{true, List, ◌≡◌, All}
use pr_insight.Base.Int.{ℤ, negsuc}
use pr_insight.Base.Fail.{Outcome, returned, and_then}
use pr_insight.Base.Text.{Str, splitlines}
use pr_insight.Patch.Numbered.Shown.{Hunk, IsHunk, lines_of}
use pr_insight.Patch.Types.{FilePatchInfo}
use pr_insight.Patch.Position.{is_wanted, Search}
use pr_insight.Patch.Position.Entries.{IsSized}

module _ (close : Str → List Str → List Str) (relevant_file : Str) (file : FilePatchInfo)
    (hs : List Hunk) (named : is_wanted close relevant_file file.filename ≡ true)
    (read : splitlines file.patch ≡ lines_of hs) (ok : All IsHunk hs) (sized : All IsSized hs) where
  abbrev unplaced : Str → ℤ → Search
  unplaced relevant_line a = record {
    position = negsuc 0;
    absolute_position = a;
    relevant_line = relevant_line;
  }

  abbrev result : Outcome Search → Outcome (ℤ × ℤ)
  result m =
      and_then (and_then m (λ s. returned s)) (λ s. returned (s.position, s.absolute_position))
