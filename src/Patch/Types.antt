-- ===== src/Patch/Types.antt =====
-- pr_insight/algo/types.py
use pr_insight.Base.{Bool, true, false, Option}
use pr_insight.Base.Int.{ℤ}
use pr_insight.Base.Text.{Str}
use pr_insight.Base.Dict.{Dict}

-- `EDIT_TYPE`
pub data EditType : Type 0 where
  added deleted modified renamed unknown : EditType

-- `a == b` on edit types
unfoldable pub same_type : EditType → EditType → Bool
same_type added added = true
same_type deleted deleted = true
same_type modified modified = true
same_type renamed renamed = true
same_type unknown unknown = true
same_type _ _ = false

-- A text that is `None` is the empty text here: the program tests them by their truth value.
pub record FilePatchInfo : Type 0 where
  pub base_file : Str
  pub head_file : Str
  pub patch : Str
  pub filename : Str
  pub tokens : ℤ
  pub edit_type : EditType
  pub old_filename : Option Str
  pub num_plus_lines : ℤ
  pub num_minus_lines : ℤ
  pub language : Option Str
  pub ai_file_summary : Option (Dict Str)
