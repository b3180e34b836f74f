-- ===== src/Processing/Files.antt =====
-- The pull request's files by language, as `sort_files_by_main_languages` gives them.
use pr_insight.Base.{List, [], ◌∷◌, ◌++◌}
use pr_insight.Base.Text.{Str}
use pr_insight.Patch.Types.{FilePatchInfo}
use pr_insight.Processing.Sorted.{sort_by_tokens}

pub record LanguageGroup : Type 0 where
  pub language : Str
  pub files : List FilePatchInfo

-- "sort each one of the languages in top_langs by the number of tokens in the diff"
unfoldable pub sorted_files : List LanguageGroup → List FilePatchInfo
sorted_files [] = []
sorted_files (lang ∷ langs) = sort_by_tokens lang.files ++ sorted_files langs
