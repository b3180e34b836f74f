-- ===== src/Config/Roots.antt =====
-- Where the configuration of a project is: `_find_repository_root`, `_find_pyproject` and
-- `_find_pr_insight_toml` of pr_insight/config_loader.py. A path is the list of its parts, the last
-- one first; the parent of the root is the root. The file system is an argument.
pub mod Nearest
use pr_insight.Base.{Bool, true, false, Option, none, some, List, [], ◌∷◌, if◌then◌else◌}
use pr_insight.Base.Text.{Str, codes}

abbrev pub FilePath : Type 0
FilePath = List Str

-- The walk of both loops: the directory itself, then its ancestors, the root the last.
unfoldable pub walk_up : (FilePath → Bool) → FilePath → Option FilePath
walk_up test [] = if test [] then some [] else none
walk_up test (part ∷ cwd) =
    let rest = walk_up test cwd in if test (part ∷ cwd) then some (part ∷ cwd) else rest

-- `is_dir` of the file system
unfoldable pub find_repository_root : (FilePath → Bool) → FilePath → Option FilePath
unfolding walk_up
find_repository_root is_dir cwd = walk_up (λ d. is_dir (codes ".git" ∷ d)) cwd

-- `is_file` of the file system
module _ (is_file : FilePath → Bool) where
  abbrev pyproject_in : Option FilePath → Option FilePath
  pyproject_in none = none
  pyproject_in (some root) =
      if is_file (codes "pyproject.toml" ∷ root) then some (codes "pyproject.toml" ∷ root) else none

  unfoldable pub find_pyproject : (FilePath → Bool) → FilePath → Option FilePath
  unfolding find_repository_root
  find_pyproject is_dir cwd = pyproject_in (find_repository_root is_dir cwd)

  abbrev toml_in : Option FilePath → Option FilePath
  toml_in none = none
  toml_in (some d) = some (codes ".pr_insight.toml" ∷ d)

  unfoldable pub find_pr_insight_toml : FilePath → Option FilePath
  unfolding walk_up
  find_pr_insight_toml cwd = toml_in (walk_up (λ d. is_file (codes ".pr_insight.toml" ∷ d)) cwd)
