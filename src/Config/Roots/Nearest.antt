-- ===== src/Config/Roots/Nearest.antt =====
-- The walk finds the nearest directory.
use pr_insight.Base.{
  Bool, true, false, Option, none, some, List, [], ◌∷◌, ◌++◌, ◌≡◌, refl, ap, subst, if_cases,
}
use pr_insight.Base.Text.{Str, codes}
use pr_insight.Config.Roots.{FilePath, walk_up, find_repository_root}

-- the path lies below `top`, by the parts `below`, and no directory from it up to below `top` passes
abbrev pub FailsBelow : (FilePath → Bool) → List Str → FilePath → Type 0
FailsBelow test [] top = Unit
FailsBelow test (part ∷ below) top =
    (test (part ∷ (below ++ top)) ≡ false) × FailsBelow test below top

-- no directory from the path up to the root passes
abbrev pub FailsUp : (FilePath → Bool) → FilePath → Type 0
FailsUp test [] = test [] ≡ false
FailsUp test (part ∷ cwd) = (test (part ∷ cwd) ≡ false) × FailsUp test cwd

-- The nearest directory that passes, or none if none does on the whole way up.
abbrev pub Found : (FilePath → Bool) → FilePath → Option FilePath → Type 0
Found test cwd (some top) =
    (test top ≡ true) × ((below : List Str) × (cwd ≡ below ++ top) × FailsBelow test below top)
Found test cwd none = FailsUp test cwd

above-Found :
    (test : FilePath → Bool) (part : Str) (cwd : FilePath) (o : Option FilePath)
    → test (part ∷ cwd) ≡ false
    → Found test cwd o
    → Found test (part ∷ cwd) o
above-Found test part cwd none h fails = (h, fails)
above-Found test part cwd (some top) h (passes, (below, e, fails)) =
    (passes, (part ∷ below, ap (◌∷◌ part) e, (subst (λ d. test (part ∷ d) ≡ false) e h, fails)))

walk_up-Found : (test : FilePath → Bool) (cwd : FilePath) → Found test cwd (walk_up test cwd)
unfolding walk_up
walk_up-Found test [] =
    if_cases (Found test []) (test []) (some []) none (λ e. (e, ([], refl, tt))) (λ e. e)
walk_up-Found test (part ∷ cwd) =
    if_cases (Found test (part ∷ cwd)) (test (part ∷ cwd)) (some (part ∷ cwd)) (walk_up test cwd)
      (λ e. (e, ([], refl, tt)))
      (λ e. above-Found test part cwd (walk_up test cwd) e (walk_up-Found test cwd))

-- The root of the repository is the nearest directory with `.git` in it, from the working directory
-- up; there is none exactly if no directory on the way to the root of the file system has one.
pub find_repository_root-Found :
    (is_dir : FilePath → Bool) (cwd : FilePath)
    → Found (λ d. is_dir (codes ".git" ∷ d)) cwd (find_repository_root is_dir cwd)
unfolding find_repository_root
find_repository_root-Found is_dir cwd = walk_up-Found (λ d. is_dir (codes ".git" ∷ d)) cwd
