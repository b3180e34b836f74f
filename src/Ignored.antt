-- ===== src/Ignored.antt =====
-- The files that a pull request leaves out: pr_insight/algo/file_filter.py.
use pr_insight.Base.{
  Bool, true, false, not, Option, none, some, List, [], ◌∷◌, ◌++◌, ◌||◌, ◌==◌, drop, select,
  if◌then◌else◌,
}
use pr_insight.Base.Dict.{Dict, lookup}
use pr_insight.Base.Text.{Str, codes, split, starts_with, strip_by}

-- a setting that is a list or one text
pub data Setting : Type 0 where
  texts : List Str → Setting
  one_text : Str → Setting

-- Sections `ignore` and `generated_code`, and `config.ignore_language_framework`.
pub record IgnoreSettings : Type 0 where
  pub regex : Setting
  pub glob : Setting
  pub ignore_language_framework : Setting
  pub generated_code : Dict Setting

-- the platforms that the caller names
pub data Platform : Type 0 where
  github bitbucket bitbucket_server gitlab azure gitea other_platform : Platform

-- What the platforms say of a file, where `none` is what is missing or `None`. Under azure a file is
-- its name, and under bitbucket_server `filename` is `path.toString`.
pub record File : Type 0 where
  pub filename : Option Str
  pub new_path : Option Str
  pub old_path : Option Str

abbrev patterns_of : Setting → List Str
patterns_of (texts ps) = ps
patterns_of (one_text p) = p ∷ []

-- `glob_setting.strip('[]').split(",")`
abbrev globs_of : Setting → List Str
globs_of (texts gs) = gs
globs_of (one_text g) = split b',' (strip_by (λ c. c == b'[' || c == b']') g)

-- a text here is refused
abbrev frameworks_of : Setting → List Str
frameworks_of (texts fs) = fs
frameworks_of (one_text f) = []

-- `generated_code.get(cg, [])`
abbrev generated : Option Setting → List Str
generated none = []
generated (some s) = patterns_of s

-- `translate` is `fnmatch.translate`, and `compiles` says that `re.compile` takes a pattern.
module _ (translate : Str → Str) (compiles : Str → Bool) where
  unfoldable pub translate_globs_to_regexes : List Str → List Str
  unfolding starts_with
  translate_globs_to_regexes [] = []
  translate_globs_to_regexes (g ∷ gs) =
      let rest = translate_globs_to_regexes gs in
      translate g ∷ (if starts_with (codes "**/") g then translate (drop 3 g) ∷ rest else rest)

  unfoldable pub framework_patterns : Dict Setting → List Str → List Str
  unfolding translate_globs_to_regexes lookup
  framework_patterns code [] = []
  framework_patterns code (cg ∷ cgs) =
      translate_globs_to_regexes (generated (lookup cg code)) ++ framework_patterns code cgs

  -- the patterns that can be compiled, in order
  unfoldable pub compiled_patterns : IgnoreSettings → List Str
  unfolding translate_globs_to_regexes framework_patterns split strip_by
  compiled_patterns o = select compiles (
      patterns_of o.regex
      ++ (translate_globs_to_regexes (globs_of o.glob)
          ++ framework_patterns o.generated_code (frameworks_of o.ignore_language_framework)))

-- `matches` is `re.match` of a pattern and a text, as a truth value.
module _ (matches : Str → Str → Bool) where
  -- `name and not r.match(name)`
  abbrev named : Str → Option Str → Bool
  named r none = false
  named r (some []) = false
  named r (some (c ∷ s)) = not (matches r (c ∷ s))

  -- `not r.match(name)`, where a missing name is empty
  abbrev unnamed : Str → Option Str → Bool
  unnamed r none = not (matches r [])
  unnamed r (some s) = not (matches r s)

  -- the test that keeps a file
  unfoldable pub keeps : Platform → Str → File → Bool
  keeps github r f = named r f.filename
  keeps bitbucket r f = named r f.new_path || named r f.old_path
  keeps bitbucket_server r f = named r f.filename
  keeps gitlab r f = named r f.new_path || named r f.old_path
  keeps azure r f = unnamed r f.filename
  keeps gitea r f = unnamed r f.filename
  keeps other_platform r f = true

  -- the loop over the patterns
  unfoldable pub filter_by : Platform → List Str → List File → List File
  filter_by platform [] files = files
  filter_by platform (r ∷ rs) files = filter_by platform rs (select (keeps platform r) files)

-- `filter_ignored`
unfoldable pub filter_ignored :
    (Str → Str)
    → (Str → Bool)
    → (Str → Str → Bool)
    → IgnoreSettings
    → Platform
    → List File
    → List File
unfolding compiled_patterns filter_by keeps
filter_ignored translate compiles matches o platform files =
    filter_by matches platform (compiled_patterns translate compiles o) files
