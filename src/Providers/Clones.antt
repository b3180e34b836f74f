-- ===== src/Providers/Clones.antt =====
-- Clones: `get_git_ssl_env` and `clone` of pr_insight/git_providers/git_provider.py. The environment
-- is a dict, and `exists` is `os.path.exists`.
use pr_insight.Base.{Bool, true, false, Option, none, some, [], ◌∷◌, ◌&&◌, if◌then◌else◌}
use pr_insight.Base.Dict.{Dict, lookup, insert}
use pr_insight.Base.Effect.{Effect, ◌>>=◌, ◌>>◌, when}
use pr_insight.Base.Fail.{Outcome, returned, raised}
use pr_insight.Base.Text.{Str, codes, str_eq}

-- `os.environ.get`, where a missing variable counts as an empty one
abbrev variable : Str → Dict Str → Str
variable k env = elim (lookup k env) [ none ↦ [] | some v ↦ v ]

abbrev is_given : Str → Bool
is_given [] = false
is_given (c ∷ s) = true

-- the file, if it is there
abbrev if_exists : (Str → Bool) → Str → Str
if_exists exists file = if exists file then file else []

-- `chosen_cert_file`: the first variable that is given decides
unfoldable pub chosen_cert_file : (Str → Bool) → Dict Str → Str
unfolding lookup str_eq
chosen_cert_file exists env =
    if is_given (variable (codes "SSL_CERT_FILE") env)
    then if_exists exists (variable (codes "SSL_CERT_FILE") env)
    else if is_given (variable (codes "REQUESTS_CA_BUNDLE") env)
    then if_exists exists (variable (codes "REQUESTS_CA_BUNDLE") env)
    else if is_given (variable (codes "GIT_SSL_CAINFO") env)
    then if_exists exists (variable (codes "GIT_SSL_CAINFO") env)
    else []

abbrev with_cert : Str → Dict Str → Dict Str
with_cert [] env = env
with_cert (c ∷ file) env =
    insert (codes "REQUESTS_CA_BUNDLE") (c ∷ file) (insert (codes "GIT_SSL_CAINFO") (c ∷ file) env)

-- `get_git_ssl_env`
unfoldable pub get_git_ssl_env : (Str → Bool) → Dict Str → Dict Str
unfolding chosen_cert_file insert
get_git_ssl_env exists env = with_cert (chosen_cert_file exists env) env

-- What `clone` calls: whether the folder is there, its removal, and `_clone_inner`; `prepare` is
-- `_prepare_clone_url_with_token`, which gives an empty text or `None` where it cannot.
pub record Cloner (S : Type 0) : Type 0 where
  pub prepare : Str → Effect S Str
  pub is_folder : Str → S → Bool
  pub rmtree : Str → Effect S (Unit {0})
  pub clone_inner : Str → Str → Effect S (Unit {0})

module _ {S : Type 0} (w : Cloner S) where
  -- the `try` of `clone`, without its result
  abbrev try_clone : Str → Str → Bool → Effect S (Unit {0})
  try_clone url folder remove s =
      (when (remove && w.is_folder folder s) (w.rmtree folder) >> w.clone_inner url folder) s

  abbrev cloned : Str → Outcome {0} Unit × S → Outcome (Option Str) × S
  cloned folder (returned u, s) = (returned (some folder), s)
  cloned folder (raised e, s) = (returned none, s)

  abbrev pub clone_url : Str → Bool → Str → Effect S (Option Str)
  clone_url folder remove [] s = (returned none, s)
  clone_url folder remove (c ∷ url) s = cloned folder (try_clone (c ∷ url) folder remove s)

  -- `clone`: the folder of the clone, which is removed when its object goes
  unfoldable pub clone : Str → Str → Bool → Effect S (Option Str)
  clone repo_url folder remove = w.prepare repo_url >>= clone_url folder remove
