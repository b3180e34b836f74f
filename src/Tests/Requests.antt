-- ===== src/Tests/Requests.antt =====
-- The theorems on requests and servers, applied to small values.
use pr_insight.Base.{any, Bool, true, false, none, some, List, [], ◌∷◌, ◌++◌, ◌≡◌, ◌↔◌, refl}
use pr_insight.Base.Int.{pos}
use pr_insight.Base.Fail.{returned}
use pr_insight.Base.Text.{Str, codes, contains, lower_code}
use pr_insight.Servers.Signature.{verify_signature, expected_signature, verify_signature_lem}
use pr_insight.Servers.Timeouts.{Options, Timed}
use pr_insight.Agent.{World, handle}
use pr_insight.Cli.Words.{is_refused}
use pr_insight.Agent.Dispatch.{handle-refused}

abbrev toy_digest : Str → Str → Str
toy_digest secret body = secret ++ body

verify_signature_lem_example :
    (verify_signature toy_digest (codes "body") (codes "key") (codes "sha256=keybody")
      ≡ returned tt)
    ↔ (codes "sha256=keybody" ≡ expected_signature toy_digest (codes "body") (codes "key"))
verify_signature_lem_example =
    verify_signature_lem toy_digest (codes "body") (codes "key") (codes "sha256=keybody") refl

abbrev options : Options Bool
options = record {
  default_factory = some false;
  ttl = some (pos 30);
  refresh_interval = pos 60;
  update_key_time_on_get = false;
}

abbrev old_items : Timed Bool
old_items = record {
  items = (codes "a", true) ∷ [];
  key_times = (codes "a", pos 5) ∷ [];
  last_refresh = pos 0;
}

-- The settings are the writes and the runs, latest first.
abbrev world : World (List Str) Str
world = record {
  set = λ k v s. k ∷ s;
  parse = λ text. none;
  raw = λ text. text;
  language = λ s. codes "fr";
  each_extra = λ change s. change [] ∷ s;
  apply_repo_settings = λ s. returned s;
  run = λ call s. returned (codes "run" ∷ s);
}

bad_option : any is_refused (codes "x" ∷ codes "--OpenAI__key=abc" ∷ []) ≡ true
unfolding contains lower_code
bad_option = refl

handle-refused_example :
    handle world (returned (codes "/review" ∷ codes "x" ∷ codes "--OpenAI__key=abc" ∷ [])) []
    ≡ returned (false, [])
handle-refused_example =
    handle-refused world (codes "/review") (codes "x" ∷ codes "--OpenAI__key=abc" ∷ []) []
      bad_option
