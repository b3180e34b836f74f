-- ===== src/Config/Repo/Forbidden.antt =====
-- A repository cannot set what the loader forbids.
use pr_insight.Base.{true, false, Option, none, some, [], ◌∷◌, ◌≡◌, refl, any, ap, ◌∙◌, if_either}
use pr_insight.Base.Fail.{Outcome, returned, raised}
use pr_insight.Base.Text.{Str}
use pr_insight.Config.Loader.{Fields, table, is_forbidden, load}
use pr_insight.Config.Loader.Security.{all_keys}
use pr_insight.Config.Loader.Merge.{load-ignores_forbidden}
use pr_insight.Config.Repo.{from_repo, fetched, after_repo, keep, finish}
use pr_insight.Config.Repo.{
  Host, Session, new_settings, with_text, with_model, apply_repo_settings, apply_sections,
  in_context,
}

module _ (h : Host) where
  new_settings-forbidden :
      (text : Str) (inner : Fields)
      → h.constructor_ ≡ returned tt
      → h.silent ≡ true
      → (h.file_of text).parsed ≡ returned (table inner)
      → any is_forbidden (all_keys inner) ≡ true
      → new_settings h (h.file_of text) ≡ returned []
  unfolding load
  new_settings-forbidden text inner hc hs hp hf =
      rw (hc, hs)
        (load-ignores_forbidden h.store false false none [] [] (h.file_of text) inner [] hp hf)

  with_text-forbidden :
      (text : Str) (inner : Fields) (s : Session)
      → h.constructor_ ≡ returned tt
      → h.silent ≡ true
      → (h.file_of text).parsed ≡ returned (table inner)
      → any is_forbidden (all_keys inner) ≡ true
      → with_text h text s ≡ s
  unfolding apply_sections
  with_text-forbidden [] inner s hc hs hp hf = refl
  with_text-forbidden (c ∷ text) inner s hc hs hp hf =
      rw (new_settings-forbidden (c ∷ text) inner hc hs hp hf)

  keep_settings : (text : Str) (s : Session) → (keep h text s).settings ≡ s.settings
  keep_settings text s =
      if_either (λ (t : Session). t.settings ≡ s.settings) h.has_context
        (record s { cached = some text }) s refl refl

  keep_comments : (text : Str) (s : Session) → (keep h text s).comments ≡ s.comments
  keep_comments text s =
      if_either (λ (t : Session). t.comments ≡ s.comments) h.has_context
        (record s { cached = some text }) s refl refl

  -- the parser reads a table with a forbidden key, in it or in a table below it
  abbrev pub IsRefused : Str → Type 0
  IsRefused text =
      (inner : Fields) × ((h.file_of text).parsed ≡ returned (table inner))
      × (any is_forbidden (all_keys inner) ≡ true)

  abbrev pub Untouched : Session → Session → Type 0
  Untouched s t = (t.settings ≡ s.settings) × (t.comments ≡ s.comments)

  with_text-Untouched :
      (text : Str) (s : Session)
      → h.constructor_ ≡ returned tt
      → h.silent ≡ true
      → IsRefused text
      → Untouched s (with_text h text s)
  with_text-Untouched text s hc hs (inner, hp, hf) =
      let e = with_text-forbidden text inner s hc hs hp hf in
      (ap (λ (t : Session). t.settings) e, ap (λ (t : Session). t.comments) e)

  fetched-Untouched :
      (m : Outcome Str) (s : Session)
      → h.constructor_ ≡ returned tt
      → h.silent ≡ true
      → ((text : Str) → m ≡ returned text → IsRefused text)
      → Untouched s (fetched h m s)
  fetched-Untouched (returned text) s hc hs refused =
      let (e, f) = with_text-Untouched text (keep h text s) hc hs (refused text refl) in
      (e ∙ keep_settings text s, f ∙ keep_comments text s)
  fetched-Untouched (raised e) s hc hs refused = (refl, refl)

  from_repo-Untouched :
      (o : Option Str) (s : Session)
      → h.constructor_ ≡ returned tt
      → h.silent ≡ true
      → ((text : Str) → o ≡ some text → IsRefused text)
      → ((text : Str) → h.get_repo_settings ≡ returned text → IsRefused text)
      → Untouched s (from_repo h o s)
  from_repo-Untouched (some text) s hc hs kept fetched_text =
      with_text-Untouched text s hc hs (kept text refl)
  from_repo-Untouched none s hc hs kept fetched_text =
      fetched-Untouched h.get_repo_settings s hc hs fetched_text

  -- If the settings object accepts the arguments of the security and loads silently, and each text
  -- that the repository or the context of the request may give is a table with a forbidden key, in it
  -- or in a table below it that stands in no array, then for a git provider that is found
  -- apply_repo_settings returns, and leaves the settings as they were, whatever else the texts set,
  -- but for the short name of a model; no comment is posted.
  pub apply_repo_settings-forbidden :
      (s : Session)
      → h.get_git_provider ≡ returned tt
      → h.constructor_ ≡ returned tt
      → h.silent ≡ true
      → ((text : Str) → in_context h s ≡ some text → IsRefused text)
      → ((text : Str) → h.get_repo_settings ≡ returned text → IsRefused text)
      → (t : Session) × (apply_repo_settings h s ≡ returned t)
        × (t.settings ≡ with_model h s.settings)
        × (t.comments ≡ s.comments)
  unfolding apply_repo_settings
  apply_repo_settings-forbidden s hg hc hs kept fetched_text =
      let (e, f) =
        if_either (Untouched s) (h.use_repo_settings_file s.settings)
          (from_repo h (in_context h s) s) s
          (from_repo-Untouched (in_context h s) s hc hs kept fetched_text) (refl, refl) in
      (finish h (after_repo h s), rw hg, ap (with_model h) e, f)
