-- ===== src/Yaml/Load/First.antt =====
-- The repair as a search through a list of texts.
use pr_insight.Base.{Option, none, some, List, [], ◌∷◌, ◌≡◌, refl}
use pr_insight.Base.Text.{Str}
use pr_insight.Yaml.Texts.{
  with_pipes, with_indents, with_spaces, with_snippet, without_braces, between_keys, without_pluses,
  without_tabs, with_sections, without_pipe,
}
use pr_insight.Yaml.Load.{Reader, Keys, clean, or_next, if_some, decoded, try_fix_yaml, load_yaml}

abbrev with_some : Option Str → List Str → List Str
with_some none texts = texts
with_some (some s) texts = s ∷ texts

-- the texts that are tried for an answer, in order
abbrev pub candidates : Keys → Str → List Str
candidates k original =
    let s = clean original in
    s
    ∷ with_pipes k.keys_fix_yaml s
    ∷ with_indents s
    ∷ with_spaces s
    ∷ with_some (with_snippet original s) (
        without_braces s
        ∷ with_some (between_keys k.first_key k.last_key s) (
            without_pluses s
            ∷ with_some (without_tabs s) (with_sections k.keys_fix_yaml s ∷ without_pipe s ∷ [])))

module _ {D : Type 0} (r : Reader D) where
  -- the value of the first text that can be read, or else the given one
  abbrev pub first_read : List Str → D → D
  first_read [] rest = rest
  first_read (s ∷ texts) rest = or_next r (r.safe_load s) (first_read texts rest)

  if_some_lem :
      (o : Option Str) (texts : List Str) (rest : D)
      → if_some r o (first_read texts rest) ≡ first_read (with_some o texts) rest
  if_some_lem none texts rest = refl
  if_some_lem (some s) texts rest = refl

  -- `load_yaml` never raises: it gives the value of the first candidate that YAML reads, and if there
  -- is none, that of the first of the two other encodings which can be read and is true, or `{}`.
  pub load_yaml-first_read :
      (k : Keys) (s : Str) → load_yaml r k s ≡ first_read (candidates k s) (decoded r (clean s))
  unfolding load_yaml try_fix_yaml
  load_yaml-first_read k s =
      let c = clean s in
      let d = decoded r c in
      let at_end = with_sections k.keys_fix_yaml c ∷ without_pipe c ∷ [] in
      let from_pluses = without_pluses c ∷ with_some (without_tabs c) at_end in
      let from_braces =
        without_braces c ∷ with_some (between_keys k.first_key k.last_key c) from_pluses in
      rw
        (
          ← if_some_lem (with_snippet s c) from_braces d,
          ← if_some_lem (between_keys k.first_key k.last_key c) from_pluses d,
          ← if_some_lem (without_tabs c) at_end d,
        )
        refl
