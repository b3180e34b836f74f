-- ===== src/Yaml/Load.antt =====
-- Which of the texts is read: `load_yaml` and `try_fix_yaml`.
pub mod First
pub mod Fence
use pr_insight.Base.{Bool, Option, none, some, List, [], ◌∷◌, ◌==◌, if◌then◌else◌}
use pr_insight.Base.Fail.{Outcome, returned, raised, and_then}
use pr_insight.Base.Text.{
  Str, codes, strip_by, rstrip, rstrip_by, is_space, remove_prefix, remove_suffix,
}
use pr_insight.Yaml.Texts.{
  with_pipes, with_indents, with_spaces, with_snippet, without_braces, between_keys, without_pluses,
  without_tabs, with_sections, without_pipe,
}

-- `yaml.safe_load`, the value `{}`, `bool` of a value, and
-- `text.encode(encoding).decode("utf-8")` for the encodings latin-1 and utf-16.
pub record Reader (D : Type 0) : Type 0 where
  pub safe_load : Str → Outcome D
  pub empty : D
  pub is_true : D → Bool
  pub from_latin_1 : Str → Outcome Str
  pub from_utf_16 : Str → Outcome Str

-- The arguments of both functions but the text.
pub record Keys : Type 0 where
  pub keys_fix_yaml : List Str
  pub first_key : Str
  pub last_key : Str

-- what is read of an answer at first
unfoldable pub clean : Str → Str
unfolding strip_by rstrip_by is_space remove_prefix remove_suffix
clean s = remove_suffix (codes "```") (
    rstrip
      (remove_prefix (codes "```yaml") (remove_prefix (codes "yaml") (strip_by (λ c. c == 10) s))))

module _ {D : Type 0} (r : Reader D) where
  -- `try: return …`, and what follows it
  abbrev or_next : Outcome D → D → D
  or_next (returned d) rest = d
  or_next (raised e) rest = rest

  -- a text that is tried only if there is one
  abbrev if_some : Option Str → D → D
  if_some none rest = rest
  if_some (some s) rest = or_next (r.safe_load s) rest

  -- one encoding: an empty value is passed over
  abbrev if_true : Outcome D → D → D
  if_true (returned d) rest = if r.is_true d then d else rest
  if_true (raised e) rest = rest

  abbrev pub decoded : Str → D
  decoded s =
      if_true (and_then (r.from_latin_1 s) r.safe_load)
        (if_true (and_then (r.from_utf_16 s) r.safe_load) r.empty)

  -- `try_fix_yaml`
  unfoldable pub try_fix_yaml : Keys → Str → Str → D
  try_fix_yaml k original s = or_next (r.safe_load (with_pipes k.keys_fix_yaml s)) (
      or_next (r.safe_load (with_indents s)) (
        or_next (r.safe_load (with_spaces s)) (
          if_some (with_snippet original s) (
            or_next (r.safe_load (without_braces s)) (
              if_some (between_keys k.first_key k.last_key s) (
                or_next (r.safe_load (without_pluses s)) (
                  if_some (without_tabs s) (
                    or_next (r.safe_load (with_sections k.keys_fix_yaml s))
                      (or_next (r.safe_load (without_pipe s)) (decoded s))))))))))

  -- `load_yaml`
  unfoldable pub load_yaml : Keys → Str → D
  unfolding clean try_fix_yaml
  load_yaml k s = or_next (r.safe_load (clean s)) (try_fix_yaml k s (clean s))
