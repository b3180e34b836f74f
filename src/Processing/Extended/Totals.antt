-- ===== src/Processing/Extended/Totals.antt =====
-- What `pr_generate_extended_diff` returns adds up.
use pr_insight.Base.{◌+◌, false, Option, none, some, List, [], ◌∷◌, ◌≡◌, refl, arith, map}
use mathlib.Core.List.{map-append}
use pr_insight.Base.Fail.{
  Returns, Returns-and_then, any_value, Succeeds, Succeeds-then, Succeeds-if, Outcome, returned,
  and_then,
}
use pr_insight.Base.Text.{Str}
use pr_insight.Patch.Types.{FilePatchInfo}
use pr_insight.Patch.Extend.{extend_patch}
use pr_insight.Base.{◌&&◌}
use pr_insight.Processing.Full.{is_text}
use pr_insight.Processing.Files.{LanguageGroup}
use pr_insight.Processing.Full.Budget.{cost, cost-append}
use pr_insight.Processing.Extended.{
  Task, Extended, add_optional, file_text, full_text, with_summary, each_file, each_language,
  initial, pr_generate_extended_diff,
}

pub record AddsUp (t : Task) (s : Extended) : Type 0 where
  pub total : s.total_tokens ≡ t.prompt_tokens + cost t.count_tokens s.patches_extended
  pub counts : s.patches_extended_tokens ≡ map t.count_tokens s.patches_extended

add_optional-AddsUp :
    (t : Task) (s : Extended) (o : Option Str) → AddsUp t s → AddsUp t (add_optional t s o)
unfolding add_optional
add_optional-AddsUp t s none a = a
add_optional-AddsUp t s (some text) a = ground (
  arith,
  cost-append t.count_tokens s.patches_extended (text ∷ []),
  map-append t.count_tokens s.patches_extended (text ∷ []),
)

each_file-AddsUp :
    (t : Task) (files : List FilePatchInfo) (s : Extended)
    → AddsUp t s
    → Returns (each_file t s files) (λ r. AddsUp t r.0)
unfolding each_file
each_file-AddsUp t [] s a = a
each_file-AddsUp t (file ∷ files) s a =
    Returns-and_then (file_text t file) _ (λ o. Unit) (λ r. AddsUp t r.0)
      (any_value (file_text t file))
      λ text _.
        Returns-and_then (each_file t (add_optional t s text) files) _ (λ r. AddsUp t r.0)
          (λ r. AddsUp t r.0)
          (each_file-AddsUp t files (add_optional t s text) (add_optional-AddsUp t s text a))
          (λ r h. h)

each_language-AddsUp :
    (t : Task) (langs : List LanguageGroup) (s : Extended)
    → AddsUp t s
    → Returns (each_language t s langs) (λ r. AddsUp t r.0)
unfolding each_language
each_language-AddsUp t [] s a = a
each_language-AddsUp t (lang ∷ langs) s a =
    Returns-and_then (each_file t s lang.files) _ (λ r. AddsUp t r.0) (λ r. AddsUp t r.0)
      (each_file-AddsUp t lang.files s a)
      λ r h.
        Returns-and_then (each_language t r.0 langs) _ (λ r'. AddsUp t r'.0) (λ r'. AddsUp t r'.0)
          (each_language-AddsUp t langs r.0 h) (λ r' h'. h')

-- If the extended diff is returned, its total is the prompt's tokens and those of all its patches,
-- and the third list holds the tokens of each patch in order.
pub pr_generate_extended_diff-AddsUp :
    (t : Task) (langs : List LanguageGroup)
    → Returns (pr_generate_extended_diff t langs) (λ r. AddsUp t r.0)
unfolding pr_generate_extended_diff
pr_generate_extended_diff-AddsUp t langs =
    each_language-AddsUp t langs (initial t) (record { total = omega arith; counts = refl })

full_text-Succeeds :
    (t : Task) (file : FilePatchInfo) (extended : Str)
    → t.add_line_numbers_to_hunks ≡ false
    → Succeeds (full_text t file extended)
unfolding full_text
full_text-Succeeds t file extended h =
    Succeeds-if t.add_line_numbers_to_hunks _ _ (λ e. cc) (λ e. (_, refl))

file_text-Succeeds :
    (t : Task) (file : FilePatchInfo)
    → t.add_line_numbers_to_hunks ≡ false
    → Succeeds (file_text t file)
unfolding file_text
file_text-Succeeds t file h =
    let x =
      extend_patch t.settings file.base_file file.patch t.patch_extra_lines_before
        t.patch_extra_lines_after file.filename file.head_file in
    let rest : Str → Outcome (Option Str) = λ text. returned (some (with_summary t file text)) in
    Succeeds-if (is_text file.patch && is_text x) (and_then (full_text t file x) rest)
      (returned none)
      (λ e.
        Succeeds-then (full_text t file x) rest (full_text-Succeeds t file x h)
          (λ a. (some (with_summary t file a), refl)))
      (λ e. (none, refl))

each_file-Succeeds :
    (t : Task) (files : List FilePatchInfo) (s : Extended)
    → t.add_line_numbers_to_hunks ≡ false
    → Succeeds (each_file t s files)
unfolding each_file
each_file-Succeeds t [] s h = (_, refl)
each_file-Succeeds t (file ∷ files) s h =
    Succeeds-then (file_text t file) _ (file_text-Succeeds t file h) λ text.
      Succeeds-then (each_file t (add_optional t s text) files) _
        (each_file-Succeeds t files (add_optional t s text) h) (λ r. (_, refl))

each_language-Succeeds :
    (t : Task) (langs : List LanguageGroup) (s : Extended)
    → t.add_line_numbers_to_hunks ≡ false
    → Succeeds (each_language t s langs)
unfolding each_language
each_language-Succeeds t [] s h = (_, refl)
each_language-Succeeds t (lang ∷ langs) s h =
    Succeeds-then (each_file t s lang.files) _ (each_file-Succeeds t lang.files s h) λ r.
      Succeeds-then (each_language t r.0 langs) _ (each_language-Succeeds t langs r.0 h)
        (λ r'. (_, refl))

diff-Succeeds :
    (t : Task) (langs : List LanguageGroup)
    → t.add_line_numbers_to_hunks ≡ false
    → Succeeds (pr_generate_extended_diff t langs)
unfolding pr_generate_extended_diff
diff-Succeeds t langs h = each_language-Succeeds t langs (initial t) h

-- Without line numbers the extended diff is always returned, its total is the prompt's tokens and
-- those of all its patches, and the third list holds the tokens of each patch in order.
pub pr_generate_extended_diff-returns :
    (t : Task) (langs : List LanguageGroup)
    → t.add_line_numbers_to_hunks ≡ false
    → (r : Extended × List LanguageGroup) × (pr_generate_extended_diff t langs ≡ returned r)
      × AddsUp t r.0
pr_generate_extended_diff-returns t langs h =
    let (r, e) = diff-Succeeds t langs h in
    (r, e, rw e at (pr_generate_extended_diff-AddsUp t langs))
