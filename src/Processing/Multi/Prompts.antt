-- ===== src/Processing/Multi/Prompts.antt =====
-- What `get_pr_multi_diffs` returns.
use pr_insight.Base.{
  if_cases, ℕ, ◌+◌, ◌≤◌, ◌<◌, false, Option, none, some, List, [], ◌∷◌, ◌++◌, ◌≡◌, ◌⊎◌, inl, inr,
  refl, arith, length, length-append, All, All-snoc, ltb, Bool-cases,
}
use pr_insight.Base.Fail.{returned, Succeeds, Succeeds-then}
use pr_insight.Base.Text.{Str, codes, join, strip}
use pr_insight.Patch.Types.{FilePatchInfo}
use pr_insight.Processing.Full.{is_text, soft_threshold}
use pr_insight.Processing.Full.Budget.{cost}
use pr_insight.Processing.Files.{LanguageGroup, sorted_files}
use pr_insight.Processing.Extended.{Extended, pr_generate_extended_diff}
use pr_insight.Processing.Extended.Totals.{pr_generate_extended_diff-returns}
use pr_insight.Processing.Diff.{Env, extended_task}
use pr_insight.Processing.Multi.{
  Loop, fit_alone, numbered_patch, place, convert_and_place, round, run, initial, last_chunk,
  full_diff, get_pr_multi_diffs,
}
use pr_insight.Processing.Multi.Calls.{IsChunk, IsLoop, IsLoop-run}

module _ (v : Env) (limit max_calls : ℕ) where
  numbered_patch-Succeeds :
      (file : FilePatchInfo) (patch : Str) → Succeeds (numbered_patch v false file patch)
  unfolding numbered_patch
  numbered_patch-Succeeds file patch = (_, refl)

  convert-Succeeds :
      (s : Loop) (file : FilePatchInfo) (o : Option Str)
      → Succeeds (convert_and_place v limit max_calls false s file o)
  unfolding convert_and_place
  convert-Succeeds s file none = (s, refl)
  convert-Succeeds s file (some patch) =
      Succeeds-then (numbered_patch v false file patch) _ (numbered_patch-Succeeds file patch)
        (λ p. (place v limit max_calls s (fit_alone v limit p), refl))

  round-Succeeds :
      (s : Loop) (file : FilePatchInfo) → Succeeds (round v limit max_calls false s file)
  unfolding round
  round-Succeeds s file =
      if_cases Succeeds (ltb max_calls s.call_number) _ _ (λ out. (_, refl))
        λ in_range.
          if_cases Succeeds (is_text file.patch) _ _ (λ text. convert-Succeeds s file _)
            (λ empty. (s, refl))

  run-Succeeds :
      (files : List FilePatchInfo) (s : Loop) → Succeeds (run v limit max_calls false s files)
  unfolding run
  run-Succeeds [] s = (s, refl)
  run-Succeeds (file ∷ files) s =
      if_cases Succeeds s.stopped _ _ (λ stop. (s, refl))
        λ go.
          Succeeds-then (round v limit max_calls false s file) _ (round-Succeeds s file)
            (λ s'. run-Succeeds files s')

  IsLoop-initial : IsLoop v limit max_calls (initial v)
  IsLoop-initial = record {
    total = omega arith;
    fits = inl refl;
    chunks = tt;
    calls = refl;
    within = omega arith;
    below = inr refl;
  }

  -- the prompts that are returned: no more than the calls, each within the budget
  abbrev pub IsSplit : List Str → Type 0
  IsSplit texts = (length texts ≤ max_calls) × All (IsChunk v limit) texts

  IsSplit-last_chunk : (s : Loop) → IsLoop v limit max_calls s → IsSplit (last_chunk s)
  unfolding last_chunk
  IsSplit-last_chunk s h = go s.patches refl
    where
      go :
          (ps : List Str)
          → s.patches ≡ ps
          → IsSplit (elim ps [
            | [] ↦ s.final_diff_list
            | p ∷ qs ↦ s.final_diff_list ++ strip (join (codes "\n") s.patches) ∷ []
          ])
      go [] e = (omega (arith, h.calls, h.within), h.chunks)
      go (p ∷ qs) e =
          let in_calls : s.call_number ≤ max_calls = elim h.below [
            | inl c ↦ c
            | inr none_left ↦ cc
          ] in
          let fits : s.total_tokens + soft_threshold ≤ limit = elim h.fits [
            | inl none_left ↦ cc
            | inr ok ↦ ok
          ] in
          (
            omega (
              arith,
              h.calls,
              in_calls,
              length-append s.final_diff_list (strip (join (codes "\n") s.patches) ∷ []),
            ),
            All-snoc (IsChunk v limit) s.final_diff_list _ h.chunks
                (s.patches, inr refl, omega (arith, h.total, fits)),
          )

-- the prompt that is made of all patches, if there is one
abbrev pub whole : List Str → List Str
whole [] = []
whole (p ∷ ps) = join (codes "\n") (p ∷ ps) ∷ []

full_diff_lem : (ps : List Str) → full_diff ps ≡ whole ps
unfolding full_diff
full_diff_lem [] = refl
full_diff_lem (p ∷ ps) = refl

-- Without line numbers, with languages and a limit that are found, the patches are extended, and
-- either those extended patches, all of them, fit under the limit with the soft threshold to spare
-- and are joined into the only prompt, or they do not, and at most `max_calls` prompts are returned,
-- each made of patches whose tokens, with those of the prompt, are at most the limit less the soft
-- threshold. Without an extended patch there is no prompt in the first case.
pub get_pr_multi_diffs_lem :
    (v : Env) (langs : List LanguageGroup) (limit max_calls : ℕ)
    → v.limit ≡ returned limit
    → (texts : List Str) × (r : Extended × List LanguageGroup) × (get_pr_multi_diffs v
          (returned langs)
          max_calls
          false
        ≡ returned texts)
      × (pr_generate_extended_diff (extended_task v false false) langs ≡ returned r)
      × (((texts ≡ whole r.0.patches_extended)
            × (v.prompt_tokens + cost v.count_tokens r.0.patches_extended + soft_threshold < limit))
          ⊎ ((limit ≤ v.prompt_tokens + cost v.count_tokens r.0.patches_extended + soft_threshold)
              × IsSplit v limit max_calls texts))
unfolding get_pr_multi_diffs
get_pr_multi_diffs_lem v langs limit max_calls found =
    let (r, e, sums) = pr_generate_extended_diff-returns (extended_task v false false) langs refl in
    let (s, f) = run-Succeeds v limit max_calls (sorted_files r.1) (initial v) in
    let ok : IsLoop v limit max_calls s = rw f at (
      IsLoop-run v limit max_calls false (sorted_files r.1) (initial v)
        (IsLoop-initial v limit max_calls)) in
    elim (Bool-cases (ltb (r.0.total_tokens + soft_threshold) limit)) [
      | inl small ↦ (
        full_diff r.0.patches_extended,
        r,
        ground (arith, e, found, small),
        e,
        inl (full_diff_lem r.0.patches_extended, ground (arith, sums.total, small)),
      )
      | inr large ↦ (
        last_chunk s,
        r,
        ground (arith, e, found, large, f),
        e,
        inr (ground (arith, sums.total, large), IsSplit-last_chunk v limit max_calls s ok),
      )
    ]
