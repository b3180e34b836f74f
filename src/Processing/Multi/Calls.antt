-- ===== src/Processing/Multi/Calls.antt =====
-- The number of prompts and what each of them costs.
use pr_insight.Base.{
  if_cases, ap, ℕ, ◌+◌, ◌≤◌, Bool, true, false, Option, none, some, List, [], ◌∷◌, ◌≡◌, ◌⊎◌, inl,
  inr, refl, arith, length, length-append, All, All-snoc, ltb, Option-cases,
}
use pr_insight.Base.Fail.{Returns, Returns-and_then, any_value}
use pr_insight.Base.Text.{Str, codes, join, strip}
use pr_insight.Patch.Types.{FilePatchInfo}
use pr_insight.Processing.Full.{is_text, soft_threshold}
use pr_insight.Processing.Full.Budget.{cost, cost-append}
use pr_insight.Processing.Diff.{Env}
use pr_insight.Processing.Multi.{
  Loop, over, fit_alone, numbered_patch, next_call, add_patch, place, convert_and_place, round, run,
}

-- A prompt of patches that cost, with the prompt's own tokens, at most the limit less the soft
-- threshold.
abbrev pub IsChunk : Env → ℕ → Str → Type 0
IsChunk v limit text =
    (ps : List Str) × ((text ≡ join (codes "\n") ps) ⊎ (text ≡ strip (join (codes "\n") ps)))
    × (v.prompt_tokens + cost v.count_tokens ps + soft_threshold ≤ limit)

pub record IsLoop (v : Env) (limit max_calls : ℕ) (s : Loop) : Type 0 where
  pub total : s.total_tokens ≡ v.prompt_tokens + cost v.count_tokens s.patches
  pub fits : (s.patches ≡ []) ⊎ (s.total_tokens + soft_threshold ≤ limit)
  pub chunks : All (IsChunk v limit) s.final_diff_list
  pub calls : length s.final_diff_list + 1 ≡ s.call_number
  pub within : s.call_number ≤ max_calls + 1
  pub below : (s.call_number ≤ max_calls) ⊎ (s.patches ≡ [])

abbrev Fits : Env → ℕ → Str → Type 0
Fits v limit p = (p ≡ []) ⊎ (v.prompt_tokens + v.count_tokens p + soft_threshold ≤ limit)

fit_alone-Fits :
    (v : Env) (limit : ℕ) (patch q : Str) → fit_alone v limit patch ≡ some q → Fits v limit q
unfolding fit_alone
fit_alone-Fits v limit patch q h = ground arith

module _ (v : Env) (limit max_calls : ℕ) where
  chunk_cost :
      (s : Loop) (p : Str)
      → IsLoop v limit max_calls s
      → v.prompt_tokens + v.count_tokens p + soft_threshold ≤ limit
      → over limit (s.total_tokens + v.count_tokens p) ≡ true
      → v.prompt_tokens + cost v.count_tokens s.patches + soft_threshold ≤ limit
  chunk_cost s p h f o = elim h.fits [
    | inl e ↦
        let nothing : cost v.count_tokens s.patches ≡ 0 = ap (cost v.count_tokens) e in
        absurd (ground (arith, h.total, nothing))
    | inr ok ↦ omega (arith, h.total)
  ]

  IsLoop-next_call :
      (s : Loop) (p : Str)
      → IsLoop v limit max_calls s
      → s.call_number ≤ max_calls
      → v.prompt_tokens + v.count_tokens p + soft_threshold ≤ limit
      → over limit (s.total_tokens + v.count_tokens p) ≡ true
      → IsLoop v limit max_calls (next_call v max_calls s)
  unfolding next_call
  IsLoop-next_call s p h c f o = record {
    total = omega arith;
    fits = inl refl;
    chunks =
        All-snoc (IsChunk v limit) s.final_diff_list _ h.chunks
          (s.patches, inl refl, chunk_cost s p h f o);
    calls =
        omega (arith, length-append s.final_diff_list (join (codes "\n") s.patches ∷ []), h.calls);
    within = omega (arith, h.within);
    below = inr refl;
  }

  IsLoop-add_patch :
      (s : Loop) (p : Str)
      → IsLoop v limit max_calls s
      → (s.stopped ≡ true) ⊎ (s.call_number ≤ max_calls)
      → s.total_tokens + v.count_tokens p + soft_threshold ≤ limit
      → IsLoop v limit max_calls (add_patch v s p)
  unfolding add_patch
  IsLoop-add_patch s [] h c f = h
  IsLoop-add_patch s (x ∷ p) h c f =
      if_cases (IsLoop v limit max_calls) s.stopped s _ (λ stop. h)
        λ go. record {
          total = omega (arith, cost-append v.count_tokens s.patches ((x ∷ p) ∷ []), h.total);
          fits = inr (omega arith);
          chunks = h.chunks;
          calls = h.calls;
          within = h.within;
          below = inl (ground (arith, c, go));
        }

  -- where the patch goes: into a new prompt, or behind the others
  IsLoop-place_text :
      (s : Loop) (p : Str)
      → IsLoop v limit max_calls s
      → s.stopped ≡ false
      → s.call_number ≤ max_calls
      → Fits v limit p
      → IsLoop v limit max_calls (place v limit max_calls s (some p))
  unfolding place
  IsLoop-place_text s [] h go c f = h
  IsLoop-place_text s (x ∷ p) h go c f =
      let fits : v.prompt_tokens + v.count_tokens (x ∷ p) + soft_threshold ≤ limit = ground arith in
      let n = s.total_tokens + v.count_tokens (x ∷ p) in
      if_cases (λ t. IsLoop v limit max_calls (add_patch v t (x ∷ p))) (over limit n)
        (next_call v max_calls s) s
        (λ o.
          IsLoop-add_patch (next_call v max_calls s) (x ∷ p) (IsLoop-next_call s (x ∷ p) h c fits o)
            (unfold next_call in ground arith) (unfold next_call in fits))
        (λ o. IsLoop-add_patch s (x ∷ p) h (inr c) (ground arith))

  IsLoop-place :
      (s : Loop) (patch : Str)
      → IsLoop v limit max_calls s
      → s.stopped ≡ false
      → s.call_number ≤ max_calls
      → IsLoop v limit max_calls (place v limit max_calls s (fit_alone v limit patch))
  IsLoop-place s patch h go c = elim (Option-cases (fit_alone v limit patch)) [
    | inl skip ↦ rw skip (unfold place in h)
    | inr (q, e) ↦ rw e (IsLoop-place_text s q h go c (fit_alone-Fits v limit patch q e))
  ]

  module _ (add_line_numbers : Bool) where
    IsLoop-convert :
        (s : Loop) (file : FilePatchInfo) (o : Option Str)
        → IsLoop v limit max_calls s
        → s.stopped ≡ false
        → s.call_number ≤ max_calls
        → Returns
            (convert_and_place v limit max_calls add_line_numbers s file o)
            (IsLoop v limit max_calls)
    unfolding convert_and_place
    IsLoop-convert s file none h go c = h
    IsLoop-convert s file (some patch) h go c =
        Returns-and_then (numbered_patch v add_line_numbers file patch) _ (λ p. Unit)
          (IsLoop v limit max_calls) (any_value (numbered_patch v add_line_numbers file patch))
          (λ p _. IsLoop-place s p h go c)

    IsLoop-stopped :
        (s : Loop)
        → IsLoop v limit max_calls s
        → IsLoop v limit max_calls (record s { stopped = true })
    IsLoop-stopped s h = record {
      total = h.total;
      fits = h.fits;
      chunks = h.chunks;
      calls = h.calls;
      within = h.within;
      below = h.below;
    }

    IsLoop-round :
        (s : Loop) (file : FilePatchInfo)
        → IsLoop v limit max_calls s
        → s.stopped ≡ false
        → Returns (round v limit max_calls add_line_numbers s file) (IsLoop v limit max_calls)
    unfolding round
    IsLoop-round s file h go =
        if_cases (λ m. Returns m (IsLoop v limit max_calls)) (ltb max_calls s.call_number) _ _
          (λ out. IsLoop-stopped s h)
          λ in_range.
            if_cases (λ m. Returns m (IsLoop v limit max_calls)) (is_text file.patch) _ _
              (λ text. IsLoop-convert s file _ h go (ground arith)) (λ empty. h)

    pub IsLoop-run :
        (files : List FilePatchInfo) (s : Loop)
        → IsLoop v limit max_calls s
        → Returns (run v limit max_calls add_line_numbers s files) (IsLoop v limit max_calls)
    unfolding run
    IsLoop-run [] s h = h
    IsLoop-run (file ∷ files) s h =
        if_cases (λ m. Returns m (IsLoop v limit max_calls)) s.stopped _ _ (λ stop. h)
          λ go.
            Returns-and_then (round v limit max_calls add_line_numbers s file) _
              (IsLoop v limit max_calls) (IsLoop v limit max_calls) (IsLoop-round s file h go)
              (λ s' h'. IsLoop-run files s' h')
