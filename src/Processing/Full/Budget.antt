-- ===== src/Processing/Full/Budget.antt =====
-- What the patches cost, and that they stay in the budget.
use pr_insight.Base.{
  ℕ, ◌+◌, ◌≤◌, List, [], ◌∷◌, ◌++◌, ◌≡◌, ◌⊎◌, inl, refl, arith, length, length-append,
}
use pr_insight.Base.Text.{Str}
use pr_insight.Base.Dict.{Dict}
use pr_insight.Processing.Full.{
  Entry, FullPatch, Request, soft_threshold, final_patch, round, run, initial, generate_full_patch,
}

-- the tokens of a list of texts
abbrev pub cost : (Str → ℕ) → List Str → ℕ
cost count [] = 0
cost count (p ∷ ps) = count p + cost count ps

pub cost-append :
    (count : Str → ℕ) (xs ys : List Str) → cost count (xs ++ ys) ≡ cost count xs + cost count ys
cost-append count [] ys = omega arith
cost-append count (x ∷ xs) ys = omega (arith, cost-append count xs ys)

-- One name for each patch, and the total is that of the prompt and of the patches.
pub record IsCounted (r : Request) (s : FullPatch) : Type 0 where
  pub total : s.total_tokens ≡ r.prompt_tokens + cost r.count_tokens s.patches
  pub named : length s.patches ≡ length s.files_in_patch_list

round-IsCounted :
    (r : Request) (s : FullPatch) (filename : Str) (e : Entry)
    → IsCounted r s
    → IsCounted r (round r s filename e)
unfolding round
round-IsCounted r s filename e c =
    let text = final_patch r.convert_hunks_to_line_numbers filename e.patch in
    ground (
      arith,
      cost-append r.count_tokens s.patches (text ∷ []),
      length-append s.patches (text ∷ []),
      length-append s.files_in_patch_list (filename ∷ []),
    )

run-IsCounted :
    (r : Request) (files : Dict Entry) (s : FullPatch) → IsCounted r s → IsCounted r (run r s files)
unfolding run
run-IsCounted r [] s c = c
run-IsCounted r ((filename, e) ∷ files) s c =
    run-IsCounted r files (round r s filename e) (round-IsCounted r s filename e c)

-- The total that is returned is the prompt's tokens and those of the returned patches, and each
-- patch has its file's name at the same place of the second list.
pub generate_full_patch-IsCounted :
    (r : Request) (files : Dict Entry) → IsCounted r (generate_full_patch r files)
unfolding generate_full_patch
generate_full_patch-IsCounted r files = run-IsCounted r files (initial r) (omega arith)

-- The final text of a patch costs at most `extra` tokens more than the patch was counted with.
abbrev pub Bounded : Request → ℕ → Str → Entry → Type 0
Bounded r extra filename e =
    r.count_tokens (final_patch r.convert_hunks_to_line_numbers filename e.patch) ≤ e.tokens + extra

abbrev pub AllBounded : Request → ℕ → Dict Entry → Type 0
AllBounded r extra [] = Unit
AllBounded r extra ((filename, e) ∷ files) = Bounded r extra filename e × AllBounded r extra files

abbrev pub InBudget : Request → ℕ → ℕ → Type 0
InBudget r extra total =
    (total ≡ r.prompt_tokens) ⊎ (total + soft_threshold ≤ r.max_tokens_model + extra)

pub round-InBudget :
    (r : Request) (extra : ℕ) (s : FullPatch) (filename : Str) (e : Entry)
    → Bounded r extra filename e
    → InBudget r extra s.total_tokens
    → InBudget r extra (round r s filename e).total_tokens
unfolding round
round-InBudget r extra s filename e b h = ground arith

run-InBudget :
    (r : Request) (extra : ℕ) (files : Dict Entry) (s : FullPatch)
    → AllBounded r extra files
    → InBudget r extra s.total_tokens
    → InBudget r extra (run r s files).total_tokens
unfolding run
run-InBudget r extra [] s b h = h
run-InBudget r extra ((filename, e) ∷ files) s b h =
    run-InBudget r extra files (round r s filename e) b.1
      (round-InBudget r extra s filename e b.0 h)

-- If framing a patch costs at most `extra` tokens, the total is the prompt's alone or lies below
-- the model's limit by the soft threshold, up to `extra`.
pub generate_full_patch-InBudget :
    (r : Request) (extra : ℕ) (files : Dict Entry)
    → AllBounded r extra files
    → InBudget r extra (generate_full_patch r files).total_tokens
unfolding generate_full_patch
generate_full_patch-InBudget r extra files b = run-InBudget r extra files (initial r) b (inl refl)
