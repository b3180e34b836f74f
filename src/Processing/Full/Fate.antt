-- ===== src/Processing/Full/Fate.antt =====
-- What becomes of each file: it is in the patch, or named as remaining, or dropped.
use pr_insight.Base.{
  subst, ℕ, subst, ◌+◌, ◌≤◌, ◌<◌, true, [], ◌∷◌, ◌≡◌, ◌⊎◌, inl, inr, refl, arith, In,
  In-append_left, In-append_right,
}
use pr_insight.Base.Text.{Str, elem}
use pr_insight.Base.Dict.{Dict}
use pr_insight.Processing.Full.{
  Entry, FullPatch, Request, hard_threshold, is_text, no_more_tokens, round, run, initial,
  generate_full_patch,
}
use pr_insight.Processing.Full.Budget.{AllBounded, InBudget, round-InBudget}

-- The file's patch is in the result, or its name is in the list of what remains.
abbrev pub Listed : Str → FullPatch → Type 0
Listed filename s = In filename s.files_in_patch_list ⊎ In filename s.remaining_files_list_new

round-Listed :
    (r : Request) (s : FullPatch) (filename : Str) (e : Entry) (f : Str)
    → Listed f s
    → Listed f (round r s filename e)
unfolding round
round-Listed r s filename e f h = ground (
  arith,
  In-append_left f s.files_in_patch_list (filename ∷ []),
  In-append_left f s.remaining_files_list_new (filename ∷ []),
)

run-Listed :
    (r : Request) (files : Dict Entry) (s : FullPatch) (f : Str)
    → Listed f s
    → Listed f (run r s files)
unfolding run
run-Listed r [] s f h = h
run-Listed r ((filename, e) ∷ files) s f h =
    run-Listed r files (round r s filename e) f (round-Listed r s filename e f h)

-- With room for the hard threshold the file of the round is listed.
round_lists :
    (r : Request) (s : FullPatch) (filename : Str) (e : Entry)
    → elem filename r.remaining_files_list_prev ≡ true
    → is_text e.patch ≡ true
    → s.total_tokens + hard_threshold ≤ r.max_tokens_model
    → Listed filename (round r s filename e)
unfolding round
round_lists r s filename e wanted text room = ground (
  arith,
  In-append_right filename s.files_in_patch_list (filename ∷ []),
  In-append_right filename s.remaining_files_list_new (filename ∷ []),
)

has_room :
    (r : Request) (extra total : ℕ)
    → extra ≤ 500
    → r.prompt_tokens + hard_threshold ≤ r.max_tokens_model
    → InBudget r extra total
    → total + hard_threshold ≤ r.max_tokens_model
has_room r extra total x p (inl e) = omega arith
has_room r extra total x p (inr h) = omega arith

run_lists :
    (r : Request) (extra : ℕ) (files : Dict Entry) (s : FullPatch) (filename : Str) (e : Entry)
    → extra ≤ 500
    → r.prompt_tokens + hard_threshold ≤ r.max_tokens_model
    → AllBounded r extra files
    → InBudget r extra s.total_tokens
    → In (filename, e) files
    → elem filename r.remaining_files_list_prev ≡ true
    → is_text e.patch ≡ true
    → Listed filename (run r s files)
unfolding run
run_lists r extra [] s filename e x p b h m w t = elim m [ ]
run_lists r extra ((g, d) ∷ files) s filename e x p b h (inl same) w t =
    run-Listed r files (round r s g d) filename (
      subst (λ (x : Str × Entry). Listed filename (round r s x.0 x.1)) same
        (round_lists r s filename e w t (has_room r extra s.total_tokens x p h)))
run_lists r extra ((g, d) ∷ files) s filename e x p b h (inr later) w t =
    run_lists r extra files (round r s g d) filename e x p b.1 (round-InBudget r extra s g d b.0 h)
      later w t

-- If framing costs at most 500 tokens a patch and the prompt leaves room for the hard threshold, no
-- wanted file with a patch is lost: its patch is in the result or its name among what remains.
pub generate_full_patch-Listed :
    (r : Request) (extra : ℕ) (files : Dict Entry) (filename : Str) (e : Entry)
    → extra ≤ 500
    → r.prompt_tokens + hard_threshold ≤ r.max_tokens_model
    → AllBounded r extra files
    → In (filename, e) files
    → elem filename r.remaining_files_list_prev ≡ true
    → is_text e.patch ≡ true
    → Listed filename (generate_full_patch r files)
unfolding generate_full_patch
generate_full_patch-Listed r extra files filename e x p b m w t =
    run_lists r extra files (initial r) filename e x p b (inl refl) m w t

round_full :
    (r : Request) (s : FullPatch) (filename : Str) (e : Entry)
    → no_more_tokens r s.total_tokens ≡ true
    → round r s filename e ≡ s
unfolding round
round_full r s filename e h = ground arith

run_full :
    (r : Request) (files : Dict Entry) (s : FullPatch)
    → no_more_tokens r s.total_tokens ≡ true
    → run r s files ≡ s
unfolding run
run_full r [] s h = refl
run_full r ((filename, e) ∷ files) s h = rw (round_full r s filename e h) (run_full r files s h)

-- Where the prompt alone passes the hard threshold, every file is dropped: no patch is returned, and
-- no file is named as remaining either.
pub generate_full_patch_no_room :
    (r : Request) (files : Dict Entry)
    → r.max_tokens_model < r.prompt_tokens + hard_threshold
    → generate_full_patch r files ≡ initial r
unfolding generate_full_patch
generate_full_patch_no_room r files h = run_full r files (initial r) (ground arith)
