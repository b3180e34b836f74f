-- ===== src/Processing/Compressed/Kept.antt =====
-- What the rounds of a large pull request keep.
use pr_insight.Base.{
  All-snoc, if_either, length-append, ℕ, zero, suc, ◌+◌, ◌≤◌, true, false, List, [], ◌∷◌, ◌++◌, ◌≡◌,
  ◌⊎◌, inl, inr, refl, arith, length, All, In, Bool-cases,
}
use pr_insight.Base.Int.{pos, pos_part, ◌-ℤ◌}
use pr_insight.Base.Text.{Str, elem, str_eq_iff}
use pr_insight.Base.Dict.{Dict}
use pr_insight.Processing.Full.{
  Entry, FullPatch, Request, is_text, hard_threshold, generate_full_patch,
}
use pr_insight.Processing.Full.Budget.{
  AllBounded, InBudget, IsCounted, generate_full_patch-IsCounted, generate_full_patch-InBudget,
}
use pr_insight.Processing.Full.Fate.{Listed, generate_full_patch-Listed}
use pr_insight.Processing.Compressed.{
  Task, Rounds, no_rounds, request, is_nonempty, add_round, next_round, more_rounds, first_round,
  all_rounds,
}

elem_of_In : (x : Str) (xs : List Str) → In x xs → elem x xs ≡ true
unfolding elem
elem_of_In x [] h = elim h [ ]
elem_of_In x (y ∷ xs) (inl e) = ground (arith, str_eq_iff x y)
elem_of_In x (y ∷ xs) (inr h) = ground (arith, elem_of_In x xs h)

-- The file's patch is in one of the prompts.
abbrev pub Shown : Str → List (List Str) → Type 0
Shown f [] = ⊥
Shown f (names ∷ rest) = In f names ⊎ Shown f rest

Shown-append_left : (f : Str) (xs ys : List (List Str)) → Shown f xs → Shown f (xs ++ ys)
Shown-append_left f [] ys h = elim h [ ]
Shown-append_left f (x ∷ xs) ys (inl h) = inl h
Shown-append_left f (x ∷ xs) ys (inr h) = inr (Shown-append_left f xs ys h)

Shown-append_right : (f : Str) (xs ys : List (List Str)) → Shown f ys → Shown f (xs ++ ys)
Shown-append_right f [] ys h = h
Shown-append_right f (x ∷ xs) ys h = inr (Shown-append_right f xs ys h)

-- No file is lost: it is shown, or it remains.
abbrev pub Kept : Str → Rounds → Type 0
Kept f s = Shown f s.files_in_patches_list ⊎ In f s.remaining_files_list

-- One total and one list of names for each prompt, and each total is in the budget.
pub record IsRounds (t : Task) (limit extra : ℕ) (s : Rounds) : Type 0 where
  pub totals : length s.total_tokens_list ≡ length s.patches_list
  pub names : length s.files_in_patches_list ≡ length s.patches_list
  pub budget : All (InBudget (request t limit []) extra) s.total_tokens_list

no_name :
    (ps names : List Str) (f : Str)
    → length ps ≡ length names
    → is_nonempty ps ≡ false
    → ¬ In f names
no_name ps [] f e h m = elim m [ ]
no_name [] (x ∷ names) f e h m = absurd (omega arith)
no_name (p ∷ ps) (x ∷ names) f e h m = cc

-- A round that adds no patch puts no name into the prompts.
Kept-without_patch :
    {r : Request} (f : Str) (s : Rounds) (p : FullPatch)
    → is_nonempty p.patches ≡ false
    → IsCounted r p
    → Shown f s.files_in_patches_list ⊎ Listed f p
    → Kept f (record s { remaining_files_list = p.remaining_files_list_new })
Kept-without_patch f s p empty c (inl old) = inl old
Kept-without_patch f s p empty c (inr (inl new)) =
    absurd (no_name p.patches p.files_in_patch_list f c.named empty new)
Kept-without_patch f s p empty c (inr (inr remains)) = inr remains

module _ (t : Task) (limit extra : ℕ) (file_dict : Dict Entry)
    (bounded : (names : List Str) → AllBounded (request t limit names) extra file_dict) where
  IsRounds-add_round :
      (s : Rounds) (names : List Str)
      → IsRounds t limit extra s
      → IsRounds t limit extra (add_round s (generate_full_patch (request t limit names) file_dict))
  IsRounds-add_round s names h =
      let p = generate_full_patch (request t limit names) file_dict in
      record {
        totals = omega (
          arith,
          length-append s.total_tokens_list (p.total_tokens ∷ []),
          length-append s.patches_list (p.patches ∷ []),
          h.totals,
        );
        names = omega (
          arith,
          length-append s.files_in_patches_list (p.files_in_patch_list ∷ []),
          length-append s.patches_list (p.patches ∷ []),
          h.names,
        );
        budget =
            All-snoc (InBudget (request t limit []) extra) s.total_tokens_list p.total_tokens
              h.budget
              (generate_full_patch-InBudget (request t limit names) extra file_dict
                (bounded names));
      }

  IsRounds-next_round :
      (s : Rounds)
      → IsRounds t limit extra s
      → IsRounds t limit extra (next_round t file_dict limit s)
  unfolding next_round
  IsRounds-next_round s h =
      let p = generate_full_patch (request t limit s.remaining_files_list) file_dict in
      elim (Bool-cases (is_nonempty p.patches)) [
        | inl some_patch ↦ rw some_patch (IsRounds-add_round s s.remaining_files_list h)
        | inr no_patch ↦
            rw no_patch (record { totals = h.totals; names = h.names; budget = h.budget })
      ]

  IsRounds-more_rounds :
      (n : ℕ) (s : Rounds)
      → IsRounds t limit extra s
      → IsRounds t limit extra (more_rounds t file_dict limit n s)
  unfolding more_rounds
  IsRounds-more_rounds zero s h = h
  IsRounds-more_rounds (suc n) s h = elim (Bool-cases (is_nonempty s.remaining_files_list)) [
    | inl go ↦
        rw go (IsRounds-more_rounds n (next_round t file_dict limit s) (IsRounds-next_round s h))
    | inr stop ↦ rw stop h
  ]

  -- If framing a patch costs at most `extra` tokens: however many rounds are made, there is one total
  -- and one list of names for each prompt, and every total is the prompt's alone or in the budget.
  pub all_rounds-IsRounds :
      (names : List Str) → IsRounds t limit extra (all_rounds t file_dict limit names)
  unfolding all_rounds
  all_rounds-IsRounds names =
      let s = first_round t file_dict limit names in
      let first : IsRounds t limit extra s =
        unfold first_round in
        IsRounds-add_round no_rounds names (record { totals = refl; names = refl; budget = tt }) in
      let n = pos_part (t.max_ai_calls -ℤ pos 2) in
      if_either (IsRounds t limit extra) t.large_pr_handling (more_rounds t file_dict limit n s) s
        (IsRounds-more_rounds n s first) first

  module _ (framing : extra ≤ 500) (room : t.prompt_tokens + hard_threshold ≤ limit)
      (filename : Str) (e : Entry) (there : In (filename, e) file_dict)
      (text : is_text e.patch ≡ true) where
    listed :
        (names : List Str)
        → In filename names
        → Listed filename (generate_full_patch (request t limit names) file_dict)
    listed names h =
        generate_full_patch-Listed (request t limit names) extra file_dict filename e framing room
          (bounded names) there (elem_of_In filename names h) text

    Kept-add_round :
        (s : Rounds) (p : FullPatch)
        → Shown filename s.files_in_patches_list ⊎ Listed filename p
        → Kept filename (add_round s p)
    Kept-add_round s p (inl old) = inl (Shown-append_left filename s.files_in_patches_list _ old)
    Kept-add_round s p (inr (inl new)) =
        inl (
          Shown-append_right filename s.files_in_patches_list (p.files_in_patch_list ∷ [])
            (inl new))
    Kept-add_round s p (inr (inr remains)) = inr remains

    Kept-next_round :
        (s : Rounds) → Kept filename s → Kept filename (next_round t file_dict limit s)
    unfolding next_round
    Kept-next_round s k =
        let r = request t limit s.remaining_files_list in
        let p = generate_full_patch r file_dict in
        let now : Shown filename s.files_in_patches_list ⊎ Listed filename p = elim k [
          | inl old ↦ inl old
          | inr remains ↦ inr (listed s.remaining_files_list remains)
        ] in
        elim (Bool-cases (is_nonempty p.patches)) [
          | inl some_patch ↦ rw some_patch (Kept-add_round s p now)
          | inr no_patch ↦ rw no_patch (
              Kept-without_patch filename s p no_patch (generate_full_patch-IsCounted r file_dict)
                now)
        ]

    Kept-more_rounds :
        (n : ℕ) (s : Rounds) → Kept filename s → Kept filename (more_rounds t file_dict limit n s)
    unfolding more_rounds
    Kept-more_rounds zero s k = k
    Kept-more_rounds (suc n) s k = elim (Bool-cases (is_nonempty s.remaining_files_list)) [
      | inl go ↦ rw go (Kept-more_rounds n (next_round t file_dict limit s) (Kept-next_round s k))
      | inr stop ↦ rw stop k
    ]

    -- If framing costs at most 500 tokens a patch and the prompt leaves room for the hard threshold,
    -- then after all rounds every named file of the dict with a patch is in one of the prompts or
    -- still named as remaining.
    pub all_rounds-Kept :
        (names : List Str) → In filename names → Kept filename (all_rounds t file_dict limit names)
    unfolding all_rounds first_round
    all_rounds-Kept names h =
        let s = first_round t file_dict limit names in
        let first : Kept filename s =
          unfold first_round in
          Kept-add_round no_rounds (generate_full_patch (request t limit names) file_dict)
            (inr (listed names h)) in
        let n = pos_part (t.max_ai_calls -ℤ pos 2) in
        if_either (Kept filename) t.large_pr_handling (more_rounds t file_dict limit n s) s
          (Kept-more_rounds n s first) first
