-- ===== src/Patch/Position/Loops.antt =====
-- What the three loops find in a patch of hunks.
use pr_insight.Base.{
  ℕ, suc, ◌+◌, Bool, true, false, not, ◌&&◌, Option, some, List, [], ◌∷◌, ◌++◌, ◌≡◌, refl, arith,
  ap, ◌∙◌, All, subst, all, if◌then◌else◌,
}
use pr_insight.Base.Int.{ℤ, pos, ◌-ℤ◌, eqb_ℤ}
use pr_insight.Base.Fail.{Outcome, returned, raised, and_then}
use pr_insight.Base.Text.{Str, contains, starts_with}
use pr_insight.Patch.Numbered.{is_minus_line, is_empty}
use pr_insight.Patch.Numbered.Shown.{Hunk, IsHunk, is_body, lines_of}
use pr_insight.Patch.Position.{
  Count, Walk, number_of, number_loop, line_loop, no_plus_loop, not_deleted,
}
use pr_insight.Patch.Position.Entries.{
  body_entries, entries, IsSized, first_number, first_text, counted, line_number, count_body,
  count_header, number_counted, next_counted, body_entries_cons, number_header, no_delta,
  header_given,
}

number_step :
    (b : Bool) (i : ℕ) (m : Outcome (Option ℕ)) (o : Option ℕ)
    → m ≡ returned o
    → (if b then returned (some i) else m) ≡ returned (if b then some i else o)
number_step true i m o e = refl
number_step false i m o e = e

module _ (wanted : ℤ) where
  -- what follows a body is found from any count
  abbrev pub NumberGoesOn : List Str → List (Str × ℤ) → Type 0
  NumberGoesOn rest es =
      (i : ℕ) (c : Count) → number_loop wanted i c rest ≡ returned (first_number wanted i es)

  number_body :
      (body rest : List Str) (es : List (Str × ℤ)) (i : ℕ) (c : Count)
      → all is_body body ≡ true
      → NumberGoesOn rest es
      → number_loop wanted i c (body ++ rest)
        ≡ returned (first_number wanted i (body_entries (c.start2 + c.delta) body ++ es))
  unfolding number_loop number_of
  number_body [] rest es i c h go = go i c
  number_body (line ∷ body) rest es i c h go =
      rw
        (
          count_body c line (ground (arith, h)),
          body_entries_cons (c.start2 + c.delta) line body,
          number_counted c line,
        )
        (number_step (eqb_ℤ (line_number (c.start2 + c.delta) line) wanted) i _ _ (
          number_body body rest es (suc i) (counted c line) (ground (arith, h)) go
          ∙ ap (λ (n : ℕ). returned (first_number wanted (suc i) (body_entries n body ++ es)))
              (next_counted c line)))

  pub number_hunks :
      (hs : List Hunk) → All IsHunk hs → All IsSized hs → NumberGoesOn (lines_of hs) (entries hs)
  unfolding number_loop number_of
  number_hunks [] ok sized i c = refl
  number_hunks (h ∷ hs) ok sized i c =
      let opened : Count = record { delta = 0; start2 = h.groups.start_new } in
      rw (count_header c h ok.0 sized.0, number_header h.groups.start_new)
        (number_step (eqb_ℤ (pos h.groups.start_new -ℤ pos 1) wanted) i _ _ (
          number_body h.body (lines_of hs) (entries hs) (suc i) opened ok.0.lines
            (number_hunks hs ok.1 sized.1)
          ∙ ap
              (λ (n : ℕ).
                returned (first_number wanted (suc i) (body_entries n h.body ++ entries hs)))
              (no_delta h.groups.start_new)))

-- the test of a line that is not empty
abbrev holds : Str → Str → Bool
holds text line = contains text line && not (is_minus_line line)

text_test :
    (text line : Str)
    → is_empty line ≡ false
    → (if contains text line then not_deleted line else returned false) ≡ returned (holds text line)
unfolding starts_with
text_test text [] h = cc
text_test text (c ∷ line) h = ground arith

-- where a search by text ends
abbrev pub Ends : Outcome Walk → Option (ℕ × ℤ) → Type 0
Ends m hit = (c : Count) × (m ≡ returned (record { hit = hit; count = c }))

text_step :
    (b : Bool) (hit later : Option (ℕ × ℤ)) (c : Count) (m : Outcome Walk)
    → Ends m later
    → Ends (if b then returned (record { hit = hit; count = c }) else m) (if b then hit else later)
text_step true hit later c m (d, e) = (c, refl)
text_step false hit later c m (d, e) = (d, e)

module _ (text : Str) where
  abbrev pub TextGoesOn : List Str → List (Str × ℤ) → Type 0
  TextGoesOn rest es = (i : ℕ) (c : Count) → Ends (line_loop text i c rest) (first_text text i es)

  text_body :
      (body rest : List Str) (es : List (Str × ℤ)) (i : ℕ) (c : Count)
      → all is_body body ≡ true
      → TextGoesOn rest es
      → Ends
          (line_loop text i c (body ++ rest))
          (first_text text i (body_entries (c.start2 + c.delta) body ++ es))
  unfolding line_loop
  text_body [] rest es i c h go = go i c
  text_body (line ∷ body) rest es i c h go =
      rw
        (
          count_body c line (ground (arith, h)),
          body_entries_cons (c.start2 + c.delta) line body,
          text_test text line (ground (arith, h)),
          number_counted c line,
          ← next_counted c line,
        )
        (text_step (holds text line) (some (i, line_number (c.start2 + c.delta) line)) _
          (counted c line) _
          (text_body body rest es (suc i) (counted c line) (ground (arith, h)) go))

  pub text_hunks :
      (hs : List Hunk) → All IsHunk hs → All IsSized hs → TextGoesOn (lines_of hs) (entries hs)
  unfolding line_loop
  text_hunks [] ok sized i c = (c, refl)
  text_hunks (h ∷ hs) ok sized i c =
      let opened : Count = record { delta = 0; start2 = h.groups.start_new } in
      rw
        (
          count_header c h ok.0 sized.0,
          text_test text h.header (header_given h.header ok.0.opens),
          number_header h.groups.start_new,
        )
        (text_step (holds text h.header) (some (i, pos h.groups.start_new -ℤ pos 1)) _ opened _ (
          subst
            (λ (n : ℕ).
              Ends (line_loop text (suc i) opened (h.body ++ lines_of hs))
                (first_text text (suc i) (body_entries n h.body ++ entries hs)))
            (no_delta h.groups.start_new)
            (text_body h.body (lines_of hs) (entries hs) (suc i) opened ok.0.lines
              (text_hunks hs ok.1 sized.1))))

-- a round of the second search by text is one of the first
same_round :
    (i : ℕ) (r : Outcome Count) (b : Outcome Bool) (f : Count → Outcome Walk)
    (g : Count → Outcome (Option (ℕ × ℤ)))
    → ((c : Count) → g c ≡ and_then (f c) (λ w. returned w.hit))
    → and_then r (λ c. and_then b (λ here. if here then returned (some (i, number_of c)) else g c))
      ≡ and_then
          (and_then r (λ c. and_then b (λ here.
            if here then returned (record { hit = some (i, number_of c); count = c }) else f c)))
          (λ w. returned w.hit)
same_round i (raised e) b f g h = refl
same_round i (returned c) (raised e) f g h = refl
same_round i (returned c) (returned true) f g h = refl
same_round i (returned c) (returned false) f g h = h c

pub no_plus_loop-line_loop :
    (text : Str) (i : ℕ) (c : Count) (lines : List Str)
    → no_plus_loop text i c lines ≡ and_then (line_loop text i c lines) (λ w. returned w.hit)
unfolding no_plus_loop line_loop
no_plus_loop-line_loop text i c [] = refl
no_plus_loop-line_loop text i c (line ∷ lines) =
    same_round i _ _ (λ c'. line_loop text (suc i) c' lines)
      (λ c'. no_plus_loop text (suc i) c' lines)
      (λ c'. no_plus_loop-line_loop text (suc i) c' lines)
