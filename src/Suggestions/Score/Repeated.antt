-- ===== src/Suggestions/Score/Repeated.antt =====
-- Suggestions that the pull request has already done.
use pr_insight.Base.{
  Bool, true, false, not, ◌&&◌, ◌||◌, some, List, [], ◌∷◌, ◌≡◌, refl, ap, ◌∙◌, arith, any, all,
  if◌then◌else◌, if_cases,
}
use pr_insight.Base.Int.{ℤ, pos}
use pr_insight.Base.Text.{Str, codes, str_eq, contains}
use pr_insight.Base.Fail.{Outcome, returned, raised}
use pr_insight.Base.Json.{
  Value, object, number, text, Fields, set_field, lookup_field, has_field, item, same,
}
use pr_insight.Patch.Types.{FilePatchInfo}
use pr_insight.Suggestions.Prepare.Keeps.{lookup-set_field, lookup-set_field_same}
use pr_insight.Suggestions.Score.{
  attempt, one_negative, get_line, clear_if, score_key, set_score, with_default, with_lines,
  if_no_lines, with_feedback, code_of, stripped, repeats, is_missing, is_named, check_files,
  validate_one_liner, clear_equal, review, is_selected,
}

-- the three fields that the check reads
abbrev pub SameCode : Fields → Fields → Type 0
SameCode s t =
    (lookup_field (codes "existing_code") t ≡ lookup_field (codes "existing_code") s)
    × (lookup_field (codes "improved_code") t ≡ lookup_field (codes "improved_code") s)
    × (lookup_field (codes "relevant_file") t ≡ lookup_field (codes "relevant_file") s)

-- a key that is none of the three
abbrev IsOther : Str → Type 0
IsOther k =
    (str_eq (codes "existing_code") k ≡ false)
    × (str_eq (codes "improved_code") k ≡ false)
    × (str_eq (codes "relevant_file") k ≡ false)

SameCode-set_field :
    (k : Str) (v : Value) (s t : Fields) → IsOther k → SameCode s t → SameCode s (set_field k v t)
SameCode-set_field k v s t (h, h', h'') (e, e', e'') = (
  lookup-set_field k (codes "existing_code") v t ∙ rw h e,
  lookup-set_field k (codes "improved_code") v t ∙ rw h' e',
  lookup-set_field k (codes "relevant_file") v t ∙ rw h'' e'',
)

SameCode-set_score : (v : Value) (s t : Fields) → SameCode s t → SameCode s (set_score v t)
unfolding str_eq
SameCode-set_score v s t h = SameCode-set_field score_key v s t (refl, refl, refl) h

SameCode-with_default : (s t : Fields) → SameCode s t → SameCode s (with_default t)
unfolding str_eq
SameCode-with_default s t h =
    SameCode-set_field (codes "score_why") (text []) s (set_score (number (pos 7)) t)
      (refl, refl, refl) (SameCode-set_score (number (pos 7)) s t h)

abbrev IsZero : Fields → Type 0
IsZero s = lookup_field score_key s ≡ some (number (pos 0))

IsZero-set_score : (s : Fields) → IsZero (set_score (number (pos 0)) s)
IsZero-set_score s = lookup-set_field_same score_key (number (pos 0)) s

IsZero-if : (b : Bool) (s t : Fields) → IsZero s → IsZero t → IsZero (if b then s else t)
IsZero-if true s t h k = h
IsZero-if false s t h k = k

-- a file of the name that repeats the code
abbrev pub is_repeated : Str → Str → Str → FilePatchInfo → Bool
is_repeated old new name file = is_named name file && repeats old new file

check_files-IsZero :
    (old new name : Str) (files : List FilePatchInfo) (s : Fields)
    → IsZero s
    → IsZero (check_files old new name files s)
unfolding check_files
check_files-IsZero old new name [] s h = h
check_files-IsZero old new name (f ∷ files) s h =
    let next = if is_repeated old new name f then set_score (number (pos 0)) s else s in
    IsZero-if (is_named name f && is_missing f.head_file) s (check_files old new name files next) h
      (check_files-IsZero old new name files next (
        IsZero-if (is_repeated old new name f) (set_score (number (pos 0)) s) s (IsZero-set_score s)
          h))

has_head :
    (b : Bool) (head : Str) (rest : Bool)
    → (not (is_missing head) && rest) ≡ true
    → (b && is_missing head) ≡ false
has_head b head rest h = ground (arith, h)

later_heads : (head : Str) (rest : Bool) → (not (is_missing head) && rest) ≡ true → rest ≡ true
later_heads head rest h = ground (arith, h)

later_repeats : (b rest : Bool) → b ≡ false → (b || rest) ≡ true → rest ≡ true
later_repeats b rest e h = ground (arith, e, h)

check_files-repeated :
    (old new name : Str) (files : List FilePatchInfo) (s : Fields)
    → all (λ f. not (is_missing f.head_file)) files ≡ true
    → any (is_repeated old new name) files ≡ true
    → IsZero (check_files old new name files s)
unfolding check_files
check_files-repeated old new name [] s h k = ground (arith, k)
check_files-repeated old new name (f ∷ files) s h k =
    rw (has_head (is_named name f) f.head_file _ h) (
      if_cases (λ t. IsZero (check_files old new name files t)) (is_repeated old new name f)
        (set_score (number (pos 0)) s) s
        (λ e. check_files-IsZero old new name files _ (IsZero-set_score s))
        (λ e.
          check_files-repeated old new name files s (later_heads f.head_file _ h)
            (later_repeats (is_repeated old new name f) _ e k)))

attempt-Holds :
    {A : Type 0} (P : Fields → Type 0) (s : Fields) (m : Outcome A) (f : A → Fields)
    → P s
    → ((a : A) → P (f a))
    → P (attempt s m f)
attempt-Holds P s (returned a) f h k = k a
attempt-Holds P s (raised e) f h k = h

SameCode-with_lines : (a b : Value) (s t : Fields) → SameCode s t → SameCode s (with_lines a b t)
unfolding str_eq
SameCode-with_lines a b s t h =
    let u =
      set_field (codes "relevant_lines_end") b (set_field (codes "relevant_lines_start") a t) in
    let same_code : SameCode s u =
      SameCode-set_field (codes "relevant_lines_end") b s _ (refl, refl, refl)
        (SameCode-set_field (codes "relevant_lines_start") a s t (refl, refl, refl) h) in
    attempt-Holds (SameCode s) (with_default u) (one_negative a b) _
      (SameCode-with_default s u same_code)
      (λ n.
        if_cases (SameCode s) n (set_score (number (pos 0)) u) u
          (λ e. SameCode-set_score (number (pos 0)) s u same_code) (λ e. same_code))

SameCode-if_no_lines : (v : Value) (s t : Fields) → SameCode s t → SameCode s (if_no_lines v t)
SameCode-if_no_lines v s t h =
    if_cases (SameCode s) (has_field (codes "relevant_lines_start") t) t _ (λ e. h)
      (λ e.
        attempt-Holds (SameCode s) (with_default t) (get_line v (codes "relevant_lines_start")) _
          (SameCode-with_default s t h)
          (λ first.
            attempt-Holds (SameCode s) (with_default t) (get_line v (codes "relevant_lines_end")) _
              (SameCode-with_default s t h) (λ last. SameCode-with_lines first last s t h)))

SameCode-with_feedback : (v : Value) (s : Fields) → SameCode s (with_feedback v s)
unfolding with_feedback str_eq
SameCode-with_feedback v s =
    let same_code : SameCode s s = (refl, refl, refl) in
    attempt-Holds (SameCode s) (with_default s) (item (codes "suggestion_score") v) _
      (SameCode-with_default s s same_code)
      (λ score.
        let scored = SameCode-set_score score s s same_code in
        attempt-Holds (SameCode s) (with_default (set_score score s)) (item (codes "why") v) _
          (SameCode-with_default s (set_score score s) scored)
          (λ why. SameCode-if_no_lines v s (set_field (codes "score_why") why (set_score score s)) (
            SameCode-set_field (codes "score_why") why s (set_score score s) (refl, refl, refl)
              scored)))

clear_if-IsZero :
    (equal committable : Bool) (s : Fields) → IsZero s → IsZero (clear_if equal committable s)
unfolding str_eq
clear_if-IsZero false committable s h = h
clear_if-IsZero true true s h = lookup-set_field (codes "improved_code") score_key (text []) s ∙ h
clear_if-IsZero true false s h = lookup-set_field (codes "existing_code") score_key (text []) s ∙ h

clear_equal-IsZero :
    (committable : Bool) (s : Fields) → IsZero s → IsZero (clear_equal committable s)
unfolding clear_equal
clear_equal-IsZero committable s h =
    attempt-Holds IsZero s (item (codes "existing_code") (object s)) _ h (λ a.
      attempt-Holds IsZero s (item (codes "improved_code") (object s)) _ h
        (λ b. clear_if-IsZero (same a b) committable s h))

is_selected-IsZero :
    (int_of_text : Str → Outcome ℤ) (threshold : ℤ) (s : Fields)
    → IsZero s
    → is_selected int_of_text threshold s ≡ false
unfolding is_selected
is_selected-IsZero int_of_text threshold s h = rw (is_selected, h) (ground arith)

-- When a file of the suggestion's name held its existing code before the pull request and holds the
-- improved code instead of it after it, the suggestion is not kept after its review, whatever score
-- the feedback gives it and whatever the threshold is. Its codes and its file are texts, the existing
-- code has no "..." in it, and every file has a head.
pub is_selected-review :
    (int_of_text : Str → Outcome ℤ) (threshold : ℤ) (committable : Bool)
    (files : List FilePatchInfo) (feedback : Value) (s : Fields) (old new name : Str)
    → code_of (codes "existing_code") s ≡ returned old
    → code_of (codes "improved_code") s ≡ returned new
    → code_of (codes "relevant_file") s ≡ returned name
    → contains (codes "...") old ≡ false
    → all (λ f. not (is_missing f.head_file)) files ≡ true
    → any (is_repeated old new name) files ≡ true
    → is_selected int_of_text threshold (review committable files feedback s) ≡ false
unfolding review validate_one_liner code_of
is_selected-review int_of_text threshold committable files feedback s old new name e e' e'' plain h
      k =
    let t = with_feedback feedback s in
    let (c, c', c'') = SameCode-with_feedback feedback s in
    let zero : IsZero (validate_one_liner files t) =
      rw (ap stripped c ∙ e, ap stripped c' ∙ e', ap stripped c'' ∙ e'', plain)
        (check_files-repeated old new name files t h k) in
    is_selected-IsZero int_of_text threshold (review committable files feedback s)
      (clear_equal-IsZero committable (validate_one_liner files t) zero)
