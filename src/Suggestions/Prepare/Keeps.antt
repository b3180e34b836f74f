-- ===== src/Suggestions/Prepare/Keeps.antt =====
-- What a change of one field of a suggestion leaves.
use pr_insight.Base.{
  Bool, true, false, Option, none, some, List, [], ◌∷◌, ◌≡◌, refl, ap, ◌∙◌, arith, if◌then◌else◌,
}
use pr_insight.Base.Int.{pos, pos_part, ltb_ℤ}
use pr_insight.Base.Text.{Str, codes, str_eq, str_eq_iff, str_eq_refl, contains}
use pr_insight.Base.Fail.{
  Outcome, returned, raised, key_error, and_then, Returns, Returns-and_then, any_value, Succeeds,
}
use pr_insight.Base.Json.{
  Value, null, boolean, number, text, array, object, Fields, end, field, set_field, set_item,
  lookup_field, is_in, item,
}
use pr_insight.Suggestions.Prepare.{
  Settings, has_keys, soften, truncate_if_needed, cut, len_of, lower_of, summary_of,
}

pub lookup-set_field :
    (k j : Str) (v : Value) (d : Fields)
    → lookup_field j (set_field k v d) ≡ (if str_eq j k then some v else lookup_field j d)
unfolding lookup_field set_field
lookup-set_field k j v end = refl
lookup-set_field k j v (field i w d) = ground (
  arith,
  str_eq_iff k j,
  str_eq_iff j k,
  str_eq_iff k i,
  str_eq_iff j i,
  lookup-set_field k j v d,
)

-- what a change of another field leaves: the keys, and the summary
abbrev pub Keeps : Value → Value → Type 0
Keeps s t =
    ((k : Str) → is_in k s ≡ returned true → is_in k t ≡ returned true)
    × (summary_of t ≡ summary_of s)

set_field-keeps :
    (k j : Str) (w : Value) (d : Fields)
    → is_in j (object d) ≡ returned true
    → is_in j (object (set_field k w d)) ≡ returned true
unfolding is_in
set_field-keeps k j w d h = ground (arith, lookup-set_field k j w d, h)

set_item-Keeps :
    (k : Str) (w s : Value)
    → str_eq (codes "one_sentence_summary") k ≡ false
    → Returns (set_item k w s) (Keeps s)
set_item-Keeps k w (object d) h = (
  λ j. set_field-keeps k j w d,
  ap (λ (o : Option Value). elim o [ none ↦ raised key_error | some v ↦ returned v ])
      (lookup-set_field k (codes "one_sentence_summary") w d ∙ rw h),
)
set_item-Keeps k w null h = tt
set_item-Keeps k w (boolean b) h = tt
set_item-Keeps k w (number n) h = tt
set_item-Keeps k w (text t) h = tt
set_item-Keeps k w (array vs) h = tt

Keeps-refl : (s : Value) → Keeps s s
Keeps-refl s = (λ k e. e, refl)

Keeps-if :
    (b : Bool) (s : Value) (m : Outcome Value)
    → Returns m (Keeps s)
    → Returns (if b then m else returned s) (Keeps s)
Keeps-if true s m h = h
Keeps-if false s m h = Keeps-refl s

Keeps-then :
    {A : Type 0} (m : Outcome A) (f : A → Outcome Value) (s : Value)
    → ((a : A) → Returns (f a) (Keeps s))
    → Returns (and_then m f) (Keeps s)
Keeps-then m f s h = Returns-and_then m f (λ a. Unit) (Keeps s) (any_value m) (λ a u. h a)

pub soften-Keeps : (focus : Bool) (s : Value) → Returns (soften focus s) (Keeps s)
unfolding soften str_eq contains
soften-Keeps focus s = Keeps-if focus s _ (
    Keeps-then (item (codes "label") s) _ s (λ l. Keeps-then (lower_of l) _ s (λ t.
      Keeps-if (contains (codes "critical") t) s _
        (set_item-Keeps (codes "label") (text (codes "possible issue")) s refl))))

pub truncate-Keeps : (c : Settings) (s : Value) → Returns (truncate_if_needed c s) (Keeps s)
unfolding truncate_if_needed str_eq
truncate-Keeps c s =
    let limit = c.max_code_suggestion_length in
    Keeps-if (ltb_ℤ (pos 0) limit) s _ (
      Keeps-then (item (codes "improved_code") s) _ s (λ v. Keeps-then (len_of v) _ s (λ n.
        Keeps-if (ltb_ℤ limit (pos n)) s _ (
          Keeps-then (cut (pos_part limit) (b'\n' ∷ c.suggestion_truncation_message) v) _ s
            (λ w. set_item-Keeps (codes "improved_code") w s refl)))))

keys_parts :
    (k : Str) (ks : List Str) (s : Value)
    → has_keys (k ∷ ks) s ≡ returned true
    → (is_in k s ≡ returned true) × (has_keys ks s ≡ returned true)
unfolding has_keys
keys_parts k ks s h = ground (arith, h)

pub has_keys-Keeps :
    (ks : List Str) (s t : Value)
    → Keeps s t
    → has_keys ks s ≡ returned true
    → has_keys ks t ≡ returned true
unfolding has_keys
has_keys-Keeps [] s t k h = refl
has_keys-Keeps (j ∷ ks) s t k h =
    let (e, es) = keys_parts j ks s h in rw (k.0 j e) (has_keys-Keeps ks s t k es)

pub lookup-set_field_same :
    (k : Str) (w : Value) (d : Fields) → lookup_field k (set_field k w d) ≡ some w
lookup-set_field_same k w d = lookup-set_field k k w d ∙ rw (str_eq_refl k)

pub set_item-item : (k : Str) (w s : Value) → Returns (set_item k w s) (λ t. item k t ≡ returned w)
set_item-item k w (object d) =
    ap (λ (o : Option Value). elim o [ none ↦ raised key_error | some v ↦ returned v ])
      (lookup-set_field_same k w d)
set_item-item k w null = tt
set_item-item k w (boolean b) = tt
set_item-item k w (number n) = tt
set_item-item k w (text t) = tt
set_item-item k w (array vs) = tt

pub set_item-Succeeds :
    (k : Str) (v w s : Value) → item k s ≡ returned v → Succeeds (set_item k w s)
set_item-Succeeds k v w (object d) h = (object (set_field k w d), refl)
set_item-Succeeds k v w null h = ground (arith, h)
set_item-Succeeds k v w (boolean b) h = ground (arith, h)
set_item-Succeeds k v w (number n) h = ground (arith, h)
set_item-Succeeds k v w (text t) h = ground (arith, h)
set_item-Succeeds k v w (array vs) h = ground (arith, h)
