-- ===== src/Base/Json.antt =====
-- The values that `json` and `yaml` read, and what Python does with them. Numbers are integers. An
-- object has each key once.
use mathlib.Core.Bool.{Bool, true, false, ◌&&◌}
use mathlib.Core.List.{List, [], ◌∷◌}
use mathlib.Core.Option.{Option, none, some}
use Prim.Native.Nat.{ℕ, zero, suc}
use pr_insight.Base.Tests.{if◌then◌else◌, ◌==◌}
use pr_insight.Base.Int.{ℤ, pos, negsuc}
use pr_insight.Base.Text.{Str, str_eq, contains}
use pr_insight.Base.Fail.{
  Outcome, returned, raised, and_then, attribute_error, key_error, type_error,
}

mutual
  pub data Value : Type 0 where
    null : Value
    boolean : Bool → Value
    number : ℤ → Value
    text : Str → Value
    array : Items → Value
    object : Fields → Value

  pub data Items : Type 0 where
    nil : Items
    cons : Value → Items → Items

  pub data Fields : Type 0 where
    end : Fields
    field : Str → Value → Fields → Fields

-- `d.get(k)` of a dict
unfoldable pub lookup_field : Str → Fields → Option Value
unfolding str_eq
lookup_field k end = none
lookup_field k (field j v d) = if str_eq k j then some v else lookup_field k d

abbrev pub has_field : Str → Fields → Bool
has_field k d = elim (lookup_field k d) [ none ↦ false | some _ ↦ true ]

-- `d[k] = v` of a dict
unfoldable pub set_field : Str → Value → Fields → Fields
set_field k v end = field k v end
set_field k v (field j w d) =
    let rest = set_field k v d in if str_eq k j then field j v d else field j w rest

unfoldable pub count_fields : Fields → ℕ
count_fields end = 0
count_fields (field k v d) = suc (count_fields d)

-- `bool(v)`
unfoldable pub truthy : Value → Bool
truthy null = false
truthy (boolean b) = b
truthy (number (pos zero)) = false
truthy (number _) = true
truthy (text []) = false
truthy (text (c ∷ s)) = true
truthy (array nil) = false
truthy (array (cons _ _)) = true
truthy (object end) = false
truthy (object (field _ _ _)) = true

-- `v == "…"`
unfoldable pub is_text : Str → Value → Bool
unfolding str_eq
is_text s (text t) = str_eq s t
is_text s _ = false

abbrev same_ℤ : ℤ → ℤ → Bool
same_ℤ (pos a) (pos b) = a == b
same_ℤ (negsuc a) (negsuc b) = a == b
same_ℤ _ _ = false

-- a truth value as the number that it equals
abbrev pub bit : Bool → ℤ
bit true = pos 1
bit false = pos 0

-- `v == w`; the order of the keys of an object does not matter
unfoldable mutual
  unfolding str_eq lookup_field count_fields

  pub same : Value → Value → Bool
  same null null = true
  same (boolean a) (boolean b) = same_ℤ (bit a) (bit b)
  same (boolean a) (number n) = same_ℤ (bit a) n
  same (number m) (boolean b) = same_ℤ m (bit b)
  same (number m) (number n) = same_ℤ m n
  same (text a) (text b) = str_eq a b
  same (array a) (array b) = same_items a b
  same (object a) (object b) = count_fields a == count_fields b && same_fields a b
  same _ _ = false

  pub same_items : Items → Items → Bool
  same_items nil nil = true
  same_items (cons v a) (cons w b) = same v w && same_items a b
  same_items _ _ = false

  pub same_fields : Fields → Fields → Bool
  same_fields end b = true
  same_fields (field k v a) b =
      elim (lookup_field k b) [ none ↦ false | some w ↦ same v w ] && same_fields a b

-- `v.get(k)`, where `none` is Python's `None` of a missing key
abbrev pub get_field : Str → Value → Outcome (Option Value)
get_field k (object d) = returned (lookup_field k d)
get_field k _ = raised attribute_error

abbrev pub or_else : Value → Option Value → Value
or_else v none = v
or_else v (some w) = w

-- `v.get(k, default)`
abbrev pub get_default : Str → Value → Value → Outcome Value
get_default k default v = and_then (get_field k v) (λ o. returned (or_else default o))

-- `v.get(k)`
abbrev pub get : Str → Value → Outcome Value
get k v = get_default k null v

abbrev there : Option Value → Outcome Value
there none = raised key_error
there (some v) = returned v

-- `v["…"]`
abbrev pub item : Str → Value → Outcome Value
item k (object d) = there (lookup_field k d)
item k _ = raised type_error

-- `v["…"] = w`
abbrev pub set_item : Str → Value → Value → Outcome Value
set_item k w (object d) = returned (object (set_field k w d))
set_item k w _ = raised type_error

unfoldable pub in_items : Str → Items → Bool
unfolding is_text
in_items k nil = false
in_items k (cons v vs) = if is_text k v then true else in_items k vs

-- `"…" in v`
unfoldable pub is_in : Str → Value → Outcome Bool
unfolding lookup_field in_items contains
is_in k (object d) = returned (has_field k d)
is_in k (text s) = returned (contains k s)
is_in k (array vs) = returned (in_items k vs)
is_in k _ = raised type_error

-- the items of a list
abbrev pub items_of : Items → List Value
items_of nil = []
items_of (cons v vs) = v ∷ items_of vs
