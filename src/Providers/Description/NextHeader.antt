-- ===== src/Providers/Description/NextHeader.antt =====
-- Where the part of the user ends in a description that the program wrote.
use pr_insight.Base.{
  ℕ, ◌+◌, ◌≤◌, min, true, false, Option, none, some, List, [], ◌∷◌, ◌++◌, ◌≡◌, refl, sym, subst,
  ◌∙◌, arith, ap, All, length, drop, if_either,
}
use pr_insight.Base.Text.{Str, codes, starts_with, contains, find, str_eq}
use pr_insight.Providers.Description.{
  user_description_header, possible_headers, next_header, nearer, earlier,
}
use pr_insight.Providers.Description.Find.{OneLine, shift, find_past_line}

-- a header that stands in none of the lines which the program writes in front of the next section
abbrev Apart : Str → Type 0
Apart h =
    (starts_with h [] ≡ false)
    × OneLine h
    × (contains h user_description_header ≡ false)
    × (contains h (codes "___") ≡ false)

-- the user's section and the lines behind it, in lower case
abbrev pub in_front : Str → Str → Str
in_front u y = user_description_header ++ 10 ∷ (u ++ 10 ∷ (codes "\n\n___\n\n" ++ y))

abbrev place : ℕ → Option ℕ → Option ℕ
place n none = none
place n (some k) = some (n + 33 + k)

place_shifts :
    (n : ℕ) (o : Option ℕ)
    → shift 24 (shift n (shift 0 (shift 0 (shift 3 (shift 0 o))))) ≡ place n o
place_shifts n none = refl
place_shifts n (some k) = ground arith

-- where such a header is found
find-place :
    (h u y : Str)
    → Apart h
    → contains h u ≡ false
    → find h (in_front u y) ≡ place (length u) (find h y)
unfolding starts_with contains
find-place h u y (n, l, t, d) e =
    let newlines =
      find_past_line h [] (10 ∷ (codes "___" ++ 10 ∷ (10 ∷ y))) n l n
      ∙ ap (shift 0) (
          find_past_line h [] (codes "___" ++ 10 ∷ (10 ∷ y)) n l n
          ∙ ap (shift 0) (
              find_past_line h (codes "___") (10 ∷ y) n l d
              ∙ ap (shift 3) (find_past_line h [] y n l n))) in
    find_past_line h user_description_header (u ++ 10 ∷ (codes "\n\n___\n\n" ++ y)) n l t
    ∙ (ap (shift 24)
          (find_past_line h u (codes "\n\n___\n\n" ++ y) n l e ∙ ap (shift (length u)) newlines)
        ∙ place_shifts (length u) (find h y))

abbrev AtLeast : ℕ → Option ℕ → Type 0
AtLeast b none = Unit
AtLeast b (some i) = b ≤ i

place-AtLeast : (n : ℕ) (o : Option ℕ) → AtLeast (n + 33) (place n o)
place-AtLeast n none = tt
place-AtLeast n (some k) = omega arith

earlier_bounds :
    (b e : ℕ) (o : Option ℕ) → b ≤ e → AtLeast b o → (b ≤ earlier e o) × (earlier e o ≤ e)
earlier_bounds b e none k a = (k, omega arith)
earlier_bounds b e (some i) k a = omega arith

nearer_bounds :
    (lowered : Str) (b e : ℕ) (h : Str)
    → b ≤ e
    → AtLeast b (find h lowered)
    → (b ≤ nearer lowered e h) × (nearer lowered e h ≤ e)
nearer_bounds lowered b e h k a =
    if_either (λ n. (b ≤ n) × (n ≤ e)) (str_eq h user_description_header) e
      (earlier e (find h lowered)) (k, omega arith) (earlier_bounds b e (find h lowered) k a)

next_header_bounds :
    (lowered : Str) (b e : ℕ) (headers : List Str)
    → b ≤ e
    → All (λ h. AtLeast b (find h lowered)) headers
    → (b ≤ next_header lowered headers e) × (next_header lowered headers e ≤ e)
unfolding next_header
next_header_bounds lowered b e [] k a = (k, omega arith)
next_header_bounds lowered b e (h ∷ headers) k a =
    let (low, high) = nearer_bounds lowered b e h k a.0 in
    let (l, g) = next_header_bounds lowered b (nearer lowered e h) headers low a.1 in
    (l, omega (arith, g, high))

-- the headers that end the user's part, but for that of the type
abbrev pub other_headers : List Str
other_headers = drop 2 possible_headers

abbrev pub type_header : Str
type_header = codes "### **pr type**"

others-Apart : All Apart other_headers
unfolding starts_with contains
others-Apart = (
  (refl, refl, refl, refl),
  (
    (refl, refl, refl, refl),
    (
      (refl, refl, refl, refl),
      ((refl, refl, refl, refl), ((refl, refl, refl, refl), ((refl, refl, refl, refl), tt))),
    ),
  ),
)

type-Apart : Apart type_header
unfolding starts_with contains
type-Apart = (refl, refl, refl, refl)

behind :
    (headers : List Str) (u y : Str)
    → All Apart headers
    → All (λ h. contains h u ≡ false) headers
    → All (λ h. AtLeast (length u + 33) (find h (in_front u y))) headers
behind [] u y a e = tt
behind (h ∷ headers) u y a e = (
  subst (AtLeast (length u + 33)) (sym (find-place h u y a.0 e.0))
      (place-AtLeast (length u) (find h y)),
  behind headers u y a.1 e.1,
)

find_type : (y : Str) → find type_header (type_header ++ y) ≡ some 0
unfolding find starts_with
find_type y = refl

-- the second header ends the text, if none of the others stands before it
second_header :
    (lowered h0 h1 : Str) (headers : List Str) (b e : ℕ)
    → str_eq h0 user_description_header ≡ true
    → str_eq h1 user_description_header ≡ false
    → find h1 lowered ≡ some b
    → b ≤ e
    → All (λ h. AtLeast b (find h lowered)) headers
    → next_header lowered (h0 ∷ h1 ∷ headers) e ≡ b
unfolding next_header
second_header lowered h0 h1 headers b e user other found k a =
    let (l, g) = next_header_bounds lowered b (min e b) headers (omega arith) a in
    rw (user, other, found) (omega (arith, l, g))

user_itself : str_eq user_description_header user_description_header ≡ true
unfolding str_eq
user_itself = refl

type_differs : str_eq type_header user_description_header ≡ false
unfolding str_eq
type_differs = refl

-- the end of the user's part
pub next_header_lem :
    (u y : Str) (e : ℕ)
    → contains type_header u ≡ false
    → All (λ h. contains h u ≡ false) other_headers
    → length u + 33 ≤ e
    → next_header (in_front u (type_header ++ y)) possible_headers e ≡ length u + 33
next_header_lem u y e t a k =
    second_header (in_front u (type_header ++ y)) user_description_header type_header other_headers
      (length u + 33) e user_itself type_differs
      (find-place type_header u (type_header ++ y) type-Apart t
        ∙ (ap (place (length u)) (find_type y) ∙ ap some (omega arith)))
      k (behind other_headers u (type_header ++ y) others-Apart a)
