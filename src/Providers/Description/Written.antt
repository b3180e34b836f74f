-- ===== src/Providers/Description/Written.antt =====
-- The user's description comes back from a description that the program wrote.
use pr_insight.Base.{
  sym, ℕ, suc, ◌+◌, ◌-◌, true, false, some, List, [], ◌∷◌, ◌++◌, ◌==◌, ltb, ◌≡◌, refl, ◌∙◌, arith,
  ap, All, length, length-append, take, drop, append_assoc,
}
use pr_insight.Base.Text.{
  Str, lstrip, lstrip_by, strip_by, codes, starts_with, contains, find, lower, lower_code, strip,
  rstrip, is_space,
}
use pr_insight.Base.Text.Strip.{rstrip-stop}
use pr_insight.Providers.Description.{
  user_description_header, is_generated_by_pr_insight, user_description_of,
  original_user_description, write_sections, extracted,
}
use pr_insight.Providers.Description.Cut.{take-past, without_line-cut}
use pr_insight.Providers.Description.NextHeader.{
  in_front, other_headers, type_header, next_header_lem,
}

-- a description with the user's part, and a rest behind the header of the type
abbrev described : Str → Str → Str
described u t =
    codes "### **User description**"
    ++ 10 ∷ (u ++ 10 ∷ (codes "\n\n___\n\n" ++ (codes "### **PR Type**" ++ t)))

type_part :
    (v : Str) (rest : List (Str × Str))
    → (t : Str) × (write_sections ((codes "PR Type", v) ∷ rest) ≡ codes "### **PR Type**" ++ t)
unfolding write_sections
type_part v [] = (codes "\n" ++ (v ++ codes "\n"), refl)
type_part v (e ∷ rest) =
    (codes "\n" ++ ((v ++ codes "\n") ++ (codes "\n\n___\n\n" ++ write_sections (e ∷ rest))), refl)

written :
    (u v : Str) (rest : List (Str × Str))
    → (t : Str) × (write_sections ((codes "User description", u) ∷ (codes "PR Type", v) ∷ rest)
        ≡ described u t)
unfolding write_sections
written u v rest =
    let (t, e) = type_part v rest in
    (
      t,
      ap
            (λ (w : Str).
              codes "### **User description**"
              ++ 10 ∷ ((u ++ codes "\n") ++ (codes "\n\n___\n\n" ++ w)))
            e
          ∙ ap (λ (w : Str). codes "### **User description**" ++ 10 ∷ w)
              (append_assoc u (codes "\n") (codes "\n\n___\n\n" ++ (codes "### **PR Type**" ++ t))),
    )

lower-append : (x y : Str) → lower (x ++ y) ≡ lower x ++ lower y
lower-append [] y = refl
lower-append (c ∷ x) y = ap (◌∷◌ (lower_code c)) (lower-append x y)

lower-described : (u t : Str) → lower (described u t) ≡ in_front (lower u) (type_header ++ lower t)
unfolding lower_code
lower-described u t =
    ap (λ (w : Str). codes "### **user description**" ++ 10 ∷ w)
      (lower-append u (10 ∷ (codes "\n\n___\n\n" ++ (codes "### **PR Type**" ++ t))))

length-lower : (u : Str) → length (lower u) ≡ length u
length-lower [] = refl
length-lower (c ∷ u) = ap suc (length-lower u)

length-described : (u t : Str) → length (described u t) ≡ length u + 48 + length t
length-described u t =
    omega (arith, length-append u (10 ∷ (codes "\n\n___\n\n" ++ (codes "### **PR Type**" ++ t))))

generated : (u y : Str) → is_generated_by_pr_insight (in_front u y) ≡ true
unfolding is_generated_by_pr_insight
generated u y = refl

has_header : (u y : Str) → contains user_description_header (in_front u y) ≡ true
unfolding contains starts_with
has_header u y = refl

header_first : (u y : Str) → find user_description_header (in_front u y) ≡ some 0
unfolding find starts_with
header_first u y = refl

-- what is cut between the header and the next one
cut :
    (u t : Str) → take (length u + 9) (drop 24 (described u t)) ≡ 10 ∷ (u ++ codes "\n\n\n___\n\n")
cut u t =
    let n : length u + 9 ≡ suc (length u + 8) = omega arith in
    ap (λ k. take k (drop 24 (described u t))) n
    ∙ ap (◌∷◌ 10) (take-past u (10 ∷ (codes "\n\n___\n\n" ++ (codes "### **PR Type**" ++ t))) 8)

end_differs : (u t : Str) → (length u + 33 == length (described u t)) ≡ false
end_differs u t = ground (arith, length-described u t)

start_before : (n : ℕ) → ltb 24 (n + 33) ≡ true
start_before n = ground arith

extracted-described :
    (c : ℕ) (s t : Str)
    → is_space c ≡ false
    → rstrip (c ∷ s) ≡ c ∷ s
    → extracted (described (c ∷ s) t) 24 (length (c ∷ s) + 33) ≡ c ∷ s
extracted-described c s t first last =
    let size : length (c ∷ s) + 33 - 24 ≡ length (c ∷ s) + 9 = omega arith in
    rw (end_differs (c ∷ s) t, start_before (length (c ∷ s)), size, cut (c ∷ s) t)
      (without_line-cut c s first last)

original-described :
    (c : ℕ) (s t : Str)
    → is_space c ≡ false
    → rstrip (c ∷ s) ≡ c ∷ s
    → contains type_header (lower (c ∷ s)) ≡ false
    → All (λ h. contains h (lower (c ∷ s)) ≡ false) other_headers
    → original_user_description
        (described (c ∷ s) t)
        (in_front (lower (c ∷ s)) (type_header ++ lower t))
      ≡ c ∷ s
original-described c s t first last no_type no_other =
    let u = c ∷ s in
    let y = type_header ++ lower t in
    let end =
      next_header_lem (lower u) (lower t) (length (described u t)) no_type no_other
        (omega (arith, length-described u t, length-lower u))
      ∙ ap (λ n. n + 33) (length-lower u) in
    rw (has_header (lower u) y, header_first (lower u) y, end)
      (extracted-described c s t first last)

generated_original :
    (full description lowered : Str)
    → strip full ≡ description
    → lower description ≡ lowered
    → is_generated_by_pr_insight lowered ≡ true
    → user_description_of full ≡ original_user_description description lowered
unfolding user_description_of
generated_original full description lowered e f g = rw (e, f, g)

star_stays : is_space b'*' ≡ false
unfolding is_space
star_stays = refl

lstrip-described : (u t : Str) → lstrip (described u t) ≡ described u t
unfolding lstrip_by is_space
lstrip-described u t = refl

-- what stands between the user's description and the last star of the next header
abbrev middle : Str
middle = 10 ∷ (codes "\n\n___\n\n" ++ codes "### **PR Type*")

rstrip-described : (u t : Str) → rstrip (described u t) ≡ described u (rstrip t)
rstrip-described u t =
    let before : Str = codes "### **User description**" ++ 10 ∷ (u ++ middle) in
    let again = λ (r : Str).
      ap (λ (w : Str). codes "### **User description**" ++ 10 ∷ w)
        (append_assoc u middle (b'*' ∷ r)) in
    ap rstrip (sym (again t)) ∙ (rstrip-stop b'*' before t star_stays ∙ again (rstrip t))

strip-described : (u t : Str) → strip (described u t) ≡ described u (rstrip t)
unfolding strip_by
strip-described u t = ap rstrip (lstrip-described u t) ∙ rstrip-described u t

written_more :
    (u v : Str) (rest : List (Str × Str)) (more : Str)
    → (t : Str) × (strip
          (write_sections ((codes "User description", u) ∷ (codes "PR Type", v) ∷ rest) ++ more)
        ≡ described u t)
written_more u v rest more =
    let (t, w) = written u v rest in
    (
      rstrip (t ++ more),
      ap (λ z. strip (z ++ more)) w
          ∙ (ap (λ (z : Str). strip (codes "### **User description**" ++ 10 ∷ z))
                (append_assoc u (10 ∷ (codes "\n\n___\n\n" ++ (codes "### **PR Type**" ++ t))) more)
              ∙ strip-described u (t ++ more)),
    )

-- What `_prepare_pr_answer` writes, with the user's description in front and the type of the pull
-- request next, gives the user's description back when it is read again, whatever is appended to it:
-- if the user's description is not empty, begins and ends with no space, and contains, in whichever
-- case, none of the headers that end it.
pub user_description_of-written :
    (c : ℕ) (s v : Str) (rest : List (Str × Str)) (more : Str)
    → is_space c ≡ false
    → rstrip (c ∷ s) ≡ c ∷ s
    → contains type_header (lower (c ∷ s)) ≡ false
    → All (λ h. contains h (lower (c ∷ s)) ≡ false) other_headers
    → user_description_of
        (write_sections ((codes "User description", c ∷ s) ∷ (codes "PR Type", v) ∷ rest) ++ more)
      ≡ c ∷ s
user_description_of-written c s v rest more first last no_type no_other =
    let full =
      write_sections ((codes "User description", c ∷ s) ∷ (codes "PR Type", v) ∷ rest) ++ more in
    let (t, w) = written_more (c ∷ s) v rest more in
    generated_original full (described (c ∷ s) t)
      (in_front (lower (c ∷ s)) (type_header ++ lower t)) w (lower-described (c ∷ s) t)
      (generated (lower (c ∷ s)) (type_header ++ lower t))
    ∙ original-described c s t first last no_type no_other
