-- ===== src/Languages/Other.antt =====
-- The files of the group "Other", and all files together.
use pr_insight.Base.{
  ℕ, false, not, ◌&&◌, some, List, [], ◌∷◌, ◌++◌, ◌≡◌, refl, arith, leb, if_either, if_cases, In,
  inl, inr, Bool-cases, Option-cases, sym, ap, ◌∙◌, subst,
}
use pr_insight.Base.Text.{lower, Str, elem, str_eq, str_eq_iff, str_eq_refl}
use pr_insight.Base.Dict.{Dict, lookup, insert, has_key, lookup-insert}
use pr_insight.Patch.Types.{FilePatchInfo}
use pr_insight.Processing.Files.{LanguageGroup}
use pr_insight.Languages.{
  place, sort_by_size, with_extensions, or_empty, lower_keys, LanguageSettings,
  filter_bad_extensions, flat, extension_of, Parts, add_rest, each_file, values, each_language,
  main_extensions, sort_files_by_main_languages,
}
use pr_insight.Languages.Complete.{
  Placed, Placed-add_group_right, clash, elem-append, sort_files_by_main_languages-Placed,
}

-- a file of this name stands among the files
abbrev pub Named : Str → Dict FilePatchInfo → Type 0
Named name rest = (g : FilePatchInfo) × (lookup name rest ≡ some g) × (g.filename ≡ name)

insert-Named :
    (name : Str) (file : FilePatchInfo) (rest : Dict FilePatchInfo)
    → Named name rest
    → has_key file.filename rest ≡ false
    → Named name (insert file.filename file rest)
insert-Named name file rest (g, e, q) free = (
  g,
  ground
      (arith, e, free, lookup-insert file.filename name file rest, str_eq_iff name file.filename),
  q,
)

inserted-Named :
    (file : FilePatchInfo) (rest : Dict FilePatchInfo)
    → Named file.filename (insert file.filename file rest)
inserted-Named file rest = (
  file,
  ground (arith, lookup-insert file.filename file.filename file rest, str_eq_refl file.filename),
  refl,
)

add_rest-Named :
    (all_exts : List Str) (file : FilePatchInfo) (rest : Dict FilePatchInfo) (name : Str)
    → Named name rest
    → Named name (add_rest all_exts file rest)
unfolding add_rest
add_rest-Named all_exts file rest name h =
    if_cases (Named name)
      (not (has_key file.filename rest) && not (elem (extension_of file) all_exts))
      (insert file.filename file rest) rest (λ k. insert-Named name file rest h (ground (arith, k)))
      (λ k. h)

each_file-Named :
    (exts all_exts : List Str) (files : List FilePatchInfo) (p : Parts) (name : Str)
    → Named name p.rest_files
    → Named name (each_file exts all_exts files p).rest_files
unfolding each_file
each_file-Named exts all_exts [] p name h = h
each_file-Named exts all_exts (file ∷ files) p name h =
    let p1 = record p { tmp = p.tmp ++ file ∷ [] } in
    let p2 = record p { rest_files = add_rest all_exts file p.rest_files } in
    if_either (λ q. Named name (each_file exts all_exts files q).rest_files)
      (elem (extension_of file) exts) p1 p2 (each_file-Named exts all_exts files p1 name h)
      (each_file-Named exts all_exts files p2 name
        (add_rest-Named all_exts file p.rest_files name h))

-- Each file stands under its own name.
abbrev Keyed : Dict FilePatchInfo → Type 0
Keyed rest = (name : Str) (g : FilePatchInfo) → lookup name rest ≡ some g → g.filename ≡ name

insert-Keyed :
    (file : FilePatchInfo) (rest : Dict FilePatchInfo)
    → Keyed rest
    → Keyed (insert file.filename file rest)
insert-Keyed file rest h name g e = elim (Bool-cases (str_eq name file.filename)) [
  | inl same ↦
      ap (λ x. x.filename)
        (sym
          (some_same file g (ground (arith, same, e, lookup-insert file.filename name file rest))))
      ∙ sym ((str_eq_iff name file.filename).0 same)
  | inr other ↦ h name g (ground (arith, other, e, lookup-insert file.filename name file rest))
]
  where
    some_same : (a b : FilePatchInfo) → some a ≡ some b → a ≡ b
    some_same a b q = cc

add_rest-Keyed :
    (all_exts : List Str) (file : FilePatchInfo) (rest : Dict FilePatchInfo)
    → Keyed rest
    → Keyed (add_rest all_exts file rest)
unfolding add_rest
add_rest-Keyed all_exts file rest h =
    if_either Keyed (not (has_key file.filename rest) && not (elem (extension_of file) all_exts))
      (insert file.filename file rest) rest (insert-Keyed file rest h) h

add_rest_itself :
    (all_exts : List Str) (file : FilePatchInfo) (rest : Dict FilePatchInfo)
    → Keyed rest
    → elem (extension_of file) all_exts ≡ false
    → Named file.filename (add_rest all_exts file rest)
unfolding add_rest
add_rest_itself all_exts file rest h t =
    if_cases (Named file.filename)
      (not (has_key file.filename rest) && not (elem (extension_of file) all_exts))
      (insert file.filename file rest) rest (λ k. inserted-Named file rest)
      (λ k. elim (Option-cases (lookup file.filename rest)) [
        | inl none_there ↦
            elim (clash
              (not (has_key file.filename rest) && not (elem (extension_of file) all_exts))
              (ground (arith, none_there, t)) k) [ ]
        | inr (g, e) ↦ (g, e, h file.filename g e)
      ])

rest_has :
    (exts all_exts : List Str) (files : List FilePatchInfo) (p : Parts) (f : FilePatchInfo)
    → In f files
    → elem (extension_of f) exts ≡ false
    → elem (extension_of f) all_exts ≡ false
    → Keyed p.rest_files
    → Named f.filename (each_file exts all_exts files p).rest_files
unfolding each_file
rest_has exts all_exts [] p f h t a k = elim h [ ]
rest_has exts all_exts (file ∷ files) p f (inl q) t a k =
    let p1 = record p { tmp = p.tmp ++ file ∷ [] } in
    let p2 = record p { rest_files = add_rest all_exts file p.rest_files } in
    let same = λ (xs : List Str). ap (λ x. elem (extension_of x) xs) (sym q) in
    if_cases (λ r. Named f.filename (each_file exts all_exts files r).rest_files)
      (elem (extension_of file) exts) p1 p2
      (λ c. elim (clash (elem (extension_of file) exts) c (same exts ∙ t)) [ ])
      (λ c. each_file-Named exts all_exts files p2 f.filename (
        subst (λ n. Named n (add_rest all_exts file p.rest_files)) (ap (λ x. x.filename) (sym q))
          (add_rest_itself all_exts file p.rest_files k (same all_exts ∙ a))))
rest_has exts all_exts (file ∷ files) p f (inr h) t a k =
    let p1 = record p { tmp = p.tmp ++ file ∷ [] } in
    let p2 = record p { rest_files = add_rest all_exts file p.rest_files } in
    if_either (λ r. Named f.filename (each_file exts all_exts files r).rest_files)
      (elem (extension_of file) exts) p1 p2 (rest_has exts all_exts files p1 f h t a k)
      (rest_has exts all_exts files p2 f h t a (add_rest-Keyed all_exts file p.rest_files k))

values_have :
    (name : Str) (rest : Dict FilePatchInfo) (g : FilePatchInfo)
    → lookup name rest ≡ some g
    → In g (values rest)
unfolding lookup
values_have name [] g e = grind (arith, e)
values_have name ((k, v) ∷ rest) g e = ground (arith, e, values_have name rest g)

-- A file of this name is in one of the groups.
abbrev pub NamePlaced : Str → List LanguageGroup → Type 0
NamePlaced name groups = (g : FilePatchInfo) × (g.filename ≡ name) × Placed g groups

rest_placed :
    (all_exts : List Str) (files : List FilePatchInfo) (ls : List (Str × List Str))
    (rest : Dict FilePatchInfo) (name : Str)
    → Named name rest
    → NamePlaced name (each_language all_exts files ls rest)
unfolding each_language
rest_placed all_exts files [] rest name (g, e, q) = (g, q, inl (values_have name rest g e))
rest_placed all_exts files ((language, exts) ∷ ls) rest name h =
    let p = each_file exts all_exts files (record { tmp = []; rest_files = rest }) in
    let (g, q, there) =
      rest_placed all_exts files ls p.rest_files name
        (each_file-Named exts all_exts files (record { tmp = []; rest_files = rest }) name h) in
    (
      g,
      q,
      Placed-add_group_right g language p.tmp (each_language all_exts files ls p.rest_files) there,
    )

no_files-Keyed : Keyed []
unfolding lookup
no_files-Keyed name g e = grind (arith, e)

first_language :
    (all_exts : List Str) (files : List FilePatchInfo) (language : Str) (exts : List Str)
    (ls : List (Str × List Str)) (f : FilePatchInfo)
    → In f files
    → elem (extension_of f) exts ≡ false
    → elem (extension_of f) all_exts ≡ false
    → NamePlaced f.filename (each_language all_exts files ((language, exts) ∷ ls) [])
unfolding each_language
first_language all_exts files language exts ls f h t a =
    let p = each_file exts all_exts files (record { tmp = []; rest_files = [] }) in
    let (g, q, there) = rest_placed all_exts files ls p.rest_files f.filename (
      rest_has exts all_exts files (record { tmp = []; rest_files = [] }) f h t a no_files-Keyed) in
    (
      g,
      q,
      Placed-add_group_right g language p.tmp (each_language all_exts files ls p.rest_files) there,
    )

abbrev IsCons : {A : Type 0} → List A → Type 0
IsCons {A} xs = (x : A) × (rest : List A) × (xs ≡ x ∷ rest)

place-IsCons : (x : Str × ℕ) (ys : List (Str × ℕ)) → IsCons (place x ys)
unfolding place
place-IsCons x [] = (x, [], refl)
place-IsCons x (y ∷ ys) =
    if_either IsCons (leb y.1 x.1) (x ∷ y ∷ ys) (y ∷ place x ys) (x, y ∷ ys, refl)
      (y, place x ys, refl)

with_extensions-IsCons :
    (table : Dict (List Str)) (ls : List (Str × ℕ)) → IsCons ls → IsCons (with_extensions table ls)
unfolding with_extensions
with_extensions-IsCons table [] (x, rest, e) = grind (arith, e)
with_extensions-IsCons table ((language, n) ∷ ls) h =
    ((language, or_empty (lookup (lower language) table)), with_extensions table ls, refl)

main_extensions-IsCons :
    (s : LanguageSettings) (l : Str × ℕ) (languages : Dict ℕ)
    → IsCons (main_extensions s (l ∷ languages))
unfolding sort_by_size
main_extensions-IsCons s l languages =
    with_extensions-IsCons (lower_keys [] s.language_extension_map_org)
      (place l (sort_by_size languages)) (place-IsCons l (sort_by_size languages))

other_placed :
    (files : List FilePatchInfo) (ls : List (Str × List Str)) (f : FilePatchInfo)
    → IsCons ls
    → In f files
    → elem (extension_of f) (flat ls) ≡ false
    → NamePlaced f.filename (each_language (flat ls) files ls [])
other_placed files [] f (x, rest, e) h a = grind (arith, e)
other_placed files ((language, exts) ∷ ls) f c h a =
    first_language (flat ((language, exts) ∷ ls)) files language exts ls f h
      (ground (arith, a, elem-append (extension_of f) exts (flat ls))) a

-- Whatever the languages are, for every file that is not filtered out a file of its name is in a group
-- of the result: no name is lost, be its extension one of a language's or not.
pub sort_files_by_main_languages-NamePlaced :
    (s : LanguageSettings) (languages : Dict ℕ) (files : List FilePatchInfo) (f : FilePatchInfo)
    → In f (filter_bad_extensions s files)
    → NamePlaced f.filename (sort_files_by_main_languages s languages files)
unfolding sort_files_by_main_languages
sort_files_by_main_languages-NamePlaced s [] files f h = (f, refl, inl h)
sort_files_by_main_languages-NamePlaced s (l ∷ languages) files f h =
    let ms = main_extensions s (l ∷ languages) in
    elim (Bool-cases (elem (extension_of f) (flat ms))) [
      | inl t ↦ (f, refl, sort_files_by_main_languages-Placed s l languages files f h t)
      | inr a ↦
          other_placed (filter_bad_extensions s files) ms f (main_extensions-IsCons s l languages) h
            a
    ]
