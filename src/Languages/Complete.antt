-- ===== src/Languages/Complete.antt =====
-- No valid file is lost by the order.
use pr_insight.Base.{
  ℕ, Bool, true, false, ◌||◌, List, [], ◌∷◌, ◌++◌, ◌≡◌, ◌⊎◌, refl, arith, any-append, if◌then◌else◌,
  if_either, if_cases, In, In-append_left, In-append_right, inl, inr, Bool-cases, sym, ap, ◌∙◌,
}
use pr_insight.Base.Text.{Str, elem, str_eq}
use pr_insight.Base.Dict.{Dict}
use pr_insight.Patch.Types.{FilePatchInfo}
use pr_insight.Processing.Files.{LanguageGroup}
use pr_insight.Languages.{
  LanguageSettings, filter_bad_extensions, flat, extension_of, Parts, add_rest, each_file,
  add_group, each_language, main_extensions, sort_files_by_main_languages,
}

-- the file stands in one of the groups
abbrev pub Placed : FilePatchInfo → List LanguageGroup → Type 0
Placed f [] = ⊥
Placed f (g ∷ groups) = In f g.files ⊎ Placed f groups

Placed-add_group_left :
    (f : FilePatchInfo) (language : Str) (fs : List FilePatchInfo) (groups : List LanguageGroup)
    → In f fs
    → Placed f (add_group language fs groups)
Placed-add_group_left f language [] groups h = elim h [ ]
Placed-add_group_left f language (x ∷ fs) groups h = inl h

pub Placed-add_group_right :
    (f : FilePatchInfo) (language : Str) (fs : List FilePatchInfo) (groups : List LanguageGroup)
    → Placed f groups
    → Placed f (add_group language fs groups)
Placed-add_group_right f language [] groups h = h
Placed-add_group_right f language (x ∷ fs) groups h = inr h

pub clash : (b : Bool) → b ≡ true → b ≡ false → ⊥
clash b h k = ground arith

pub elem-append : (x : Str) (xs ys : List Str) → elem x (xs ++ ys) ≡ (elem x xs || elem x ys)
unfolding elem
elem-append x xs ys = any-append (str_eq x) xs ys

tmp_grows :
    (exts all_exts : List Str) (files : List FilePatchInfo) (p : Parts) (f : FilePatchInfo)
    → In f p.tmp
    → In f (each_file exts all_exts files p).tmp
unfolding each_file
tmp_grows exts all_exts [] p f h = h
tmp_grows exts all_exts (file ∷ files) p f h =
    let p1 = record p { tmp = p.tmp ++ file ∷ [] } in
    let p2 = record p { rest_files = add_rest all_exts file p.rest_files } in
    if_either (λ q. In f (each_file exts all_exts files q).tmp) (elem (extension_of file) exts) p1
      p2 (tmp_grows exts all_exts files p1 f (In-append_left f p.tmp (file ∷ []) h))
      (tmp_grows exts all_exts files p2 f h)

-- A file whose extension is one of the language's is among its files.
tmp_has :
    (exts all_exts : List Str) (files : List FilePatchInfo) (p : Parts) (f : FilePatchInfo)
    → In f files
    → elem (extension_of f) exts ≡ true
    → In f (each_file exts all_exts files p).tmp
unfolding each_file
tmp_has exts all_exts [] p f h t = elim h [ ]
tmp_has exts all_exts (file ∷ files) p f (inl q) t =
    let p1 = record p { tmp = p.tmp ++ file ∷ [] } in
    let p2 = record p { rest_files = add_rest all_exts file p.rest_files } in
    let e = ap (λ x. elem (extension_of x) exts) (sym q) ∙ t in
    if_cases (λ r. In f (each_file exts all_exts files r).tmp) (elem (extension_of file) exts) p1 p2
      (λ k. tmp_grows exts all_exts files p1 f (In-append_right f p.tmp (file ∷ []) (inl q)))
      (λ k. elim (clash (elem (extension_of file) exts) e k) [ ])
tmp_has exts all_exts (file ∷ files) p f (inr h) t =
    tmp_has exts all_exts files
      (if elem (extension_of file) exts
        then record p { tmp = p.tmp ++ file ∷ [] }
        else record p { rest_files = add_rest all_exts file p.rest_files })
      f h t

-- A file with an extension of one of the languages is in the group of a language.
main_Placed :
    (all_exts : List Str) (files : List FilePatchInfo) (ls : List (Str × List Str))
    (rest : Dict FilePatchInfo) (f : FilePatchInfo)
    → In f files
    → elem (extension_of f) (flat ls) ≡ true
    → Placed f (each_language all_exts files ls rest)
unfolding each_language elem
main_Placed all_exts files [] rest f h t = elim (clash (elem (extension_of f) []) t refl) [ ]
main_Placed all_exts files ((language, exts) ∷ ls) rest f h t =
    let p = each_file exts all_exts files (record { tmp = []; rest_files = rest }) in
    let later = each_language all_exts files ls p.rest_files in
    elim (Bool-cases (elem (extension_of f) exts)) [
      | inl e ↦
          Placed-add_group_left f language p.tmp later
            (tmp_has exts all_exts files (record { tmp = []; rest_files = rest }) f h e)
      | inr e ↦ Placed-add_group_right f language p.tmp later (
          main_Placed all_exts files ls p.rest_files f h
            (ground (arith, t, e, elem-append (extension_of f) exts (flat ls))))
    ]

-- With languages, a file that is not filtered out and whose extension is one of a language's is in
-- a group of the result.
pub sort_files_by_main_languages-Placed :
    (s : LanguageSettings) (l : Str × ℕ) (languages : Dict ℕ) (files : List FilePatchInfo)
    (f : FilePatchInfo)
    → In f (filter_bad_extensions s files)
    → elem (extension_of f) (flat (main_extensions s (l ∷ languages))) ≡ true
    → Placed f (sort_files_by_main_languages s (l ∷ languages) files)
unfolding sort_files_by_main_languages
sort_files_by_main_languages-Placed s l languages files f h t =
    main_Placed (flat (main_extensions s (l ∷ languages))) (filter_bad_extensions s files)
      (main_extensions s (l ∷ languages)) [] f h t
