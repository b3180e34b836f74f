-- ===== src/Processing/Diff/Shown.antt =====
-- What the pruned diff shows besides its patches.
use pr_insight.Base.{
  ap, sym, Bool, true, false, not, ◌&&◌, List, [], ◌∷◌, ◌++◌, ◌≡◌, refl, arith, append-nil,
  append_assoc, ◌∙◌, if◌then◌else◌, if_cases,
}
use pr_insight.Base.Int.{ℤ, pos, ◌-ℤ◌, ltb_ℤ}
use pr_insight.Base.Text.{Str, codes, elem}
use pr_insight.Base.Dict.{Dict}
use pr_insight.Patch.Types.{EditType, added, deleted, modified, renamed}
use pr_insight.Processing.Full.{Entry, is_text}
use pr_insight.Processing.Diff.{
  Env, Draft, NameLists, no_names, append_name, added_files, more_modified_files, deleted_files,
  name_file, name_files, append_list, with_lists, clip,
}

abbrev pub is_added : EditType → Bool
is_added added = true
is_added _ = false

abbrev pub is_changed : EditType → Bool
is_changed modified = true
is_changed renamed = true
is_changed _ = false

abbrev pub is_deleted : EditType → Bool
is_deleted deleted = true
is_deleted _ = false

-- The names of the files of a kind that are not in the patch, in the order of the dict.
abbrev pub missing : (EditType → Bool) → List Str → Dict Entry → List Str
missing kind in_patch [] = []
missing kind in_patch ((name, e) ∷ files) =
    let rest = missing kind in_patch files in
    if not (elem name in_patch) && kind e.edit_type then name ∷ rest else rest

-- A title and the names below it, one to a line.
abbrev pub listing : Str → Str → List Str → Str
listing title text [] = text
listing title text (name ∷ names) = listing title (append_name title text name) names

name_files_from :
    (in_patch : List Str) (files : Dict Entry) (s : NameLists)
    → name_files in_patch s files ≡ record {
      added_list_str = listing added_files s.added_list_str (missing is_added in_patch files);
      modified_list_str =
          listing more_modified_files s.modified_list_str (missing is_changed in_patch files);
      deleted_list_str =
          listing deleted_files s.deleted_list_str (missing is_deleted in_patch files);
    }
unfolding name_files
name_files_from in_patch [] s = refl
name_files_from in_patch ((name, e) ∷ files) s =
    name_files_from in_patch files (if elem name in_patch then s else name_file s name e.edit_type)
    ∙ ground arith

-- The three lists name exactly the added, the modified or renamed, and the deleted files that are
-- not in the patch, each below its title and in the order of the files.
pub name_files_lem :
    (in_patch : List Str) (files : Dict Entry)
    → name_files in_patch no_names files ≡ record {
      added_list_str = listing added_files [] (missing is_added in_patch files);
      modified_list_str = listing more_modified_files [] (missing is_changed in_patch files);
      deleted_list_str = listing deleted_files [] (missing is_deleted in_patch files);
    }
name_files_lem in_patch files = name_files_from in_patch files no_names

abbrev Extends : Str → Draft → Type 0
Extends text d = (rest : Str) × (d.final_diff ≡ text ++ rest)

append_list-Extends :
    (v : Env) (n : ℤ) (d : Draft) (list text : Str)
    → Extends text d
    → Extends text (append_list v n d list)
unfolding append_list
append_list-Extends v n d list text (rest, e) =
    if_cases (Extends text) (is_text (clip v list (n -ℤ d.curr_token))) _ d
      (λ shown. (
        rest ++ (codes "\n\n" ++ clip v list (n -ℤ d.curr_token)),
        ap (λ t. t ++ (codes "\n\n" ++ clip v list (n -ℤ d.curr_token))) e
            ∙ append_assoc text rest _,
      ))
      (λ hidden. (rest, e))

-- Whatever the budget, the pruned diff begins with its patches, unchanged: the lists stand behind.
pub with_lists_prefix :
    (v : Env) (n : ℤ) (d : Draft) (files : Dict Entry) (in_patch : List Str)
    → (rest : Str) × (with_lists v n d files in_patch ≡ d.final_diff ++ rest)
unfolding with_lists
with_lists_prefix v n d files in_patch =
    let names =
      if ltb_ℤ (pos 10) (n -ℤ d.curr_token) then name_files in_patch no_names files else no_names in
    let d1 = append_list v n d names.added_list_str in
    let d2 = append_list v n d1 names.modified_list_str in
    append_list-Extends v n d2 names.deleted_list_str d.final_diff (
      append_list-Extends v n d1 names.modified_list_str d.final_diff (
        append_list-Extends v n d names.added_list_str d.final_diff
          ([], sym (append-nil d.final_diff))))
