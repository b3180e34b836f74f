-- ===== src/Patch/Extend.antt =====
-- `extend_patch`, `process_patch_lines`, `check_if_hunk_lines_matches_to_file` and
-- `should_skip_patch` of git_patch_processing.py. File contents are texts already, so that
-- `decode_if_bytes` gives them back.
pub mod Context
pub mod NewSide
pub mod Sides
use pr_insight.Base.{
  ℕ, zero, suc, Bool, true, false, not, ◌&&◌, ◌||◌, Option, none, some, List, [], ◌∷◌, ◌++◌, map,
  any, length, if◌then◌else◌,
}
use pr_insight.Base.Int.{ℤ, pos, negsuc, ◌+ℤ◌, ◌-ℤ◌, ltb_ℤ, leb_ℤ, eqb_ℤ, max_ℤ}
use pr_insight.Base.Slice.{slice, item_at}
use pr_insight.Base.Text.{
  Str, codes, contains, starts_with, ends_with, strip, splitlines, join, str_eq, decimal_ℤ,
}
use pr_insight.Settings.{PatchSettings}
use pr_insight.Patch.Header.{HunkHeader, Groups, match_header, extract_hunk_headers}

-- `xs == ys` on lists of lines
pub same_lines : List Str → List Str → Bool
same_lines [] [] = true
same_lines (x ∷ xs) (y ∷ ys) = str_eq x y && same_lines xs ys
same_lines _ _ = false

-- `extended_start1, extended_size1, extended_start2, extended_size2`
pub record Limits : Type 0 where
  pub start1 : ℤ
  pub size1 : ℤ
  pub start2 : ℤ
  pub size2 : ℤ

-- What stays the same in `process_patch_lines`.
pub record File : Type 0 where
  pub original_lines : List Str
  pub new_lines : List Str
  pub extra_before : ℤ
  pub extra_after : ℤ
  pub dynamic : Bool
  pub dynamic_before : ℤ

abbrev pub plain : HunkHeader → Limits
plain h = record {
  start1 = pos h.start1;
  size1 = pos h.size1;
  start2 = pos h.start2;
  size2 = pos h.size2;
}

-- the first four assignments of `_calc_context_limits(patch_lines_before)`
pub wanted_limits : ℤ → HunkHeader → ℤ → Limits
wanted_limits after h before =
    let o = plain h in
    let s1 = max_ℤ (pos 1) (o.start1 -ℤ before) in
    let s2 = max_ℤ (pos 1) (o.start2 -ℤ before) in
    record {
      start1 = s1;
      size1 = o.size1 +ℤ (o.start1 -ℤ s1) +ℤ after;
      start2 = s2;
      size2 = o.size2 +ℤ (o.start2 -ℤ s2) +ℤ after;
    }

-- "we cannot extend beyond the original file"
pub cap_limits : ℕ → HunkHeader → Limits → Limits
cap_limits len_original h l =
    let last = l.start1 -ℤ pos 1 +ℤ l.size1 in
    let delta_cap = last -ℤ pos len_original in
    if ltb_ℤ (pos len_original) last
    then record l {
      size1 = max_ℤ (l.size1 -ℤ delta_cap) (pos h.size1);
      size2 = max_ℤ (l.size2 -ℤ delta_cap) (pos h.size2);
    }
    else l

-- `_calc_context_limits(patch_lines_before)`
pub calc_context_limits : ℕ → ℤ → HunkHeader → ℤ → Limits
unfolding wanted_limits cap_limits
calc_context_limits len_original after h before =
    cap_limits len_original h (wanted_limits after h before)

-- `extended_start1 + i, …, extended_size1 - i, …`
abbrev pub skip_lines : ℕ → Limits → Limits
skip_lines i l = record {
  start1 = l.start1 +ℤ pos i;
  size1 = l.size1 -ℤ pos i;
  start2 = l.start2 +ℤ pos i;
  size2 = l.size2 -ℤ pos i;
}

-- the lines `first .. start - 1` of a file
abbrev pub lines_before : List Str → ℤ → ℤ → List Str
lines_before lines first start = slice (first -ℤ pos 1) (start -ℤ pos 1) lines

-- The loop that looks for the section header: the index at which it stands and the lines from there.
pub find_section : Str → ℕ → List Str → Option (ℕ × List Str)
find_section section i [] = none
find_section section i (line ∷ lines) =
    if contains section line then some (i, line ∷ lines) else find_section section (suc i) lines

pub drop_lines : ℕ → List Str → List Str
drop_lines zero lines = lines
drop_lines (suc n) [] = []
drop_lines (suc n) (l ∷ lines) = drop_lines n lines

-- The section header is in the lines before the hunk, and both files agree from there.
pub dynamic_at : File → HunkHeader → Limits → Option (ℕ × List Str) → Limits × Str
unfolding drop_lines same_lines calc_context_limits
dynamic_at f h l none =
    (calc_context_limits (length f.original_lines) f.extra_after h f.extra_before, h.section_header)
dynamic_at f h l (some (i, rest)) =
    if same_lines rest (drop_lines i (lines_before f.new_lines l.start2 (pos h.start2)))
    then (skip_lines i l, [])
    else (
      calc_context_limits (length f.original_lines) f.extra_after h f.extra_before,
      h.section_header,
    )

pub is_nil {ℓ} : {A : Type ℓ} → List A → Bool
is_nil [] = true
is_nil (x ∷ xs) = false

-- The limits before the lines of the two files are compared, with what is left of the header.
pub choose_limits : File → HunkHeader → Limits × Str
unfolding find_section dynamic_at is_nil calc_context_limits
choose_limits f h =
    let l = calc_context_limits (length f.original_lines) f.extra_after h f.dynamic_before in
    if f.dynamic && not (is_nil f.new_lines)
    then dynamic_at f h l
        (find_section h.section_header 0 (lines_before f.original_lines l.start1 (pos h.start1)))
    else (
      calc_context_limits (length f.original_lines) f.extra_after h f.extra_before,
      h.section_header,
    )

abbrev pub indent : List Str → List Str
indent = map (λ line. b' ' ∷ line)

-- `for i in range(len(delta_lines_original))`: the first common end of the two lists
pub mini_match : ℕ → List Str → List Str → Option (ℕ × List Str)
mini_match i [] new = none
mini_match i (x ∷ xs) new =
    if same_lines (x ∷ xs) new then some (i, x ∷ xs) else mini_match (suc i) xs (drop_lines 1 new)

pub after_match : HunkHeader → Limits → Option (ℕ × List Str) → Limits × List Str
after_match h l none = (plain h, [])
after_match h l (some (i, lines)) = (skip_lines i l, lines)

-- "check if extra lines before hunk are different in original and new file"
pub compare_context : File → HunkHeader → Limits → Limits × List Str
unfolding is_nil same_lines mini_match after_match drop_lines
compare_context f h l =
    let old = indent (lines_before f.original_lines l.start1 (pos h.start1)) in
    let new = indent (lines_before f.new_lines l.start2 (pos h.start2)) in
    if not (is_nil f.new_lines) && not (same_lines old new)
    then after_match h l (mini_match 0 old new)
    else (l, old)

abbrev pub header_line : Limits → Str → Str
header_line l section =
    codes "@@ -"
    ++ (decimal_ℤ l.start1
        ++ (b','
            ∷ (decimal_ℤ l.size1
                ++ (codes " +"
                    ++ (decimal_ℤ l.start2
                        ++ (b',' ∷ (decimal_ℤ l.size2 ++ (codes " @@ " ++ section))))))))

-- "logic to remove section header if its in the extra delta lines"
drop_section : File → Str → List Str → Str
unfolding is_nil
drop_section f section lines =
    if not (is_nil section) && not f.dynamic && any (contains section) lines then [] else section

-- the limits, the section header and the extra lines of one hunk
pub hunk_context : File → HunkHeader → Bool → Limits × Str × List Str
unfolding choose_limits compare_context drop_section
hunk_context f h valid =
    if valid && (ltb_ℤ (pos 0) f.extra_before || ltb_ℤ (pos 0) f.extra_after)
    then (let (l, section) = choose_limits f h in
        let (l', lines) = compare_context f h l in (l', drop_section f section lines, lines))
    else (plain h, h.section_header, [])

abbrev starts_with_space : Str → Bool
starts_with_space s = starts_with (codes " ") s

-- `check_if_hunk_lines_matches_to_file`: an index that is out of range raises inside its `try`, and
-- the hunk counts as valid. A match in another encoding changes only what is logged.
pub first_line_matches : List Str → List Str → ℤ → Bool
first_line_matches [] original start1 = true
first_line_matches (next ∷ rest) original start1 =
    if starts_with_space next
    then elim (item_at original (start1 -ℤ pos 1)) [
      | none ↦ true
      | some line ↦ str_eq (strip next) (strip line)
    ]
    else true

-- The variables of the loop.
pub record Loop : Type 0 where
  pub extended_patch_lines : List Str
  pub is_valid_hunk : Bool
  pub start1 : ℤ
  pub size1 : ℤ

-- "finish processing previous hunk" (and the last one): the extra lines behind it
pub finish_hunk : File → Loop → Loop
finish_hunk f s =
    let first = s.start1 +ℤ s.size1 -ℤ pos 1 in
    if s.is_valid_hunk && not (eqb_ℤ s.start1 (negsuc 0)) && ltb_ℤ (pos 0) f.extra_after
    then record s {
      extended_patch_lines =
          s.extended_patch_lines ++ indent (slice first (first +ℤ f.extra_after) f.original_lines);
    }
    else s

at_header : File → Loop → List Str → Str → Option Groups → Loop
unfolding extract_hunk_headers first_line_matches hunk_context finish_hunk decimal_ℤ
at_header f s rest line none = record s {
  extended_patch_lines = s.extended_patch_lines ++ line ∷ [];
}
at_header f s rest line (some g) =
    let h = extract_hunk_headers g in
    let valid = first_line_matches rest f.original_lines (pos h.start1) in
    let (l, section, lines) = hunk_context f h valid in
    record {
      extended_patch_lines =
          (finish_hunk f s).extended_patch_lines ++ ([] ∷ header_line l section ∷ lines);
      is_valid_hunk = valid;
      start1 = pos h.start1;
      size1 = pos h.size1;
    }

pub round : File → Loop → Str → List Str → Loop
unfolding at_header
round f s line rest =
    if starts_with (codes "@@") line
    then at_header f s rest line (match_header line)
    else record s { extended_patch_lines = s.extended_patch_lines ++ line ∷ [] }

pub run : File → Loop → List Str → Loop
run f s [] = s
run f s (line ∷ rest) = run f (round f s line rest) rest

abbrev pub initial : Loop
initial = record {
  extended_patch_lines = [];
  is_valid_hunk = true;
  start1 = negsuc 0;
  size1 = negsuc 0;
}

pub extended_lines : File → List Str → List Str
unfolding run round finish_hunk
extended_lines f lines = (finish_hunk f (run f initial lines)).extended_patch_lines

abbrev pub file_of : PatchSettings → Str → Str → ℤ → ℤ → File
file_of settings original new before after = record {
  original_lines = splitlines original;
  new_lines = splitlines new;
  extra_before = before;
  extra_after = after;
  dynamic = settings.allow_dynamic_context;
  dynamic_before = settings.max_extra_lines_before_dynamic_context;
}

-- `process_patch_lines`. Nothing in its `try` raises: the matches are tested and slices do not fail.
unfoldable pub process_patch_lines : PatchSettings → Str → Str → ℤ → ℤ → Str → Str
unfolding extended_lines
process_patch_lines settings patch original before after new =
    join (codes "\n")
      (extended_lines (file_of settings original new before after) (splitlines patch))

unfoldable pub should_skip_patch : PatchSettings → Str → Bool
unfolding is_nil
should_skip_patch settings filename =
    not (is_nil settings.patch_extension_skip_types)
    && (not (is_nil filename)
        && any (λ skip. ends_with skip filename) settings.patch_extension_skip_types)

unfoldable pub extend_patch : PatchSettings → Str → Str → ℤ → ℤ → Str → Str → Str
unfolding process_patch_lines should_skip_patch is_nil
extend_patch settings original patch before after filename new =
    if is_nil patch || (eqb_ℤ before (pos 0) && eqb_ℤ after (pos 0)) || is_nil original
    then patch
    else if should_skip_patch settings filename
    then patch
    else process_patch_lines settings patch original before after new
