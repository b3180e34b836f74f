-- ===== src/Patch/Omit/Kept.antt =====
-- Which lines `omit_deletion_hunks` keeps: those up to the end of the last hunk with an added line.
use pr_insight.Base.{
  Bool, true, false, not, ◌&&◌, ◌||◌, List, [], ◌∷◌, ◌++◌, ◌≡◌, refl, sym, ap, ◌∙◌, append-nil,
  append_assoc, arith, select, any, any-append, Bool-cases, inl, inr, ◌⊎◌, if◌then◌else◌,
}
use pr_insight.Base.Text.{Str, codes, starts_with}
use pr_insight.Patch.Omit.{Loop, initial, step, run, finish, kept_lines, is_header, is_plus}

-- All lines but those that begin with "@@" and are no hunk header.
abbrev pub is_kept : Str → Bool
is_kept line = not (starts_with (codes "@@") line) || is_header line

-- A hunk header.
abbrev pub opens_hunk : Str → Bool
opens_hunk line = starts_with (codes "@@") line && is_header line

abbrev seen : Loop → List Str
seen s = s.added_patched ++ s.temp_hunk

seen-step :
    (s : Loop) (line : Str)
    → seen (step s line) ≡ seen s ++ (if is_kept line then line ∷ [] else [])
unfolding step
seen-step s line = ground (
  arith,
  append_assoc s.added_patched s.temp_hunk (line ∷ []),
  append-nil (seen s),
  append-nil (s.added_patched ++ s.temp_hunk),
)

seen-run : (lines : List Str) (s : Loop) → seen (run s lines) ≡ seen s ++ select is_kept lines
unfolding run
seen-run [] s = sym (append-nil (seen s))
seen-run (line ∷ lines) s =
    seen-run lines (step s line)
    ∙ ap (λ xs. xs ++ select is_kept lines) (seen-step s line)
    ∙ append_assoc (seen s) _ _
    ∙ ap (◌++◌ (seen s)) (ground arith)

-- While no added line was met, the hunk that is held back has none.
abbrev HoldsBack : Loop → Type 0
HoldsBack s = s.add_hunk ≡ false → any is_plus s.temp_hunk ≡ false

not_plus : (line : Str) → starts_with (codes "@@") line ≡ true → is_plus line ≡ false
unfolding starts_with
not_plus [] h = refl
not_plus (c ∷ line) h = ground arith

step-HoldsBack : (s : Loop) (line : Str) → HoldsBack s → HoldsBack (step s line)
unfolding step
step-HoldsBack s line h =
    ground (arith, h, not_plus line, any-append is_plus s.temp_hunk (line ∷ []))

run-HoldsBack : (lines : List Str) (s : Loop) → HoldsBack s → HoldsBack (run s lines)
unfolding run
run-HoldsBack [] s h = h
run-HoldsBack (line ∷ lines) s h = run-HoldsBack lines (step s line) (step-HoldsBack s line h)

inside-run :
    (lines : List Str) (s : Loop)
    → (run s lines).inside_hunk ≡ (s.inside_hunk || any opens_hunk lines)
unfolding run step
inside-run [] s = ground arith
inside-run (line ∷ lines) s = ground (arith, inside-run lines (step s line))

abbrev Split : Loop → Type 0
Split s =
    (dropped : List Str) × (seen s ≡ finish s ++ dropped)
    × (s.inside_hunk ≡ true → any is_plus dropped ≡ false)

Split-finish : (s : Loop) → HoldsBack s → Split s
unfolding finish
Split-finish s h = elim (Bool-cases s.add_hunk) [
  | inl adds ↦ elim (Bool-cases s.inside_hunk) [
    | inl inside ↦ ([], ground (arith, append-nil (seen s)), λ _. refl)
    | inr outside ↦ (s.temp_hunk, ground arith, λ e. ground arith)
  ]
  | inr none_added ↦ (s.temp_hunk, ground arith, λ _. h none_added)
]

-- What `omit_deletion_hunks` keeps is a first part of the lines (less those that begin with "@@"
-- and are no hunk header); the part that it drops holds no added line, unless there is no hunk
-- header.
pub kept_lines_split :
    (lines : List Str)
    → (dropped : List Str) × (select is_kept lines ≡ kept_lines lines ++ dropped)
      × ((any opens_hunk lines ≡ false) ⊎ (any is_plus dropped ≡ false))
unfolding kept_lines
kept_lines_split lines =
    let s = run initial lines in
    let (dropped, parts, no_plus) = Split-finish s (run-HoldsBack lines initial (λ _. refl)) in
    (
      dropped,
      sym (seen-run lines initial) ∙ parts,
      elim (Bool-cases (any opens_hunk lines)) [
        | inl e ↦ inr (no_plus (inside-run lines initial ∙ e))
        | inr e ↦ inl e
      ],
    )

run-append : (xs ys : List Str) (s : Loop) → run s (xs ++ ys) ≡ run (run s xs) ys
unfolding run
run-append [] ys s = refl
run-append (x ∷ xs) ys s = run-append xs ys (step s x)

add_hunk-run_body :
    (body : List Str) (s : Loop)
    → any (starts_with (codes "@@")) body ≡ false
    → (run s body).add_hunk ≡ (s.add_hunk || any is_plus body)
unfolding run step
add_hunk-run_body [] s h = ground arith
add_hunk-run_body (line ∷ body) s h = ground (arith, add_hunk-run_body body (step s line))

finish_last : (s : Loop) → s.inside_hunk ≡ true → s.add_hunk ≡ true → finish s ≡ seen s
unfolding finish
finish_last s i a = ground arith

inside-step : (s : Loop) (line : Str) → opens_hunk line ≡ true → (step s line).inside_hunk ≡ true
unfolding step
inside-step s line h = ground arith

-- If the last hunk adds a line, nothing is omitted, whatever hunks stand before it: a hunk of
-- deletions only is kept when a hunk with an added line follows.
pub kept_lines_all :
    (before : List Str) (header : Str) (body : List Str)
    → opens_hunk header ≡ true
    → any (starts_with (codes "@@")) body ≡ false
    → any is_plus body ≡ true
    → kept_lines (before ++ header ∷ body) ≡ select is_kept (before ++ header ∷ body)
unfolding kept_lines run
kept_lines_all before header body h b p =
    let s = step (run initial before) header in
    let inside : (run s body).inside_hunk ≡ true =
      ground (arith, inside-run body s, inside-step (run initial before) header) in
    let adds : (run s body).add_hunk ≡ true = ground (arith, add_hunk-run_body body s) in
    ap finish (run-append before (header ∷ body) initial)
    ∙ finish_last (run s body) inside adds
    ∙ ap seen (sym (run-append before (header ∷ body) initial))
    ∙ seen-run (before ++ header ∷ body) initial

run_no_additions :
    (lines : List Str) (s : Loop)
    → any is_plus lines ≡ false
    → s.add_hunk ≡ false
    → ((run s lines).add_hunk ≡ false) × ((run s lines).added_patched ≡ s.added_patched)
unfolding run step
run_no_additions [] s h a = (a, refl)
run_no_additions (line ∷ lines) s h a = ground (arith, run_no_additions lines (step s line))

-- A patch with no added line is omitted as a whole.
pub kept_lines_no_additions : (lines : List Str) → any is_plus lines ≡ false → kept_lines lines ≡ []
unfolding kept_lines
kept_lines_no_additions lines h =
    let (a, e) = run_no_additions lines initial h refl in ground (arith, a, e)
