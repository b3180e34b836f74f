-- ===== src/Patch/Extend/Sides.antt =====
-- Both sides of the extended header, when the new file is there.
use pr_insight.Base.{
  ◌∷◌, ◌||◌, ◌&&◌, not, ◌⊎◌, inl, inr, ℕ, ◌+◌, ◌-◌, ◌≤◌, Bool, false, Option, none, some, List, [],
  ◌≡◌, refl, ap, ◌∙◌, arith, length, Bool-cases,
}
use pr_insight.Base.Int.{pos, ◌+ℤ◌, ltb_ℤ}
use pr_insight.Base.Text.{Str}
use pr_insight.Patch.Header.{HunkHeader}
use pr_insight.Patch.Extend.{
  File, Limits, plain, calc_context_limits, skip_lines, lines_before, hunk_context, choose_limits,
  compare_context, indent, mini_match, dynamic_at, after_match, same_lines, is_nil, drop_lines,
}
use pr_insight.Patch.Extend.Context.{
  Fits, Accounts, Reaches, Reaches-calc, Reaches-skip, first_line, room, length-lines_before,
  length-indent, find_section-length, sum_start, hunk_context-Accounts,
}
use pr_insight.Patch.Extend.NewSide.{
  ReachesNew, ReachesNew-calc, ReachesNew-skip, same_lines-length, length-drop_lines,
  find_section-given, mini_match-new,
}

-- What is in front of the hunk, on the new side: the lines from there on, or none under the header as
-- it was.
abbrev pub AccountsNew : ℕ → ℕ → HunkHeader → Limits → List Str → Type 0
AccountsNew n a h l lines =
    (l.start2 +ℤ pos (length lines) ≡ pos h.start2)
    × ((l.size2 ≡ pos (h.size2 + length lines + room n h a)) ⊎ ((l ≡ plain h) × (lines ≡ [])))

AccountsNew-Reaches :
    (n a : ℕ) (h : HunkHeader) (l : Limits) (j : ℕ) (lines : List Str)
    → ReachesNew n a h l j
    → j + length lines ≡ h.start2
    → AccountsNew n a h l lines
AccountsNew-Reaches n a h l j lines r e =
    (rw r.start (sum_start j (length lines) h.start2 e), inl (rw r.size (ap pos (omega arith))))

AccountsNew-plain : (n a : ℕ) (h : HunkHeader) → AccountsNew n a h (plain h) []
AccountsNew-plain n a h = (sum_start h.start2 0 h.start2 (omega arith), inr (refl, refl))

-- The hunk begins in the new file, of `m` lines.
pub record BeginsIn (m : ℕ) (h : HunkHeader) : Type 0 where
  pub from_one : 1 ≤ h.start2
  pub in_file : h.start2 ≤ m + 1

is_given : (lines : List Str) → 1 ≤ length lines → is_nil lines ≡ false
unfolding is_nil
is_given [] h = ground (arith, h)
is_given (x ∷ lines) h = refl

module _ (f : File) (h : HunkHeader) (a b d : ℕ) (fits : Fits (length f.original_lines) h)
    (begins : BeginsIn (length f.new_lines) h) (given : 1 ≤ length f.new_lines)
    (after : f.extra_after ≡ pos a) (before : f.extra_before ≡ pos b)
    (dynamic : f.dynamic_before ≡ pos d) where
  abbrev n : ℕ
  n = length f.original_lines

  abbrev Chosen : Limits → Type 0
  Chosen l = (i : ℕ) × (j : ℕ) × Reaches n a h l i × ReachesNew n a h l j

  Chosen-plain_limits : Chosen (calc_context_limits n f.extra_after h f.extra_before)
  Chosen-plain_limits = (
    first_line h.start1 b,
    first_line h.start2 b,
    rw (after, before) (Reaches-calc n a h fits b),
    rw (after, before) (ReachesNew-calc n a h fits begins.from_one b),
  )

  old_length :
      (l : Limits) (j : ℕ)
      → Reaches n a h l j
      → length (lines_before f.original_lines l.start1 (pos h.start1)) ≡ h.start1 - j
  old_length l j r =
      let whole : h.start1 ≤ n + 1 = omega (arith, fits.in_file) in
      rw r.start (length-lines_before f.original_lines j h.start1 r.from_one r.le_start whole)

  new_length :
      (l : Limits) (j : ℕ)
      → ReachesNew n a h l j
      → length (lines_before f.new_lines l.start2 (pos h.start2)) ≡ h.start2 - j
  new_length l j r =
      rw r.start (length-lines_before f.new_lines j h.start2 r.from_one r.le_start begins.in_file)

  Chosen-dynamic_at :
      (l : Limits) (i j : ℕ) (found : Option (ℕ × List Str))
      → Reaches n a h l i
      → ReachesNew n a h l j
      → ((k : ℕ) (rest : List Str)
          → found ≡ some (k, rest)
          → (i + k ≤ h.start1) × (1 ≤ length rest))
      → Chosen (dynamic_at f h l found).0
  unfolding dynamic_at
  Chosen-dynamic_at l i j none r s le = Chosen-plain_limits
  Chosen-dynamic_at l i j (some (k, rest)) r s le =
      let new = lines_before f.new_lines l.start2 (pos h.start2) in
      elim (Bool-cases (same_lines rest (drop_lines k new))) [
        | inl same ↦
            let m = same_lines-length rest (drop_lines k new) same in
            let q = length-drop_lines k new in
            let e = new_length l j s in
            let (p, some_line) = le k rest refl in
            rw same (
              i + k,
              j + k,
              Reaches-skip n a h fits l i k r p,
              ReachesNew-skip n a h fits begins.from_one l j k s
                  (omega (arith, m, q, e, some_line, s.le_start)),
            )
        | inr differ ↦ rw differ Chosen-plain_limits
      ]

  Chosen-choose_limits : Chosen (choose_limits f h).0
  unfolding choose_limits
  Chosen-choose_limits = elim (Bool-cases (f.dynamic && not (is_nil f.new_lines))) [
    | inl on ↦
        let l = calc_context_limits n f.extra_after h f.dynamic_before in
        let i = first_line h.start1 d in
        let r : Reaches n a h l i = rw (after, dynamic) (Reaches-calc n a h fits d) in
        let s : ReachesNew n a h l (first_line h.start2 d) =
          rw (after, dynamic) (ReachesNew-calc n a h fits begins.from_one d) in
        rw on (
          Chosen-dynamic_at l i (first_line h.start2 d) _ r s λ k rest e.
            let p = find_section-length h.section_header _ 0 k rest e in
            let q = old_length l i r in
            (omega (arith, p, q, r.le_start), find_section-given h.section_header _ 0 k rest e))
    | inr off ↦ rw off Chosen-plain_limits
  ]

  AccountsNew-after_match :
      (l : Limits) (i j : ℕ) (old new : List Str) (found : Option (ℕ × List Str))
      → ReachesNew n a h l j
      → mini_match 0 old new ≡ found
      → length new ≡ h.start2 - j
      → AccountsNew n a h (after_match h l found).0 (after_match h l found).1
  unfolding after_match
  AccountsNew-after_match l i j old new none s e q = AccountsNew-plain n a h
  AccountsNew-after_match l i j old new (some (k, lines)) s e q =
      let (p, some_line, m) = mini_match-new old new 0 k lines e in
      AccountsNew-Reaches n a h (skip_lines k l) (j + k) lines
        (ReachesNew-skip n a h fits begins.from_one l j k s
          (omega (arith, m, q, some_line, s.le_start)))
        (omega (arith, m, q, some_line, s.le_start))

  AccountsNew-compare_context :
      (l : Limits) (i j : ℕ)
      → Reaches n a h l i
      → ReachesNew n a h l j
      → AccountsNew n a h (compare_context f h l).0 (compare_context f h l).1
  unfolding compare_context
  AccountsNew-compare_context l i j r s =
      let old = indent (lines_before f.original_lines l.start1 (pos h.start1)) in
      let new = indent (lines_before f.new_lines l.start2 (pos h.start2)) in
      let q : length new ≡ h.start2 - j = length-indent _ ∙ new_length l j s in
      elim (Bool-cases (same_lines old new)) [
        | inl same ↦
            let m = same_lines-length old new same in
            rw (is_given f.new_lines given, same)
              (AccountsNew-Reaches n a h l j old s (omega (arith, m, q, s.le_start)))
        | inr differ ↦
            rw (is_given f.new_lines given, differ)
              (AccountsNew-after_match l i j old new _ s refl q)
      ]

  new_side :
      (valid : Bool) → AccountsNew n a h (hunk_context f h valid).0 (hunk_context f h valid).2
  unfolding hunk_context
  new_side valid =
      elim (Bool-cases (valid && (ltb_ℤ (pos 0) f.extra_before || ltb_ℤ (pos 0) f.extra_after))) [
        | inl on ↦
            let (i, j, r, s) = Chosen-choose_limits in
            rw on (AccountsNew-compare_context (choose_limits f h).0 i j r s)
        | inr off ↦ rw off (AccountsNew-plain n a h)
      ]

  -- For a hunk that lies in the original file and begins in the new file, which is there, with limits
  -- that are not negative, each side of the extended header begins as many lines before the hunk as
  -- lines are put in front of it, and its size grows by those lines and by the lines that follow the
  -- hunk in the original file, up to the wanted number; or else the header stays as it was and no
  -- line is put in front.
  pub hunk_context-AccountsNew :
      (valid : Bool)
      → Accounts n a h (hunk_context f h valid).0 (hunk_context f h valid).2
        × AccountsNew n a h (hunk_context f h valid).0 (hunk_context f h valid).2
  hunk_context-AccountsNew valid =
      (hunk_context-Accounts f h a b d fits after before dynamic valid, new_side valid)
