-- ===== src/Patch/Extend/NewSide.antt =====
-- How far the new side of the extended header reaches, and the lines that both files share.
use pr_insight.Base.{
  ℕ, zero, suc, ◌+◌, ◌-◌, ◌≤◌, true, some, List, [], ◌∷◌, ◌≡◌, refl, ap, ◌∙◌, arith, length,
  Bool-cases, inl, inr,
}
use pr_insight.Base.Int.{pos, ◌+ℤ◌, ◌-ℤ◌}
use pr_insight.Base.Text.{Str}
use pr_insight.Patch.Header.{HunkHeader}
use pr_insight.Patch.Extend.{
  Limits, wanted_limits, cap_limits, calc_context_limits, skip_lines, find_section, mini_match,
  same_lines, drop_lines,
}
use pr_insight.Patch.Extend.Context.{
  Fits, first_line, first_line-le, first_line-pos, max-first_line, size-wanted, room,
}

-- The new side begins at line `j`, and its size counts the lines from there.
pub record ReachesNew (n a : ℕ) (h : HunkHeader) (l : Limits) (j : ℕ) : Type 0 where
  pub start : l.start2 ≡ pos j
  pub size : l.size2 ≡ pos (h.size2 + (h.start2 - j) + room n h a)
  pub from_one : 1 ≤ j
  pub le_start : j ≤ h.start2

capped_new :
    (n : ℕ) (h : HunkHeader) (l : Limits) (s t a : ℕ)
    → Fits n h
    → l.start1 ≡ pos s
    → l.size1 ≡ pos (h.size1 + (h.start1 - s) + a)
    → 1 ≤ s
    → s ≤ h.start1
    → l.start2 ≡ pos t
    → l.size2 ≡ pos (h.size2 + (h.start2 - t) + a)
    → ((cap_limits n h l).start2 ≡ pos t)
      × ((cap_limits n h l).size2 ≡ pos (h.size2 + (h.start2 - t) + room n h a))
unfolding cap_limits ◌-ℤ◌ ◌+ℤ◌
capped_new n h l s t a fits e f p q g k = ground arith

module _ (n a : ℕ) (h : HunkHeader) (fits : Fits n h) (from_one : 1 ≤ h.start2) where
  pub ReachesNew-calc :
      (b : ℕ) → ReachesNew n a h (calc_context_limits n (pos a) h (pos b)) (first_line h.start2 b)
  unfolding calc_context_limits
  ReachesNew-calc b =
      let i = first_line h.start1 b in
      let j = first_line h.start2 b in
      let le = first_line-le h.start1 b fits.from_one in
      let le' = first_line-le h.start2 b from_one in
      let (s, k) =
        capped_new n h (wanted_limits (pos a) h (pos b)) i j a fits
          (unfold wanted_limits in max-first_line h.start1 b)
          (unfold wanted_limits in
            (ap (λ m. pos h.size1 +ℤ (pos h.start1 -ℤ m) +ℤ pos a) (max-first_line h.start1 b)
              ∙ size-wanted h.size1 h.start1 a i le))
          (first_line-pos h.start1 b) le (unfold wanted_limits in max-first_line h.start2 b)
          (unfold wanted_limits in
            (ap (λ m. pos h.size2 +ℤ (pos h.start2 -ℤ m) +ℤ pos a) (max-first_line h.start2 b)
              ∙ size-wanted h.size2 h.start2 a j le')) in
      record { start = s; size = k; from_one = first_line-pos h.start2 b; le_start = le' }

  pub ReachesNew-skip :
      (l : Limits) (j i : ℕ)
      → ReachesNew n a h l j
      → j + i ≤ h.start2
      → ReachesNew n a h (skip_lines i l) (j + i)
  unfolding ◌-ℤ◌ ◌+ℤ◌
  ReachesNew-skip l j i r le = record {
    start = ground (arith, r.start);
    size = ground (arith, r.size);
    from_one = omega (arith, r.from_one);
    le_start = le;
  }

pub same_lines-length : (xs ys : List Str) → same_lines xs ys ≡ true → length xs ≡ length ys
unfolding same_lines
same_lines-length [] [] h = refl
same_lines-length [] (y ∷ ys) h = ground (arith, h)
same_lines-length (x ∷ xs) [] h = ground (arith, h)
same_lines-length (x ∷ xs) (y ∷ ys) h = ground (arith, h, same_lines-length xs ys)

pub length-drop_lines : (k : ℕ) (xs : List Str) → length (drop_lines k xs) ≡ length xs - k
unfolding drop_lines
length-drop_lines zero xs = omega arith
length-drop_lines (suc k) [] = omega arith
length-drop_lines (suc k) (x ∷ xs) = omega (arith, length-drop_lines k xs)

pub find_section-given :
    (section : Str) (lines : List Str) (i k : ℕ) (rest : List Str)
    → find_section section i lines ≡ some (k, rest)
    → 1 ≤ length rest
unfolding find_section
find_section-given section [] i k rest h = ground arith
find_section-given section (x ∷ lines) i k rest h =
    ground (arith, find_section-given section lines (suc i) k rest)

-- how the lines that are found stand in the new file
pub mini_match-new :
    (old new : List Str) (i k : ℕ) (rest : List Str)
    → mini_match i old new ≡ some (k, rest)
    → (i ≤ k) × (1 ≤ length rest) × (k + length rest ≡ i + length new)
unfolding mini_match
mini_match-new [] new i k rest h = ground (arith, h)
mini_match-new (x ∷ old) new i k rest h = elim (Bool-cases (same_lines (x ∷ old) new)) [
  | inl same ↦
      let m = same_lines-length (x ∷ old) new same in
      (ground (arith, h, same), ground (arith, h, same), ground (arith, h, same, m))
  | inr differ ↦
      let later : mini_match (suc i) old (drop_lines 1 new) ≡ some (k, rest) = rw differ at h in
      let (p, q, r) = mini_match-new old (drop_lines 1 new) (suc i) k rest later in
      let d = length-drop_lines 1 new in (omega (arith, p), q, omega (arith, p, q, r, d))
]
