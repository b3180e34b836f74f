-- ===== src/Patch/Extend/Context.antt =====
-- The extended header and the lines that are put in front of a hunk.
use pr_insight.Base.{
  ◌⊎◌, ℕ, suc, ◌+◌, ◌-◌, ◌≤◌, min, Bool, not, ◌&&◌, ◌||◌, Option, none, some, List, [], ◌∷◌, ◌≡◌,
  refl, ap, ◌∙◌, arith, length, drop, length-take, length-drop, Bool-cases, inl, inr, if◌then◌else◌,
  leb,
}
use pr_insight.Base.Int.{pos, ◌+ℤ◌, ◌-ℤ◌, max_ℤ, ltb_ℤ}
use pr_insight.Base.Text.{Str}
use pr_insight.Patch.Header.{HunkHeader}
use pr_insight.Patch.Extend.{
  File, Limits, plain, wanted_limits, cap_limits, calc_context_limits, skip_lines, lines_before,
  hunk_context, choose_limits, compare_context, indent, find_section, mini_match, dynamic_at,
  after_match, same_lines, is_nil, drop_lines,
}

-- The hunk lies in a file of `n` lines.
pub record Fits (n : ℕ) (h : HunkHeader) : Type 0 where
  pub from_one : 1 ≤ h.start1
  pub in_file : h.start1 + h.size1 ≤ n + 1

-- the first line of `before` lines of context in front of line `start`
abbrev pub first_line : ℕ → ℕ → ℕ
first_line start b = if leb 2 (start - b) then start - b else 1

pub max-first_line : (start b : ℕ) → max_ℤ (pos 1) (pos start -ℤ pos b) ≡ pos (first_line start b)
unfolding ◌-ℤ◌
max-first_line start b = ground arith

pub size-wanted : (n m a s : ℕ) → s ≤ m → pos n +ℤ (pos m -ℤ pos s) +ℤ pos a ≡ pos (n + (m - s) + a)
unfolding ◌-ℤ◌ ◌+ℤ◌
size-wanted n m a s h = ground arith

pub first_line-le : (start b : ℕ) → 1 ≤ start → first_line start b ≤ start
first_line-le start b h = ground arith

pub first_line-pos : (start b : ℕ) → 1 ≤ first_line start b
first_line-pos start b = ground arith

-- the number of lines that are there behind the hunk, at most `a`
abbrev pub room : ℕ → HunkHeader → ℕ → ℕ
room n h a = min a (n + 1 - (h.start1 + h.size1))

capped :
    (n : ℕ) (h : HunkHeader) (l : Limits) (s a : ℕ)
    → Fits n h
    → l.start1 ≡ pos s
    → l.size1 ≡ pos (h.size1 + (h.start1 - s) + a)
    → 1 ≤ s
    → s ≤ h.start1
    → ((cap_limits n h l).start1 ≡ pos s)
      × ((cap_limits n h l).size1 ≡ pos (h.size1 + (h.start1 - s) + room n h a))
unfolding cap_limits ◌-ℤ◌ ◌+ℤ◌
capped n h l s a fits e f p q = ground arith

-- The limits begin at line `j`, and the size counts the lines from there, those of the hunk and
-- those that follow it.
pub record Reaches (n a : ℕ) (h : HunkHeader) (l : Limits) (j : ℕ) : Type 0 where
  pub start : l.start1 ≡ pos j
  pub size : l.size1 ≡ pos (h.size1 + (h.start1 - j) + room n h a)
  pub from_one : 1 ≤ j
  pub le_start : j ≤ h.start1

module _ (n a : ℕ) (h : HunkHeader) (fits : Fits n h) where
  pub Reaches-calc :
      (b : ℕ) → Reaches n a h (calc_context_limits n (pos a) h (pos b)) (first_line h.start1 b)
  unfolding calc_context_limits
  Reaches-calc b =
      let j = first_line h.start1 b in
      let le = first_line-le h.start1 b fits.from_one in
      let (s, k) =
        capped n h (wanted_limits (pos a) h (pos b)) j a fits
          (unfold wanted_limits in max-first_line h.start1 b)
          (unfold wanted_limits in
            (ap (λ m. pos h.size1 +ℤ (pos h.start1 -ℤ m) +ℤ pos a) (max-first_line h.start1 b)
              ∙ size-wanted h.size1 h.start1 a j le))
          (first_line-pos h.start1 b) le in
      record { start = s; size = k; from_one = first_line-pos h.start1 b; le_start = le }

  pub Reaches-skip :
      (l : Limits) (j i : ℕ)
      → Reaches n a h l j
      → j + i ≤ h.start1
      → Reaches n a h (skip_lines i l) (j + i)
  unfolding ◌-ℤ◌ ◌+ℤ◌
  Reaches-skip l j i r le = record {
    start = ground (arith, r.start);
    size = ground (arith, r.size);
    from_one = omega (arith, r.from_one);
    le_start = le;
  }

sub_one : (s : ℕ) → 1 ≤ s → pos s -ℤ pos 1 ≡ pos (s - 1)
unfolding ◌-ℤ◌
sub_one s h = ground arith

pub length-lines_before :
    (lines : List Str) (s m : ℕ)
    → 1 ≤ s
    → s ≤ m
    → m ≤ length lines + 1
    → length (lines_before lines (pos s) (pos m)) ≡ m - s
length-lines_before lines s m p q r =
    rw (sub_one s p, sub_one m (omega arith))
      (omega (
        arith,
        length-take (min (m - 1) (length lines) - min (s - 1) (length lines))
            (drop (min (s - 1) (length lines)) lines),
        length-drop (min (s - 1) (length lines)) lines,
      ))

pub find_section-length :
    (section : Str) (lines : List Str) (i k : ℕ) (rest : List Str)
    → find_section section i lines ≡ some (k, rest)
    → k + length rest ≡ i + length lines
unfolding find_section
find_section-length section [] i k rest h = ground arith
find_section-length section (x ∷ lines) i k rest h =
    ground (arith, find_section-length section lines (suc i) k rest)

pub mini_match-length :
    (old new : List Str) (i k : ℕ) (rest : List Str)
    → mini_match i old new ≡ some (k, rest)
    → k + length rest ≡ i + length old
unfolding mini_match
mini_match-length [] new i k rest h = ground arith
mini_match-length (x ∷ old) new i k rest h =
    ground (arith, mini_match-length old (drop_lines 1 new) (suc i) k rest)

-- What is in front of the hunk: the lines from `j` on, or none under the header as it was.
abbrev pub Accounts : ℕ → ℕ → HunkHeader → Limits → List Str → Type 0
Accounts n a h l lines =
    (l.start1 +ℤ pos (length lines) ≡ pos h.start1)
    × ((l.size1 ≡ pos (h.size1 + length lines + room n h a)) ⊎ ((l ≡ plain h) × (lines ≡ [])))

pub sum_start : (s k m : ℕ) → s + k ≡ m → pos s +ℤ pos k ≡ pos m
unfolding ◌+ℤ◌
sum_start s k m h = ground arith

Accounts-Reaches :
    (n a : ℕ) (h : HunkHeader) (l : Limits) (j : ℕ) (lines : List Str)
    → Reaches n a h l j
    → j + length lines ≡ h.start1
    → Accounts n a h l lines
Accounts-Reaches n a h l j lines r e =
    (rw r.start (sum_start j (length lines) h.start1 e), inl (rw r.size (ap pos (omega arith))))

Accounts-plain : (n a : ℕ) (h : HunkHeader) → Accounts n a h (plain h) []
Accounts-plain n a h = (sum_start h.start1 0 h.start1 (omega arith), inr (refl, refl))

pub length-indent : (lines : List Str) → length (indent lines) ≡ length lines
length-indent [] = refl
length-indent (x ∷ lines) = ap suc (length-indent lines)

module _ (f : File) (h : HunkHeader) (a b d : ℕ) (fits : Fits (length f.original_lines) h)
    (after : f.extra_after ≡ pos a) (before : f.extra_before ≡ pos b)
    (dynamic : f.dynamic_before ≡ pos d) where
  abbrev n : ℕ
  n = length f.original_lines

  abbrev Chosen : Limits → Type 0
  Chosen l = (j : ℕ) × Reaches n a h l j

  Chosen-plain_limits : Chosen (calc_context_limits n f.extra_after h f.extra_before)
  Chosen-plain_limits = (first_line h.start1 b, rw (after, before) (Reaches-calc n a h fits b))

  Chosen-dynamic_at :
      (l : Limits) (j : ℕ) (found : Option (ℕ × List Str))
      → Reaches n a h l j
      → ((k : ℕ) (rest : List Str) → found ≡ some (k, rest) → j + k ≤ h.start1)
      → Chosen (dynamic_at f h l found).0
  unfolding dynamic_at
  Chosen-dynamic_at l j none r le = Chosen-plain_limits
  Chosen-dynamic_at l j (some (i, rest)) r le =
      elim (Bool-cases
        (same_lines rest (drop_lines i (lines_before f.new_lines l.start2 (pos h.start2))))) [
          | inl same ↦ rw same (j + i, Reaches-skip n a h fits l j i r (le i rest refl))
          | inr differ ↦ rw differ Chosen-plain_limits
        ]

  front_length :
      (l : Limits) (j : ℕ)
      → Reaches n a h l j
      → length (lines_before f.original_lines l.start1 (pos h.start1)) ≡ h.start1 - j
  front_length l j r =
      let whole : h.start1 ≤ n + 1 = omega (arith, fits.in_file) in
      rw r.start (length-lines_before f.original_lines j h.start1 r.from_one r.le_start whole)

  index_le : (k r x j : ℕ) → k + r ≡ 0 + x → x ≡ h.start1 - j → j ≤ h.start1 → j + k ≤ h.start1
  index_le k r x j e p q = omega arith

  Chosen-choose_limits : Chosen (choose_limits f h).0
  unfolding choose_limits
  Chosen-choose_limits = elim (Bool-cases (f.dynamic && not (is_nil f.new_lines))) [
    | inl on ↦
        let l = calc_context_limits n f.extra_after h f.dynamic_before in
        let j = first_line h.start1 d in
        let r : Reaches n a h l j = rw (after, dynamic) (Reaches-calc n a h fits d) in
        rw on (
          Chosen-dynamic_at l j _ r λ k rest e.
            index_le k _ _ j (find_section-length h.section_header _ 0 k rest e)
              (front_length l j r) r.le_start)
    | inr off ↦ rw off Chosen-plain_limits
  ]

  Accounts-after_match :
      (l : Limits) (j : ℕ) (old new : List Str) (found : Option (ℕ × List Str))
      → Reaches n a h l j
      → mini_match 0 old new ≡ found
      → length old ≡ h.start1 - j
      → Accounts n a h (after_match h l found).0 (after_match h l found).1
  unfolding after_match
  Accounts-after_match l j old new none r e q = Accounts-plain n a h
  Accounts-after_match l j old new (some (i, lines)) r e q =
      let m = mini_match-length old new 0 i lines e in
      Accounts-Reaches n a h (skip_lines i l) (j + i) lines
        (Reaches-skip n a h fits l j i r (index_le i _ _ j m q r.le_start))
        (omega (arith, m, q, r.le_start))

  Accounts-compare_context :
      (l : Limits) (j : ℕ)
      → Reaches n a h l j
      → Accounts n a h (compare_context f h l).0 (compare_context f h l).1
  unfolding compare_context
  Accounts-compare_context l j r =
      let old = indent (lines_before f.original_lines l.start1 (pos h.start1)) in
      let new = indent (lines_before f.new_lines l.start2 (pos h.start2)) in
      let q : length old ≡ h.start1 - j = length-indent _ ∙ front_length l j r in
      elim (Bool-cases (not (is_nil f.new_lines) && not (same_lines old new))) [
        | inl differ ↦ rw differ (Accounts-after_match l j old new _ r refl q)
        | inr same ↦ rw same (Accounts-Reaches n a h l j old r (omega (arith, q, r.le_start)))
      ]

  -- For a hunk that lies in the original file, with limits that are not negative: the old side of the
  -- extended header begins as many lines before the hunk as lines are put in front of it. Either the size of
  -- the old side grows by those lines and by the lines that follow the hunk in the file, up to the
  -- wanted number, or the header stays as it was and no line is put in front.
  pub hunk_context-Accounts :
      (valid : Bool) → Accounts n a h (hunk_context f h valid).0 (hunk_context f h valid).2
  unfolding hunk_context
  hunk_context-Accounts valid =
      elim (Bool-cases (valid && (ltb_ℤ (pos 0) f.extra_before || ltb_ℤ (pos 0) f.extra_after))) [
        | inl on ↦
            let (j, r) = Chosen-choose_limits in
            rw on (Accounts-compare_context (choose_limits f h).0 j r)
        | inr off ↦ rw off (Accounts-plain n a h)
      ]
