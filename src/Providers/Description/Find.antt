-- ===== src/Providers/Description/Find.antt =====
-- Where a text without newlines is found in lines.
use pr_insight.Base.{
  ℕ, suc, ◌+◌, false, Option, none, some, [], ◌∷◌, ◌++◌, ◌==◌, ◌≡◌, refl, arith, any, length,
}
use pr_insight.Base.Text.{Str, starts_with, contains, find}

-- no newline is in the text
abbrev pub OneLine : Str → Type 0
OneLine p = any (λ c. c == 10) p ≡ false

-- a place after so many characters and a newline
abbrev pub shift : ℕ → Option ℕ → Option ℕ
shift n none = none
shift n (some k) = some (n + suc k)

starts_with_line : (p x y : Str) → OneLine p → starts_with p (x ++ 10 ∷ y) ≡ starts_with p x
unfolding starts_with
starts_with_line [] x y h = refl
starts_with_line (c ∷ p) [] y h = ground (arith, h)
starts_with_line (c ∷ p) (d ∷ x) y h = ground (arith, h, starts_with_line p x y)

-- A text of one line that a line does not contain is found after it or nowhere.
pub find_past :
    (c : ℕ) (p x y : Str)
    → OneLine (c ∷ p)
    → contains (c ∷ p) x ≡ false
    → find (c ∷ p) (x ++ 10 ∷ y) ≡ shift (length x) (find (c ∷ p) y)
unfolding find contains starts_with
find_past c p [] y h e = ground (arith, h)
find_past c p (d ∷ x) y h e = ground (arith, h, e, starts_with_line p x y, find_past c p x y)

-- The same for a text that need not be split.
pub find_past_line :
    (p x y : Str)
    → starts_with p [] ≡ false
    → OneLine p
    → contains p x ≡ false
    → find p (x ++ 10 ∷ y) ≡ shift (length x) (find p y)
unfolding starts_with
find_past_line [] x y n h e = cc
find_past_line (c ∷ p) x y n h e = find_past c p x y h e
