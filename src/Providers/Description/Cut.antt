-- ===== src/Providers/Description/Cut.antt =====
-- What is cut out of a description, and how it is stripped.
use pr_insight.Base.{
  ℕ, suc, ◌+◌, ◌-◌, true, false, [], ◌∷◌, ◌++◌, ◌≡◌, refl, ◌∙◌, arith, ap, length, length-append,
  take,
}
use mathlib.Core.List.{reverse, reverse-append, reverse-reverse}
use pr_insight.Base.Text.{
  Str, codes, strip, rstrip, lstrip, lstrip_by, rstrip_by, strip_by, is_space, ends_with,
}
use pr_insight.Providers.Description.{without_line}

pub take-past : (u z : Str) (k : ℕ) → take (length u + k) (u ++ z) ≡ u ++ take k z
take-past [] z k = let e : 0 + k ≡ k = omega arith in ap (λ n. take n z) e
take-past (c ∷ u) z k =
    let e : suc (length u) + k ≡ suc (length u + k) = omega arith in
    ap (λ n. take n (c ∷ (u ++ z))) e ∙ ap (◌∷◌ c) (take-past u z k)

newline_is_space : is_space 10 ≡ true
unfolding is_space
newline_is_space = refl

-- the spaces behind a text and its last line
rstrip-lines : (u : Str) → rstrip (u ++ codes "\n\n\n___\n\n") ≡ u ++ codes "\n\n\n___"
unfolding rstrip_by lstrip_by is_space
rstrip-lines u = rw (reverse-append u (codes "\n\n\n___\n\n")) (
    reverse-append (codes "___\n\n\n") (reverse u)
    ∙ ap (λ (t : Str). t ++ codes "\n\n\n___") (reverse-reverse u))

rstrip-newlines : (u : Str) → rstrip (u ++ codes "\n\n\n") ≡ rstrip u
unfolding rstrip_by lstrip_by is_space
rstrip-newlines u = rw (reverse-append u (codes "\n\n\n"))

ends-line : (u : Str) → ends_with (codes "___") (u ++ codes "\n\n\n___") ≡ true
unfolding ends_with
ends-line u = rw (reverse-append u (codes "\n\n\n___"))

module _ (c : ℕ) (s : Str) (first : is_space c ≡ false) where
  lstrip-first : (x : Str) → lstrip (c ∷ x) ≡ c ∷ x
  unfolding lstrip_by
  lstrip-first x = rw first

  lstrip-newline : (x : Str) → lstrip (10 ∷ (c ∷ x)) ≡ c ∷ x
  unfolding lstrip_by
  lstrip-newline x = rw (newline_is_space, first)

  strip-cut : strip (10 ∷ (c ∷ (s ++ codes "\n\n\n___\n\n"))) ≡ (c ∷ s) ++ codes "\n\n\n___"
  unfolding strip_by
  strip-cut = ap rstrip (lstrip-newline (s ++ codes "\n\n\n___\n\n")) ∙ rstrip-lines (c ∷ s)

  strip-newlines : rstrip (c ∷ s) ≡ c ∷ s → strip ((c ∷ s) ++ codes "\n\n\n") ≡ c ∷ s
  unfolding strip_by
  strip-newlines last =
      ap rstrip (lstrip-first (s ++ codes "\n\n\n")) ∙ (rstrip-newlines (c ∷ s) ∙ last)

  short : length ((c ∷ s) ++ codes "\n\n\n___") - 3 ≡ length (c ∷ s) + 3
  short = omega (arith, length-append (c ∷ s) (codes "\n\n\n___"))

  -- the line behind the text goes, and the newlines
  pub without_line-cut :
      rstrip (c ∷ s) ≡ c ∷ s
      → without_line (strip (10 ∷ (c ∷ (s ++ codes "\n\n\n___\n\n")))) ≡ c ∷ s
  without_line-cut last =
      ap without_line strip-cut
      ∙ (rw (ends-line (c ∷ s)) (
          ap (λ n. strip (take n ((c ∷ s) ++ codes "\n\n\n___"))) short
          ∙ (ap strip (take-past (c ∷ s) (codes "\n\n\n___") 3) ∙ strip-newlines last)))
