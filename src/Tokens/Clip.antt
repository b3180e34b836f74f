-- ===== src/Tokens/Clip.antt =====
-- `clip_tokens`.
use pr_insight.Base.{
  ℕ, suc, length-take, take-length, take-take, length-append, Option-cases, ◌+◌, ◌<◌, ◌≤◌, Bool,
  not, ◌&&◌, Option, none, some, List, [], ◌∷◌, ◌++◌, ◌≡◌, ◌⊎◌, inl, inr, refl, arith, leb, ltb,
  ◌==◌, any, length, take, if◌then◌else◌, Bool-cases,
}
use pr_insight.Base.Int.{ℤ, pos, negsuc}
use pr_insight.Base.Text.{Str, codes}

-- `text.rsplit("\n", 1)[0]`
pub before_last_newline : Str → Str
before_last_newline [] = []
before_last_newline (c ∷ s) =
    if c == b'\n'
    then (if any (λ d. d == b'\n') s then c ∷ before_last_newline s else [])
    else c ∷ before_last_newline s

abbrev pub three_dots : Str
three_dots = codes "\n...(truncated)"

-- `encoded` is the length of the encoder's output, `none` if it raises. `output_chars c t m` is
-- `int(0.9 * (c / t) * m)`, in Python's floats.
module _ (encoded : Str → Option ℕ) (output_chars : ℕ → ℕ → ℕ → ℕ) where
  clipped : Str → Bool → Bool → ℕ → Str
  unfolding before_last_newline
  clipped text add_three_dots delete_last_line n =
      let cut = take n text in
      let kept = if delete_last_line then before_last_newline cut else cut in
      if ltb 0 n then (if add_three_dots then kept ++ three_dots else kept) else []

  -- the part behind the count; it raises nothing, as `num_input_tokens` is not 0 there
  clip_counted : Str → ℤ → Bool → Bool → ℕ → Str
  unfolding clipped
  clip_counted text (negsuc m) add_three_dots delete_last_line tokens = []
  clip_counted text (pos m) add_three_dots delete_last_line tokens =
      if leb tokens m
      then text
      else clipped text add_three_dots delete_last_line (output_chars (length text) tokens m)

  unfoldable pub clip_tokens : Str → ℤ → Bool → Option ℕ → Bool → Str
  unfolding clip_counted
  clip_tokens [] max_tokens add_three_dots num_input_tokens delete_last_line = []
  clip_tokens (c ∷ text) max_tokens add_three_dots (some tokens) delete_last_line =
      clip_counted (c ∷ text) max_tokens add_three_dots delete_last_line tokens
  clip_tokens (c ∷ text) max_tokens add_three_dots none delete_last_line =
      elim (encoded (c ∷ text)) [
        | none ↦ c ∷ text
        | some tokens ↦ clip_counted (c ∷ text) max_tokens add_three_dots delete_last_line tokens
      ]

  prefix_before_newline : (s : Str) → (k : ℕ) × (before_last_newline s ≡ take k s)
  unfolding before_last_newline
  prefix_before_newline [] = (0, refl)
  prefix_before_newline (c ∷ s) =
      let (k, e) = prefix_before_newline s in
      elim (Bool-cases (c == b'\n' && not (any (λ d. d == b'\n') s))) [
        | inl stop ↦ (0, ground arith)
        | inr go ↦ (suc k, ground (arith, e))
      ]

  abbrev pub IsClip : Str → Str → Type 0
  IsClip text r = (k : ℕ) × ((r ≡ take k text) ⊎ (r ≡ take k text ++ three_dots))

  IsClip-clipped :
      (text : Str) (dots cut_line : Bool) (n : ℕ) → IsClip text (clipped text dots cut_line n)
  unfolding clipped
  IsClip-clipped text dots cut_line n =
      let (k, e) = prefix_before_newline (take n text) in
      let (j, f) = take-take k n text in
      elim (Bool-cases (ltb 0 n)) [
        | inl more ↦ elim (Bool-cases cut_line) [
          | inl cut ↦ (j, ground (arith, e, f))
          | inr keep ↦ (n, ground arith)
        ]
        | inr none_left ↦ (0, ground arith)
      ]

  IsClip-counted :
      (text : Str) (m : ℤ) (dots cut_line : Bool) (tokens : ℕ)
      → IsClip text (clip_counted text m dots cut_line tokens)
  unfolding clip_counted
  IsClip-counted text (negsuc m) dots cut_line tokens = (0, inl refl)
  IsClip-counted text (pos m) dots cut_line tokens = elim (Bool-cases (leb tokens m)) [
    | inl fits ↦ (length text, inl (rw (fits, take-length text)))
    | inr over ↦ rw over (IsClip-clipped text dots cut_line (output_chars (length text) tokens m))
  ]

  -- Whatever the arguments, the result is a first part of the text, with or without the mark of a
  -- cut behind it.
  pub clip_tokens-prefix :
      (text : Str) (max_tokens : ℤ) (dots : Bool) (tokens : Option ℕ) (cut_line : Bool)
      → IsClip text (clip_tokens text max_tokens dots tokens cut_line)
  unfolding clip_tokens
  clip_tokens-prefix [] m dots tokens cut_line = (0, inl refl)
  clip_tokens-prefix (c ∷ text) m dots (some n) cut_line =
      IsClip-counted (c ∷ text) m dots cut_line n
  clip_tokens-prefix (c ∷ text) m dots none cut_line = elim (Option-cases (encoded (c ∷ text))) [
    | inl fails ↦ (length (c ∷ text), inl (ground (arith, fails, take-length (c ∷ text))))
    | inr (n, counted) ↦ rw (counted, clip_tokens) (IsClip-counted (c ∷ text) m dots cut_line n)
  ]

  length-take-le {ℓ} : {A : Type ℓ} (k : ℕ) (xs : List A) → length (take k xs) ≤ k
  length-take-le k xs = omega (arith, length-take k xs)

  length-before_last : (s : Str) → length (before_last_newline s) ≤ length s
  unfolding before_last_newline
  length-before_last [] = omega arith
  length-before_last (c ∷ s) = ground (arith, length-before_last s)

  -- A text of known size that does not fit comes back with at most as many characters as are
  -- computed for the budget, and the mark of a cut.
  pub length-clip_tokens :
      (text : Str) (m : ℕ) (dots : Bool) (tokens : ℕ) (cut_line : Bool)
      → m < tokens
      → length (clip_tokens text (pos m) dots (some tokens) cut_line)
        ≤ output_chars (length text) tokens m + length three_dots
  unfolding clip_tokens
  length-clip_tokens [] m dots tokens cut_line h = omega arith
  length-clip_tokens (c ∷ text) m dots tokens cut_line h =
      let n = output_chars (length (c ∷ text)) tokens m in
      let cut = take n (c ∷ text) in
      ground (
        arith,
        length-take-le n (c ∷ text),
        length-before_last cut,
        length-append cut three_dots,
        length-append (before_last_newline cut) three_dots,
      )

  -- A text that fits its budget is not changed.
  pub clip_tokens-fits :
      (text : Str) (m : ℕ) (dots : Bool) (tokens : ℕ) (cut_line : Bool)
      → tokens ≤ m
      → clip_tokens text (pos m) dots (some tokens) cut_line ≡ text
  unfolding clip_tokens
  clip_tokens-fits [] m dots tokens cut_line h = refl
  clip_tokens-fits (c ∷ text) m dots tokens cut_line h = ground arith
