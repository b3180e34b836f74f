-- ===== src/Processing/Sorted.antt =====
-- `sorted(files, key=lambda x: x.tokens, reverse=True)`: equal keys keep their order.
use mathlib.Core.List.{Perm}
use mathlib.Core.List.Perm
use pr_insight.Base.{List, [], ◌∷◌, arith, if◌then◌else◌, Bool-cases, inl, inr}
use pr_insight.Base.Int.{ℤ, leb_ℤ, ◌≤ℤ◌}
use pr_insight.Patch.Types.{FilePatchInfo}

place : FilePatchInfo → List FilePatchInfo → List FilePatchInfo
place x [] = x ∷ []
place x (y ∷ ys) = if leb_ℤ y.tokens x.tokens then x ∷ y ∷ ys else y ∷ place x ys

unfoldable pub sort_by_tokens : List FilePatchInfo → List FilePatchInfo
unfolding place
sort_by_tokens [] = []
sort_by_tokens (x ∷ xs) = place x (sort_by_tokens xs)

place-perm : (x : FilePatchInfo) (ys : List FilePatchInfo) → Perm (place x ys) (x ∷ ys)
unfolding place
place-perm x [] = Perm.refl (x ∷ [])
place-perm x (y ∷ ys) = elim (Bool-cases (leb_ℤ y.tokens x.tokens)) [
  | inl first ↦ rw first (Perm.refl (x ∷ y ∷ ys))
  | inr later ↦ rw later (Perm.trans (Perm.cons y (place-perm x ys)) (Perm.swap x y ys))
]

sort-perm : (xs : List FilePatchInfo) → Perm (sort_by_tokens xs) xs
unfolding sort_by_tokens
sort-perm [] = Perm.refl []
sort-perm (x ∷ xs) = Perm.trans (place-perm x (sort_by_tokens xs)) (Perm.cons x (sort-perm xs))

-- No later file has more tokens than an earlier one.
abbrev pub AtMost : ℤ → List FilePatchInfo → Type 0
AtMost n [] = Unit
AtMost n (x ∷ xs) = (x.tokens ≤ℤ n) × AtMost n xs

abbrev pub IsDescending : List FilePatchInfo → Type 0
IsDescending [] = Unit
IsDescending (x ∷ xs) = AtMost x.tokens xs × IsDescending xs

AtMost-le : (n m : ℤ) (xs : List FilePatchInfo) → n ≤ℤ m → AtMost n xs → AtMost m xs
AtMost-le n m [] h a = tt
AtMost-le n m (x ∷ xs) h a = (omega (arith, a.0), AtMost-le n m xs h a.1)

AtMost-place :
    (n : ℤ) (x : FilePatchInfo) (ys : List FilePatchInfo)
    → x.tokens ≤ℤ n
    → AtMost n ys
    → AtMost n (place x ys)
unfolding place
AtMost-place n x [] h a = (h, tt)
AtMost-place n x (y ∷ ys) h a = ground (arith, AtMost-place n x ys)

place-IsDescending :
    (x : FilePatchInfo) (ys : List FilePatchInfo) → IsDescending ys → IsDescending (place x ys)
unfolding place
place-IsDescending x [] d = (tt, tt)
place-IsDescending x (y ∷ ys) d = elim (Bool-cases (leb_ℤ y.tokens x.tokens)) [
  | inl first ↦
      let h : y.tokens ≤ℤ x.tokens = ground arith in
      rw first ((h, AtMost-le y.tokens x.tokens ys h d.0), d)
  | inr later ↦
      rw later (AtMost-place y.tokens x ys (ground arith) d.0, place-IsDescending x ys d.1)
]

sort-IsDescending : (xs : List FilePatchInfo) → IsDescending (sort_by_tokens xs)
unfolding sort_by_tokens
sort-IsDescending [] = tt
sort-IsDescending (x ∷ xs) = place-IsDescending x (sort_by_tokens xs) (sort-IsDescending xs)

-- The files are the same ones, those with more tokens first.
pub sort_by_tokens_lem :
    (xs : List FilePatchInfo) → Perm (sort_by_tokens xs) xs × IsDescending (sort_by_tokens xs)
sort_by_tokens_lem xs = (sort-perm xs, sort-IsDescending xs)
