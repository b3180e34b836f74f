-- ===== src/Base/Text/Strip.antt =====
-- Where stripping stops.
use Prim.Native.Nat.{ℕ}
use mathlib.Core.Path.{◌≡◌, ap, ◌∙◌}
use mathlib.Core.Bool.{Bool, false}
use mathlib.Core.List.{[], ◌∷◌, ◌++◌, append_assoc, reverse, reverse-append, reverse-reverse}
use native.Mathlib.Omega.{arith}
use pr_insight.Base.Text.{Str, is_space, lstrip_by, rstrip_by, rstrip}

-- the spaces behind a character that is none
lstrip_by-stop :
    (p : ℕ → Bool) (c : ℕ) (a b : Str)
    → p c ≡ false
    → lstrip_by p (a ++ c ∷ b) ≡ lstrip_by p a ++ c ∷ b
unfolding lstrip_by
lstrip_by-stop p c [] b h = rw h
lstrip_by-stop p c (d ∷ a) b h = ground (arith, lstrip_by-stop p c a b h)

reverse-snoc : (c : ℕ) (x : Str) → reverse (c ∷ reverse x) ≡ x ++ c ∷ []
reverse-snoc c x =
    reverse-append (c ∷ []) (reverse x) ∙ ap (λ (t : Str). t ++ c ∷ []) (reverse-reverse x)

reverse-middle : (c : ℕ) (x t : Str) → reverse (x ++ c ∷ t) ≡ reverse t ++ c ∷ reverse x
reverse-middle c x t =
    reverse-append x (c ∷ t)
    ∙ (ap (λ (r : Str). r ++ reverse x) (reverse-append (c ∷ []) t)
        ∙ append_assoc (reverse t) (c ∷ []) (reverse x))

pub rstrip-stop : (c : ℕ) (x t : Str) → is_space c ≡ false → rstrip (x ++ c ∷ t) ≡ x ++ c ∷ rstrip t
unfolding rstrip_by
rstrip-stop c x t h =
    let end = lstrip_by is_space (reverse t) in
    ap (λ (r : Str). reverse (lstrip_by is_space r)) (reverse-middle c x t)
    ∙ (ap reverse (lstrip_by-stop is_space c (reverse t) (reverse x) h)
        ∙ (reverse-append end (c ∷ reverse x)
            ∙ (ap (λ (r : Str). r ++ reverse end) (reverse-snoc c x)
                ∙ append_assoc x (c ∷ []) (reverse end))))
