-- ===== src/Base/Text/Lines.antt =====
-- The lines of a text whose lines are known.
use Prim.Native.Nat.{ℕ}
use mathlib.Core.Path.{◌≡◌, refl}
use mathlib.Core.Bool.{false}
use mathlib.Core.List.{[], ◌∷◌, ◌++◌}
use native.Mathlib.Omega.{arith}
use pr_insight.Base.Lists.{any}
use pr_insight.Base.Tests.{◌==◌}
use pr_insight.Base.Text.{Str, is_break, lines_from}

-- no character at which `splitlines` breaks
abbrev pub Unbroken : Str → Type 0
Unbroken l = any is_break l ≡ false

not_return : (c : ℕ) → is_break c ≡ false → (c == 13) ≡ false
unfolding is_break
not_return c h = ground (arith, h)

broken_parts : (c : ℕ) (l : Str) → Unbroken (c ∷ l) → (is_break c ≡ false) × Unbroken l
broken_parts c l h = (ground (arith, h), ground (arith, h))

pub lines_from-line :
    (l rest : Str) → Unbroken l → lines_from false (l ++ 10 ∷ rest) ≡ l ∷ lines_from false rest
unfolding lines_from
lines_from-line [] rest h = refl
lines_from-line (c ∷ l) rest h =
    let (whole, later) = broken_parts c l h in
    rw (whole, not_return c whole, lines_from-line l rest later)
