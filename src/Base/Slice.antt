-- ===== src/Base/Slice.antt =====
-- Python's `xs[lo:hi]` with signed bounds.
use pr_insight.Base.Int.{ℤ, pos, negsuc}
use pr_insight.Base.Lists.{length, take, drop, get_elem?}
use Prim.Native.Nat.{ℕ, suc, ◌-◌, min}
use mathlib.Core.List.{List}
use mathlib.Core.Option.{Option, none}
use pr_insight.Base.Tests.{leb, if◌then◌else◌}

-- a negative bound counts from the end and stops at 0
abbrev pub bound : ℕ → ℤ → ℕ
bound n (pos k) = min k n
bound n (negsuc k) = n - suc k

module _ {ℓ} {A : Type ℓ} where
  -- `xs[lo:hi]`
  abbrev pub slice : ℤ → ℤ → List A → List A
  slice lo hi xs = let n = length xs in take (bound n hi - bound n lo) (drop (bound n lo) xs)

  -- `xs[i]`, where `none` is an `IndexError`
  abbrev pub item_at : List A → ℤ → Option A
  item_at xs (pos k) = get_elem? xs k
  item_at xs (negsuc k) = if leb (suc k) (length xs) then get_elem? xs (length xs - suc k) else none
