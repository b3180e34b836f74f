-- ===== src/Base/Text/Digits.antt =====
-- The decimal notation of a number: it has a digit, and nothing but digits.
use Prim.Native.Nat.{ℕ, zero, suc, ◌+◌, ◌/◌, ◌%◌}
use mathlib.Core.Path.{◌≡◌, refl, subst}
use mathlib.Core.Bool.{Bool, true, ◌&&◌}
use mathlib.Core.List.{[], ◌∷◌}
use native.Mathlib.Omega.{arith}
use pr_insight.Base.Tests.{leb, ltb, if_cases}
use pr_insight.Base.Lists.{all}
use pr_insight.Base.Text.{Str, decimal, digits_onto}

-- the ASCII digits
abbrev pub is_digit : ℕ → Bool
is_digit c = leb b'0' c && leb c b'9'

-- a digit, and digits behind it
abbrev pub IsNumber : Str → Type 0
IsNumber [] = ⊥
IsNumber (c ∷ s) = (is_digit c ≡ true) × (all is_digit s ≡ true)

pub IsNumber-all : (s : Str) → IsNumber s → all is_digit s ≡ true
IsNumber-all (c ∷ s) h = ground (arith, h)
IsNumber-all [] h = elim h [ ]

digits_onto-IsNumber : (fuel n : ℕ) (acc : Str) → IsNumber acc → IsNumber (digits_onto fuel n acc)
unfolding digits_onto
digits_onto-IsNumber zero n acc h = h
digits_onto-IsNumber (suc fuel) n acc h =
    if_cases IsNumber (ltb n 10) ((n + 48) ∷ acc) (digits_onto fuel (n / 10) ((n % 10 + 48) ∷ acc))
      (λ e. (ground arith, IsNumber-all acc h))
      (λ e.
        digits_onto-IsNumber fuel (n / 10) ((n % 10 + 48) ∷ acc) (ground arith, IsNumber-all acc h))

first_digit : (fuel n : ℕ) → IsNumber (digits_onto (suc fuel) n [])
unfolding digits_onto
first_digit fuel n =
    if_cases IsNumber (ltb n 10) ((n + 48) ∷ []) (digits_onto fuel (n / 10) ((n % 10 + 48) ∷ []))
      (λ e. (ground arith, refl))
      (λ e. digits_onto-IsNumber fuel (n / 10) ((n % 10 + 48) ∷ []) (ground arith, refl))

pub decimal-IsNumber : (n : ℕ) → IsNumber (decimal n)
unfolding decimal
decimal-IsNumber n =
    let e : suc n ≡ n + 1 = omega arith in
    subst (λ fuel. IsNumber (digits_onto fuel n [])) e (first_digit n n)
