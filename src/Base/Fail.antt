-- ===== src/Base/Fail.antt =====
-- Code that may give nothing, and code that may raise an exception, with their `do` blocks.
use mathlib.Core.Path.{◌≡◌, refl}
use mathlib.Core.Bool.{Bool, true, false}
use mathlib.Core.Option.{Option, none, some}
use pr_insight.Base.Tests.{if◌then◌else◌}

module _ {ℓ κ} {A : Type ℓ} {B : Type κ} where
  infixl 5 ◌>>=◌
  abbrev pub ◌>>=◌ : Option A → (A → Option B) → Option B
  none >>= f = none
  some a >>= f = f a

-- The exceptions that the modelled code raises or catches.
pub data Exception : Type 0 where
  attribute_error type_error index_error key_error value_error : Exception
  security_error http_error other_error : Exception

-- What a call comes to: a value, or the exception that it raises.
pub data Outcome {ℓ} (A : Type ℓ) : Type ℓ where
  returned : A → Outcome A
  raised : Exception → Outcome A

-- The rest of a body after a call.
abbrev pub and_then {ℓ κ} : {A : Type ℓ} {B : Type κ} → Outcome A → (A → Outcome B) → Outcome B
and_then (returned a) f = f a
and_then (raised e) f = raised e

-- what a call returns, if it returns
abbrev pub Returns {ℓ} : {A : Type ℓ} → Outcome A → (A → Type 0) → Type 0
Returns (returned a) P = P a
Returns (raised e) P = Unit

pub Returns-and_then :
    {A B : Type 0} (m : Outcome A) (f : A → Outcome B) (P : A → Type 0) (Q : B → Type 0)
    → Returns m P
    → ((a : A) → P a → Returns (f a) Q)
    → Returns (and_then m f) Q
Returns-and_then (returned a) f P Q h k = k a h
Returns-and_then (raised e) f P Q h k = tt

pub any_value {ℓ} : {A : Type ℓ} (m : Outcome A) → Returns m (λ a. Unit)
any_value (returned a) = tt
any_value (raised e) = tt

abbrev pub Succeeds : {A : Type 0} → Outcome A → Type 0
Succeeds {A} m = (a : A) × (m ≡ returned a)

pub Succeeds-then :
    {A B : Type 0} (m : Outcome A) (f : A → Outcome B)
    → Succeeds m
    → ((a : A) → Succeeds (f a))
    → Succeeds (and_then m f)
Succeeds-then m f (a, e) h = let (b, e') = h a in (b, rw e e')

pub Succeeds-if :
    {A : Type 0} (b : Bool) (m n : Outcome A)
    → (b ≡ true → Succeeds m)
    → (b ≡ false → Succeeds n)
    → Succeeds (if b then m else n)
Succeeds-if true m n h k = h refl
Succeeds-if false m n h k = k refl

pub known_value : {A : Type 0} (m : Outcome A) → Returns m (λ a. m ≡ returned a)
known_value (returned a) = refl
known_value (raised e) = tt

pub Returns-if :
    {A : Type 0} (b : Bool) (m n : Outcome A) (P : A → Type 0)
    → (b ≡ true → Returns m P)
    → (b ≡ false → Returns n P)
    → Returns (if b then m else n) P
Returns-if true m n P h k = h refl
Returns-if false m n P h k = k refl

pub Returns_mono :
    {A : Type 0} (m : Outcome A) (P Q : A → Type 0)
    → Returns m P
    → ((a : A) → P a → Q a)
    → Returns m Q
Returns_mono (returned a) P Q h f = f a h
Returns_mono (raised e) P Q h f = tt
