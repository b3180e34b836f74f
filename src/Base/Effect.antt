-- ===== src/Base/Effect.antt =====
-- Code that changes a state and may raise: what it has changed stays changed when it raises.
use mathlib.Core.Bool.{Bool, true, false}
use pr_insight.Base.Fail.{Outcome, returned, raised}

abbrev pub Effect : Type 0 → Type 0 → Type 0
Effect S A = S → Outcome A × S

module _ {S : Type 0} where
  -- the rest of a body after a call
  abbrev pub after : {A B : Type 0} → Outcome A × S → (A → Effect S B) → Outcome B × S
  after (returned a, s) f = f a s
  after (raised e, s) f = (raised e, s)

  infixl 5 ◌>>=◌ ◌>>◌
  abbrev pub ◌>>=◌ : {A B : Type 0} → Effect S A → (A → Effect S B) → Effect S B
  ◌>>=◌ m f s = after (m s) f

  abbrev pub ◌>>◌ : {B : Type 0} → Effect S (Unit {0}) → Effect S B → Effect S B
  m >> k = m >>= λ _. k

  -- a value that needs no state
  abbrev pub pure : {A : Type 0} → A → Effect S A
  pure a s = (returned a, s)

  -- a computation that may raise and reads no state
  abbrev pub from : {A : Type 0} → Outcome A → Effect S A
  from m s = (m, s)

  -- what the state says
  abbrev pub reads : {A : Type 0} → (S → A) → Effect S A
  reads f s = (returned (f s), s)

  -- a change that does not raise
  abbrev pub modify : (S → S) → Effect S (Unit {0})
  modify f s = (returned tt, f s)

  -- `if b: m`
  abbrev pub when : Bool → Effect S (Unit {0}) → Effect S (Unit {0})
  when true m s = m s
  when false m s = (returned tt, s)

  abbrev pub caught : {A : Type 0} → A → Outcome A × S → Outcome A × S
  caught a (returned b, s) = (returned b, s)
  caught a (raised e, s) = (returned a, s)

  -- `try: m` with an `except Exception` after which the value is `a`
  abbrev pub rescue : {A : Type 0} → A → Effect S A → Effect S A
  rescue a m s = caught a (m s)
