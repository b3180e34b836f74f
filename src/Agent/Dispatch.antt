-- ===== src/Agent/Dispatch.antt =====
-- Which requests run a tool.
use pr_insight.Base.{
  Bool, any, true, false, List, [], ◌∷◌, ◌++◌, ◌≡◌, refl, arith, ap, append_assoc, append-nil,
  subst, if_cases,
}
use pr_insight.Base.Fail.{returned, and_then}
use pr_insight.Base.Text.{Str, contains, starts_with}
use pr_insight.Cli.Words.{is_refused, validate_refused}
use pr_insight.Agent.{World, add_language, separator, handle, checked}

starts_with-append : (p s : Str) → starts_with p (p ++ s) ≡ true
unfolding starts_with
starts_with-append [] s = refl
starts_with-append (c ∷ p) s = ground (arith, starts_with-append p s)

starts_with-contains : (p s : Str) → starts_with p s ≡ true → contains p s ≡ true
unfolding contains
starts_with-contains p [] h = h
starts_with-contains p (c ∷ s) h = ground (arith, h)

contains-itself : (p : Str) → contains p p ≡ true
contains-itself p =
    starts_with-contains p p
      (subst (λ t. starts_with p t ≡ true) (append-nil p) (starts_with-append p []))

contains-append : (p s : Str) → contains p (s ++ p) ≡ true
unfolding contains
contains-append p [] = contains-itself p
contains-append p (c ∷ s) = ground (arith, contains-append p s)

add_language-contains :
    (instruction current : Str) → contains instruction (add_language instruction current) ≡ true
unfolding add_language
add_language-contains instruction [] =
    if_cases (λ t. contains instruction t ≡ true) (contains instruction []) [] instruction (λ h. h)
      (λ h. contains-itself instruction)
add_language-contains instruction (c ∷ rest) =
    if_cases (λ t. contains instruction t ≡ true) (contains instruction (c ∷ rest)) (c ∷ rest)
      ((c ∷ rest) ++ (separator ++ instruction)) (λ h. h)
      (λ h.
        subst (λ t. contains instruction t ≡ true) (append_assoc (c ∷ rest) separator instruction)
          (contains-append instruction ((c ∷ rest) ++ separator)))

add_language_there :
    (instruction current : Str)
    → contains instruction current ≡ true
    → add_language instruction current ≡ current
unfolding add_language
add_language_there instruction current h = ground (arith, h)

-- A section has the instruction for the language after it was added, and adding it again changes
-- nothing, whatever the section said before.
pub add_language-add_language :
    (instruction current : Str)
    → (contains instruction (add_language instruction current) ≡ true)
      × (add_language instruction (add_language instruction current)
          ≡ add_language instruction current)
add_language-add_language instruction current =
    let there = add_language-contains instruction current in
    (there, add_language_there instruction (add_language instruction current) there)

module _ {S V : Type 0} (w : World S V) where
  -- A request with a forbidden word in one of its options, in any case of ASCII letters and with two
  -- underscores read as a dot, runs no tool and sets nothing, wherever the option stands and whatever
  -- the other arguments are: it comes to the settings of the repository and the answer False, or
  -- raises what reading those settings raises.
  pub handle-refused :
      (action : Str) (args : List Str) (s : S)
      → any is_refused args ≡ true
      → handle w (returned (action ∷ args)) s
        ≡ and_then (w.apply_repo_settings s) (λ s1. returned (false, s1))
  unfolding handle
  handle-refused action args s h =
      ap (λ (b : Bool). and_then (w.apply_repo_settings s) (λ s1. checked w action args b s1))
        (validate_refused args h)
