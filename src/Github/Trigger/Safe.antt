-- ===== src/Github/Trigger/Safe.antt =====
-- What holds of the tasks of a pull request after any pushes and ends of tasks.
use pr_insight.Base.{
  ℕ, Bool, true, false, List, [], ◌∷◌, ◌≡◌, ◌⊎◌, refl, arith, In, if_cases, ◌==◌, inl, inr, subst,
  sym, if_either,
}
use pr_insight.Base.Int.{ℤ, pos}
use pr_insight.Base.Text.{Str, str_eq, str_eq_iff}
use pr_insight.Github.Trigger.{Slot, arrive, leave, Slots, Step, push, done, Reach, start, later}

-- at most one task works and at most one waits, none waits unless one works, and the count is that
-- of both
pub data Orderly : ℤ → List ℕ → List ℕ → Type 0 where
  idle : Orderly (pos 0) [] []
  busy : (a : ℕ) → Orderly (pos 1) (a ∷ []) []
  queued : (a b : ℕ) → Orderly (pos 2) (a ∷ []) (b ∷ [])

abbrev pub IsOrderly : Slot → Type 0
IsOrderly s = Orderly s.count s.working s.waiting

arrive-Orderly :
    (backlog : Bool) (task : ℕ) {count : ℤ} {working waiting : List ℕ} (skipped : List ℕ)
    → Orderly count working waiting
    → IsOrderly (
        arrive backlog task
          (record { count = count; working = working; waiting = waiting; skipped = skipped }))
unfolding arrive
arrive-Orderly true task skipped idle = busy task
arrive-Orderly false task skipped idle = busy task
arrive-Orderly true task skipped (busy a) = queued a task
arrive-Orderly false task skipped (busy a) = busy a
arrive-Orderly true task skipped (queued a b) = queued a b
arrive-Orderly false task skipped (queued a b) = queued a b

test_self : (task a : ℕ) → In task (a ∷ []) → (a == task) ≡ true
test_self task a (inl e) = ground arith
test_self task a (inr h) = elim h [ ]

leave-Orderly :
    (task : ℕ) {count : ℤ} {working waiting : List ℕ} (skipped : List ℕ)
    → Orderly count working waiting
    → In task working
    → IsOrderly (
        leave task
          (record { count = count; working = working; waiting = waiting; skipped = skipped }))
unfolding leave
leave-Orderly task skipped idle h = elim h [ ]
leave-Orderly task skipped (busy a) h = rw (test_self task a h) idle
leave-Orderly task skipped (queued a b) h = rw (test_self task a h) (busy b)

Step-Orderly :
    {s t : Slots} → Step s t → ((u : Str) → IsOrderly (s u)) → (url : Str) → IsOrderly (t url)
Step-Orderly (push url backlog task s) h u =
    if_either IsOrderly (str_eq u url) (arrive backlog task (s u)) (s u)
      (arrive-Orderly backlog task (s u).skipped (h u)) (h u)
Step-Orderly (done url task s there) h u =
    if_cases IsOrderly (str_eq u url) (leave task (s u)) (s u)
      (λ e.
        leave-Orderly task (s u).skipped (h u)
          (subst (λ v. In task (s v).working) (sym ((str_eq_iff u url).0 e)) there))
      (λ _. h u)

-- Whatever pushes arrive and tasks end, for every url at most one task works and at most one waits,
-- none waits unless one works, and the count is the number of both.
pub Reach-Orderly : {s : Slots} → Reach s → (url : Str) → IsOrderly (s url)
Reach-Orderly start url = idle
Reach-Orderly (later r st) url = Step-Orderly st (Reach-Orderly r) url

-- one task works, and at its end the given task does
abbrev pub WorksNext : ℕ → Slot → Type 0
WorksNext task s =
    (a : ℕ) × (s.working ≡ a ∷ []) × ((leave a s).working ≡ task ∷ []) × ((leave a s).waiting ≡ [])

Orderly-WorksNext :
    (task : ℕ) {count : ℤ} {working waiting : List ℕ} (skipped : List ℕ)
    → Orderly count working waiting
    → In task waiting
    → WorksNext task
        (record { count = count; working = working; waiting = waiting; skipped = skipped })
unfolding leave
Orderly-WorksNext task skipped idle h = elim h [ ]
Orderly-WorksNext task skipped (busy a) h = elim h [ ]
Orderly-WorksNext task skipped (queued a b) (inl e) = (a, refl, ground (arith, e), ground arith)
Orderly-WorksNext task skipped (queued a b) (inr h) = elim h [ ]

-- A task that waits is not forgotten: another one works, and the end of that one lets it work, with
-- no task left to wait.
pub waiting-WorksNext :
    {s : Slots}
    → Reach s
    → (url : Str) (task : ℕ) → In task (s url).waiting
    → WorksNext task (s url)
waiting-WorksNext {s} r url task h = Orderly-WorksNext task (s url).skipped (Reach-Orderly r url) h

-- the push is worked on, or a task that has not begun its work waits
abbrev pub IsCovered : ℕ → Slot → Type 0
IsCovered task s = (s.working ≡ task ∷ []) ⊎ ((b : ℕ) × (s.waiting ≡ b ∷ []))

Orderly-IsCovered :
    (task : ℕ) {count : ℤ} {working waiting : List ℕ} (skipped : List ℕ)
    → Orderly count working waiting
    → IsCovered task (
        arrive true task
          (record { count = count; working = working; waiting = waiting; skipped = skipped }))
unfolding arrive
Orderly-IsCovered task skipped idle = inl refl
Orderly-IsCovered task skipped (busy a) = inr (task, refl)
Orderly-IsCovered task skipped (queued a b) = inr (b, refl)

-- With the backlog no commit is missed: after a push, skipped or not, its own task works, alone, or
-- some task waits that begins its work only later.
pub arrive-IsCovered :
    {s : Slots} → Reach s → (url : Str) (task : ℕ) → IsCovered task (arrive true task (s url))
arrive-IsCovered {s} r url task = Orderly-IsCovered task (s url).skipped (Reach-Orderly r url)
