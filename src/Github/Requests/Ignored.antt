-- ===== src/Github/Requests/Ignored.antt =====
-- Which requests change nothing.
use pr_insight.Base.{
  Bool, true, false, not, some, none, ◌||◌, ◌≡◌, refl, Bool-cases, inl, inr, if_either,
}
use pr_insight.Base.Effect.{Effect, when}
use pr_insight.Base.Fail.{returned}
use pr_insight.Base.Json.{
  Value, Fields, text, object, boolean, null, or_else, lookup_field, truthy, is_text, has_field,
}
use pr_insight.Base.Text.{Str, codes, str_eq}
use pr_insight.Github.Filters.{sender_of}
use pr_insight.Github.World.{World}
use pr_insight.Github.Commands.{
  if_open, check_pull_request_event, handle_new_pr_opened, handle_push_trigger,
}
use pr_insight.Github.Requests.{handle_request, is_ignored, route, pull_request_event}

-- `d.get(k, default)`
abbrev value_of : Str → Value → Fields → Value
value_of k default d = or_else default (lookup_field k d)

-- The pull request says that it is a draft, or does not say that it is none, or is not open.
abbrev pub IsDraft : Fields → Type 0
IsDraft p =
    (truthy (value_of (codes "draft") (boolean true) p)
      || not (is_text (codes "open") (value_of (codes "state") null p)))
    ≡ true

draft_refused :
    (action url : Value) (p : Fields) → IsDraft p → if_open action (object p) url ≡ returned none
draft_refused action url p k = rw k

check-draft :
    (action : Value) (d p : Fields)
    → lookup_field (codes "pull_request") d ≡ some (object p)
    → IsDraft p
    → check_pull_request_event action (object d) ≡ returned none
unfolding check_pull_request_event
check-draft action d p h k = rw h (
    if_either (λ x. x ≡ returned none) (truthy (object p)) _ (returned none)
      (if_either (λ x. x ≡ returned none) (truthy (value_of (codes "url") null p)) _ (returned none)
        (draft_refused action (value_of (codes "url") null p) p k) refl)
      refl)

when_either :
    {S : Type 0} (b : Bool) (m : Effect S (Unit {0})) (s : S)
    → m s ≡ (returned tt, s)
    → when b m s ≡ (returned tt, s)
when_either true m s h = h
when_either false m s h = refl

module _ {S V : Type 0} (w : World S V) where
  push-draft :
      (action id : Value) (d p : Fields) (s : S)
      → lookup_field (codes "pull_request") d ≡ some (object p)
      → IsDraft p
      → handle_push_trigger w action (object d) id s ≡ (returned tt, s)
  unfolding handle_push_trigger
  push-draft action id d p s h k = rw (check-draft action d p h k)

  opened-draft :
      (action id : Value) (d p : Fields) (s : S)
      → lookup_field (codes "pull_request") d ≡ some (object p)
      → IsDraft p
      → handle_new_pr_opened w action (object d) id s ≡ (returned tt, s)
  unfolding handle_new_pr_opened
  opened-draft action id d p s h k = rw (h, check-draft action d p h k)

  pull_request_event-draft :
      (action : Str) (id : Value) (d p : Fields) (s : S)
      → lookup_field (codes "pull_request") d ≡ some (object p)
      → is_text (codes "closed") (text action) ≡ false
      → IsDraft p
      → pull_request_event w (object d) (text action) id s ≡ (returned tt, s)
  pull_request_event-draft action id d p s h hclosed k =
      elim (Bool-cases (is_text (codes "synchronize") (text action))) [
        | inl e ↦ rw e (push-draft (text action) id d p s h k)
        | inr e ↦ rw (e, hclosed) (opened-draft (text action) id d p s h k)
      ]

  route-draft :
      (action : Str) (id : Value) (d p : Fields) (check_run : Bool) (s : S)
      → lookup_field (codes "pull_request") d ≡ some (object p)
      → is_text (codes "created") (text action) ≡ false
      → is_text (codes "closed") (text action) ≡ false
      → IsDraft p
      → route w (object d) (text (codes "pull_request")) (text action) id check_run s
        ≡ (returned tt, s)
  unfolding is_text str_eq
  route-draft action id d p true s h hcreated hclosed k = refl
  route-draft action id d p false s h hcreated hclosed k =
      rw hcreated (pull_request_event-draft action id d p s h hclosed k)

  -- A pull request event other than its creation or its close changes nothing, neither settings nor
  -- anything else, if the pull request is a draft, does not say whether it is one, or is not open.
  pub handle_request-draft :
      (action : Str) (d p : Fields) (s : S)
      → lookup_field (codes "action") d ≡ some (text action)
      → lookup_field (codes "pull_request") d ≡ some (object p)
      → is_text (codes "created") (text action) ≡ false
      → is_text (codes "closed") (text action) ≡ false
      → IsDraft p
      → handle_request w (object d) (text (codes "pull_request")) s ≡ (returned tt, s)
  unfolding handle_request
  handle_request-draft action d p s ha hp hcreated hclosed k = rw ha (
      when_either (truthy (text action)) _ s (
        when_either
          (not (
            is_ignored w (w.settings s) (object d) (text action) (has_field (codes "check_run") d)))
          _ s
          (route-draft action (sender_of (object d)).id d p (has_field (codes "check_run") d) s hp
            hcreated hclosed k)))
