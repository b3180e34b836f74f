-- ===== src/Github/Trigger.antt =====
-- The pushes of a pull request: how `handle_push_trigger_for_new_commits` of
-- pr_insight/servers/github_app.py counts the tasks of one url and lets a second one wait.
--
-- Tasks run one at a time and switch only where they wait. The lock of a condition is held over no
-- wait but that of the condition, so it is free whenever a task asks for it, and what a task does from
-- its arrival to its work or its wait is one step. A second step is the `finally` of a task. The
-- work between, which may raise, touches neither the count nor the waiters. The entries of both
-- dicts stay: that they expire is in Servers.Timeouts.
pub mod Safe
use pr_insight.Base.{
  ℕ, Bool, true, false, List, [], ◌∷◌, ◌++◌, ◌≡◌, In, select, not, ◌==◌, if◌then◌else◌,
}
use pr_insight.Base.Int.{ℤ, pos, ◌+ℤ◌, ◌-ℤ◌, ltb_ℤ, eqb_ℤ}
use pr_insight.Base.Text.{Str, str_eq}

-- What the process holds for a url: `_duplicate_push_triggers[api_url]`, the tasks at work, those
-- that wait for `_pending_task_duplicate_push_conditions[api_url]`, first come first, and those that
-- were skipped.
pub record Slot : Type 0 where
  pub count : ℤ
  pub working : List ℕ
  pub waiting : List ℕ
  pub skipped : List ℕ

-- before the first push of a url; `setdefault` makes the count 0
abbrev pub unused : Slot
unused = record { count = pos 0; working = []; waiting = []; skipped = [] }

-- `max_active_tasks`
abbrev pub max_active_tasks : Bool → ℤ
max_active_tasks backlog = if backlog then pos 2 else pos 1

-- the task enters with this count of active tasks before it
abbrev entered : ℤ → ℕ → Slot → Slot
entered current_active_tasks task s =
    if eqb_ℤ current_active_tasks (pos 1)
    then record s { waiting = s.waiting ++ task ∷ [] }
    else record s { working = s.working ++ task ∷ [] }

-- a push arrives: `backlog` is `push_trigger_pending_tasks_backlog`
unfoldable pub arrive : Bool → ℕ → Slot → Slot
unfolding ◌+ℤ◌
arrive backlog task s =
    if ltb_ℤ s.count (max_active_tasks backlog)
    then entered s.count task (record s { count = s.count +ℤ pos 1 })
    else record s { skipped = s.skipped ++ task ∷ [] }

-- `notify(1)`
abbrev notify : List ℕ → Slot → Slot
notify [] s = s
notify (task ∷ rest) s = record s { waiting = rest; working = s.working ++ task ∷ [] }

-- the `finally` of a task at work
unfoldable pub leave : ℕ → Slot → Slot
unfolding ◌-ℤ◌
leave task s =
    let others = record s { working = select (λ t. not (t == task)) s.working } in
    let notified = notify others.waiting others in
    record notified { count = notified.count -ℤ pos 1 }

-- the slots of all urls
abbrev pub Slots : Type 0
Slots = Str → Slot

abbrev pub at : Str → (Slot → Slot) → Slots → Slots
at url f slots u = if str_eq u url then f (slots u) else slots u

pub data Step : Slots → Slots → Type 0 where
  push :
      (url : Str) (backlog : Bool) (task : ℕ) (s : Slots) → Step s (at url (arrive backlog task) s)
  done :
      (url : Str) (task : ℕ) (s : Slots) → In task (s url).working → Step s (at url (leave task) s)

pub data Reach : Slots → Type 0 where
  start : Reach (λ u. unused)
  later : {s t : Slots} → Reach s → Step s t → Reach t
