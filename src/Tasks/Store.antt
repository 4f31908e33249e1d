-- ===== src/Tasks/Store.antt =====
-- `TaskStore` of crates/lucy-tasks/src/lib.rs: the table `tasks` is the list of its rows, and each
-- method is its SQL statement on them. Time is in seconds, below 2^63.
pub mod Laws
use lucy.Prelude.{
  ℕ, ◌+◌, Bool, true, false, ◌&&◌, ◌||◌, not, Option, none, some, List, [], ◌∷◌, ◌++◌, ◌==◌, ltb,
  leb, if◌then◌else◌, keep, find, Result, ok, err, length, any, map,
}
use lucy.Text.{Text, codes, text_eq}

pub data TaskStatus : Type 0 where
  pending in_progress completed cancelled : TaskStatus

pub data TaskPriority : Type 0 where
  low medium high urgent : TaskPriority

unfoldable pub status_str : TaskStatus → Text
status_str pending = codes "pending"
status_str in_progress = codes "in_progress"
status_str completed = codes "completed"
status_str cancelled = codes "cancelled"

unfoldable pub status_from_str : Text → Option TaskStatus
status_from_str s =
    if text_eq s (codes "pending")
    then some pending
    else if text_eq s (codes "in_progress")
    then some in_progress
    else if text_eq s (codes "completed")
    then some completed
    else if text_eq s (codes "cancelled")
    then some cancelled
    else none

unfoldable pub priority_str : TaskPriority → Text
priority_str low = codes "low"
priority_str medium = codes "medium"
priority_str high = codes "high"
priority_str urgent = codes "urgent"

unfoldable pub priority_from_str : Text → Option TaskPriority
priority_from_str s =
    if text_eq s (codes "low")
    then some low
    else if text_eq s (codes "medium")
    then some medium
    else if text_eq s (codes "high")
    then some high
    else if text_eq s (codes "urgent")
    then some urgent
    else none

-- `id` is the number of a UUID.
pub record Task : Type 0 where
  pub id : ℕ
  pub title : Text
  pub description : Option Text
  pub status : TaskStatus
  pub priority : TaskPriority
  pub due_at : Option ℕ
  pub created_at : ℕ
  pub completed_at : Option ℕ
  pub tags : List Text

abbrev pub new_task : ℕ → Text → ℕ → Task
new_task id title now = record {
  id = id;
  title = title;
  description = none;
  status = pending;
  priority = medium;
  due_at = none;
  created_at = now;
  completed_at = none;
  tags = [];
}

pub data StoreError : Type 0 where
  duplicate_id not_found not_found_or_completed : ℕ → StoreError

-- `INSERT`: the id is the primary key
unfoldable pub add : Task → List Task → Result StoreError (List Task)
add t ts = if any (λ s. s.id == t.id) ts then err (duplicate_id t.id) else ok (ts ++ t ∷ [])

abbrev pub is_completed : TaskStatus → Bool
is_completed completed = true
is_completed s = false

-- `UPDATE … WHERE p`: the new rows and the number of rows changed
abbrev update : (Task → Bool) → (Task → Task) → List Task → List Task × ℕ
update p f [] = ([], 0)
update p f (t ∷ ts) =
    let (rest, n) = update p f ts in if p t then (f t ∷ rest, n + 1) else (t ∷ rest, n)

abbrev rows_or : StoreError → List Task × ℕ → Result StoreError (List Task)
rows_or e (ts, n) = if n == 0 then err e else ok ts

unfoldable pub complete : ℕ → ℕ → List Task → Result StoreError (List Task)
complete now id ts = rows_or (not_found_or_completed id) (
    update (λ t. t.id == id && not (is_completed t.status))
      (λ t. record t { status = completed; completed_at = some now }) ts)

unfoldable pub set_status : ℕ → TaskStatus → List Task → Result StoreError (List Task)
set_status id s ts =
    rows_or (not_found id) (update (λ t. t.id == id) (λ t. record t { status = s }) ts)

unfoldable pub delete : ℕ → List Task → Result StoreError (List Task)
delete id ts =
    if any (λ t. t.id == id) ts then ok (keep (λ t. not (t.id == id)) ts) else err (not_found id)

unfoldable pub get : ℕ → List Task → Option Task
get id ts = find (λ t. t.id == id) ts

-- `ORDER BY key ASC`, by insertion: rows of one key keep their order
abbrev insert_by : (Task → ℕ) → Task → List Task → List Task
insert_by key t [] = t ∷ []
insert_by key t (s ∷ ss) = if leb (key t) (key s) then t ∷ s ∷ ss else s ∷ insert_by key t ss

abbrev pub order_by : (Task → ℕ) → List Task → List Task
order_by key [] = []
order_by key (t ∷ ts) = insert_by key t (order_by key ts)

abbrev insert_by_desc : (Task → ℕ) → Task → List Task → List Task
insert_by_desc key t [] = t ∷ []
insert_by_desc key t (s ∷ ss) =
    if leb (key s) (key t) then t ∷ s ∷ ss else s ∷ insert_by_desc key t ss

abbrev pub order_by_desc : (Task → ℕ) → List Task → List Task
order_by_desc key [] = []
order_by_desc key (t ∷ ts) = insert_by_desc key t (order_by_desc key ts)

-- `status IN ('pending', 'in_progress')`
unfoldable pub is_open : TaskStatus → Bool
is_open pending = true
is_open in_progress = true
is_open s = false

abbrev pub due_or_zero : Task → ℕ
due_or_zero t = elim t.due_at [ none ↦ 0 | some d ↦ d ]

unfoldable pub is_overdue : ℕ → Task → Bool
is_overdue now t = is_open t.status && elim t.due_at [ none ↦ false | some d ↦ ltb d now ]

unfoldable pub overdue : ℕ → List Task → List Task
unfolding is_overdue is_open
overdue now ts = order_by due_or_zero (keep (is_overdue now) ts)

unfoldable pub is_due_soon : ℕ → ℕ → Task → Bool
is_due_soon now within t =
    is_open t.status && elim t.due_at [ none ↦ false | some d ↦ leb now d && leb d (now + within) ]

unfoldable pub due_soon : ℕ → ℕ → List Task → List Task
unfolding is_due_soon is_open
due_soon now within ts = order_by due_or_zero (keep (is_due_soon now within) ts)

unfoldable pub list : List Task → List Task
list ts = order_by_desc (λ t. t.created_at) ts
