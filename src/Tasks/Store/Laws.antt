-- ===== src/Tasks/Store/Laws.antt =====
-- What the methods of the task store promise.
use lucy.Prelude.{
  ℕ, ◌≤◌, ◌≡◌, refl, Bool, true, ◌&&◌, not, Option, none, some, List, [], ◌∷◌, arith, ◌==◌, leb,
  if◌then◌else◌, keep, any, find, ok, err, All, Bool-cases, inl, inr, ◌∙◌,
}
use lucy.Tasks.Store.{
  Task, completed, not_found_or_completed, complete, update, is_completed, get, order_by, insert_by,
  due_or_zero, is_overdue, overdue, is_due_soon, due_soon,
}

any-insert_by :
    (p : Task → Bool) (key : Task → ℕ) (t : Task) (ts : List Task)
    → any p (insert_by key t ts) ≡ (if p t then true else any p ts)
any-insert_by p key t [] = refl
any-insert_by p key t (s ∷ ss) = ground (arith, any-insert_by p key t ss)

any-order_by :
    (p : Task → Bool) (key : Task → ℕ) (ts : List Task) → any p (order_by key ts) ≡ any p ts
any-order_by p key [] = refl
any-order_by p key (t ∷ ts) =
    ground (arith, any-insert_by p key t (order_by key ts), any-order_by p key ts)

pub any-keep : (p q : Task → Bool) (ts : List Task) → any p (keep q ts) ≡ any (λ t. q t && p t) ts
any-keep p q [] = refl
any-keep p q (t ∷ ts) = ground (arith, any-keep p q ts)

-- Each key is at most those that follow.
abbrev pub IsSortedBy : (Task → ℕ) → List Task → Type 0
IsSortedBy key [] = Unit {0}
IsSortedBy key (t ∷ ts) = All (λ s. key t ≤ key s) ts × IsSortedBy key ts

All-insert_by :
    (key : Task → ℕ) (n : ℕ) (t : Task) (ts : List Task)
    → n ≤ key t
    → All (λ s. n ≤ key s) ts
    → All (λ s. n ≤ key s) (insert_by key t ts)
All-insert_by key n t [] h k = (h, tt)
All-insert_by key n t (s ∷ ss) h k = ground (arith, All-insert_by key n t ss)

All-le_trans :
    (key : Task → ℕ) (m n : ℕ) (ts : List Task)
    → m ≤ n
    → All (λ s. n ≤ key s) ts
    → All (λ s. m ≤ key s) ts
All-le_trans key m n [] h k = tt
All-le_trans key m n (t ∷ ts) h k = (omega arith, All-le_trans key m n ts h k.1)

insert_by-IsSortedBy :
    (key : Task → ℕ) (t : Task) (ts : List Task)
    → IsSortedBy key ts
    → IsSortedBy key (insert_by key t ts)
insert_by-IsSortedBy key t [] h = (tt, tt)
insert_by-IsSortedBy key t (s ∷ ss) h = elim (Bool-cases (leb (key t) (key s))) [
  | inl e ↦ rw e ((ground arith, All-le_trans key (key t) (key s) ss (ground arith) h.0), h)
  | inr e ↦
      rw e (All-insert_by key (key s) t ss (ground arith) h.0, insert_by-IsSortedBy key t ss h.1)
]

order_by-IsSortedBy : (key : Task → ℕ) (ts : List Task) → IsSortedBy key (order_by key ts)
order_by-IsSortedBy key [] = tt
order_by-IsSortedBy key (t ∷ ts) =
    insert_by-IsSortedBy key t (order_by key ts) (order_by-IsSortedBy key ts)

-- `overdue` lists, by due date, exactly the open tasks whose due date is past: a test holds of some task
-- listed if and only if it holds of some such task of the table.
pub overdue_exact :
    (now : ℕ) (p : Task → Bool) (ts : List Task)
    → (any p (overdue now ts) ≡ any (λ t. is_overdue now t && p t) ts)
      × IsSortedBy due_or_zero (overdue now ts)
unfolding overdue
overdue_exact now p ts = (
  any-order_by p due_or_zero (keep (is_overdue now) ts) ∙ any-keep p (is_overdue now) ts,
  order_by-IsSortedBy due_or_zero (keep (is_overdue now) ts),
)

pub any-due_soon :
    (now within : ℕ) (p : Task → Bool) (ts : List Task)
    → any p (due_soon now within ts) ≡ any (λ t. is_due_soon now within t && p t) ts
unfolding due_soon
any-due_soon now within p ts =
    any-order_by p due_or_zero (keep (is_due_soon now within) ts)
    ∙ any-keep p (is_due_soon now within) ts

-- the condition and the change of `complete`
abbrev may_complete : ℕ → Task → Bool
may_complete id t = t.id == id && not (is_completed t.status)

abbrev finish : ℕ → Task → Task
finish now t = record t { status = completed; completed_at = some now }

update_none :
    (id now now' : ℕ) (ts : List Task)
    → (update (may_complete id) (finish now') (update (may_complete id) (finish now) ts).0).1 ≡ 0
update_none id now now' [] = refl
update_none id now now' (t ∷ ts) = elim (Bool-cases (may_complete id t)) [
  | inl e ↦ rw e (ground (arith, update_none id now now' ts))
  | inr e ↦ rw (e, update) (rw e (update_none id now now' ts))
]

-- a row that `complete` leaves, or the completed row
abbrev after_complete : ℕ → ℕ → Option Task → Option Task
after_complete now id none = none
after_complete now id (some t) = some (if may_complete id t then finish now t else t)

get-update :
    (id now j : ℕ) (ts : List Task)
    → find (λ t. t.id == j) (update (may_complete id) (finish now) ts).0
      ≡ after_complete now id (find (λ t. t.id == j) ts)
get-update id now j [] = refl
get-update id now j (t ∷ ts) = ground (arith, get-update id now j ts)

complete_rows :
    (now id : ℕ) (ts us : List Task)
    → complete now id ts ≡ ok us
    → (update (may_complete id) (finish now) ts).0 ≡ us
unfolding complete
complete_rows now id ts us h = ground arith

-- When `complete` succeeds, completing the task again fails, whatever the time; and of any id, `get`
-- finds the row that it found before, with the status and the completion time set if it is the row of
-- that id and was not completed.
pub complete_once :
    (now now' id j : ℕ) (ts us : List Task)
    → complete now id ts ≡ ok us
    → (complete now' id us ≡ err (not_found_or_completed id))
      × (get j us ≡ elim (get j ts) [
        | none ↦ none
        | some t ↦ some (
            if t.id == id && not (is_completed t.status)
            then record t { status = completed; completed_at = some now }
            else t)
      ])
unfolding complete get
complete_once now now' id j ts us h =
    let rows = complete_rows now id ts us h in
    (
      rw (← rows) (ground (arith, update_none id now now' ts)),
      rw (← rows) (ground (arith, get-update id now j ts)),
    )
