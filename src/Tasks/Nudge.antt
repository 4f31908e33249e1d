-- ===== src/Tasks/Nudge.antt =====
-- `TaskNudge::nudges` of crates/lucy-tasks/src/nudge.rs. The clock is read three times: by `nudges`
-- itself, by `overdue` and by `due_soon`.
pub mod Disjoint
use lucy.Prelude.{
  ℕ, ◌+◌, ◌-◌, ◌*◌, ◌/◌, Bool, true, false, ◌&&◌, Option, none, some, List, [], ◌∷◌, ◌++◌, ◌==◌,
  ltb, leb, max, if◌then◌else◌, map, keep,
}
use lucy.Text.{Text, codes}
use lucy.Text.Decimal.{show_u32}
use lucy.Tasks.Store.{Task, TaskStatus, in_progress, overdue, due_soon, list}

pub data NudgeType : Type 0 where
  due_soon_nudge overdue_nudge stalled : NudgeType

pub record Nudge : Type 0 where
  pub task : Task
  pub nudge_type : NudgeType
  pub message : Text

abbrev pub plural : Bool → Text
plural one = if one then [] else codes "s"

abbrev pub titled : Task → Text → Text
titled t rest = codes "Task \"" ++ (t.title ++ (codes "\" " ++ rest))

abbrev pub overdue_message : ℕ → Task → Option ℕ → Text
overdue_message now t none = titled t (codes "is overdue")
overdue_message now t (some due_at) =
    let hours = (now - due_at) / 3600 in
    let mins = (now - due_at) / 60 in
    if ltb 0 hours
    then titled t
        (codes "is overdue by " ++ (show_u32 hours ++ (codes " hour" ++ plural (hours == 1))))
    else titled t (
        codes "is overdue by "
        ++ (show_u32 (max mins 1) ++ (codes " minute" ++ plural (leb mins 1))))

abbrev pub due_soon_message : ℕ → Task → Option ℕ → Text
due_soon_message now t none = titled t (codes "is due soon")
due_soon_message now t (some due_at) =
    let mins = (due_at - now) / 60 in
    if ltb 0 mins
    then titled t (codes "is due in " ++ (show_u32 mins ++ (codes " minute" ++ plural (mins == 1))))
    else titled t (codes "is due very soon")

unfoldable pub overdue_nudges : ℕ → List Task → List Nudge
overdue_nudges now [] = []
overdue_nudges now (t ∷ ts) =
    record { task = t; nudge_type = overdue_nudge; message = overdue_message now t t.due_at }
    ∷ overdue_nudges now ts

abbrev pub past : ℕ → Option ℕ → Bool
past now none = false
past now (some d) = ltb d now

unfoldable pub due_soon_nudges : ℕ → List Task → List Nudge
due_soon_nudges now [] = []
due_soon_nudges now (t ∷ ts) =
    let rest = due_soon_nudges now ts in
    if past now t.due_at
    then rest
    else record { task = t; nudge_type = due_soon_nudge; message = due_soon_message now t t.due_at }
      ∷ rest

abbrev pub is_in_progress : TaskStatus → Bool
is_in_progress in_progress = true
is_in_progress s = false

unfoldable pub stalled_nudges : ℕ → List Task → List Nudge
stalled_nudges now [] = []
stalled_nudges now (t ∷ ts) =
    let rest = stalled_nudges now ts in
    let days = (now - t.created_at) / 86400 in
    if is_in_progress t.status && ltb 86400 (now - t.created_at)
    then record {
      task = t;
      nudge_type = stalled;
      message = titled t (
          codes "has been in progress for "
          ++ (show_u32 days ++ (codes " day" ++ plural (days == 1))));
    }
      ∷ rest
    else rest

unfoldable pub nudges : ℕ → ℕ → ℕ → List Task → List Nudge
unfolding overdue_nudges due_soon_nudges stalled_nudges
nudges now at_overdue at_due_soon ts =
    overdue_nudges now (overdue at_overdue ts)
    ++ (due_soon_nudges now (due_soon at_due_soon 3600 ts) ++ stalled_nudges now (list ts))
