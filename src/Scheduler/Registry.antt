-- ===== src/Scheduler/Registry.antt =====
-- `Scheduler` of crates/lucy-scheduler/src/lib.rs: the registry of scheduled tasks. A task's number is
-- its id, and the registry is the list of its tasks, one for an id. Calls of `run_pending` are cut where
-- they wait for a goal to run, so that other calls may come between.
pub mod Cancelled
mod Tests
use lucy.Prelude.{
  ℕ, zero, suc, ◌≡◌, Bool, true, false, ◌&&◌, not, Option, none, some, List, [], ◌∷◌, ◌++◌, ◌==◌,
  leb, if◌then◌else◌, any, keep, find, map, Result, ok, err,
}
use lucy.Text.{Text, codes}
use lucy.Scheduler.Cron.{CronExpression, CronError}
use lucy.Scheduler.Cron.Expression.{parse}
use lucy.Scheduler.Cron.Next.{Chrono, next_after}

pub data DeliveryChannel : Type 0 where
  tui gateway : DeliveryChannel
  webhook : Text → DeliveryChannel

pub record DeliveryConfig : Type 0 where
  pub channel : DeliveryChannel
  pub destination : Text

-- `DeliveryConfig::tui`, the default
abbrev pub tui_delivery : DeliveryConfig
tui_delivery = record { channel = tui; destination = codes "default" }

pub record ScheduledTask : Type 0 where
  pub id : ℕ
  pub name : Text
  pub schedule : Text
  pub cron : CronExpression
  pub goal : Text
  pub delivery : DeliveryConfig
  pub created_at : ℕ
  pub next_run : Option ℕ
  pub last_run : Option ℕ
  pub enabled : Bool

pub record TaskResult : Type 0 where
  pub task_id : ℕ
  pub goal : Text
  pub success : Bool
  pub output : Text
  pub timestamp : ℕ

-- `running` are the copies of due tasks whose goals are run, `results` what the calls of `run_pending`
-- have returned.
pub record Registry : Type 0 where
  pub tasks : List ScheduledTask
  pub running : List ScheduledTask
  pub results : List TaskResult

abbrev pub has_id : ℕ → ScheduledTask → Bool
has_id id t = t.id == id

unfoldable pub get_task : ℕ → Registry → Option ScheduledTask
get_task id s = find (has_id id) s.tasks

unfoldable pub schedule_task : ScheduledTask → Registry → Registry
schedule_task t s = record s { tasks = t ∷ keep (λ u. not (u.id == t.id)) s.tasks }

abbrev pub disabled : ScheduledTask → ScheduledTask
disabled t = record t { enabled = false; next_run = none }

abbrev pub modify_task :
    ℕ → (ScheduledTask → ScheduledTask) → List ScheduledTask → List ScheduledTask
modify_task id f [] = []
modify_task id f (t ∷ ts) =
    let rest = modify_task id f ts in if t.id == id then f t ∷ rest else t ∷ rest

unfoldable pub cancel_task : ℕ → Registry → Registry × Bool
cancel_task id s = (record s { tasks = modify_task id disabled s.tasks }, any (has_id id) s.tasks)

unfoldable pub remove_task : ℕ → Registry → Registry × Bool
remove_task id s =
    (record s { tasks = keep (λ u. not (u.id == id)) s.tasks }, any (has_id id) s.tasks)

abbrev pub reached : ℕ → Option ℕ → Bool
reached now none = false
reached now (some n) = leb n now

abbrev pub is_due : ℕ → ScheduledTask → Bool
is_due now t = t.enabled && reached now t.next_run

unfoldable pub due : ℕ → Registry → List ScheduledTask
due now s = keep (is_due now) s.tasks

abbrev pub outcome : Result Text Text → Bool × Text
outcome (ok out) = (true, out)
outcome (err e) = (false, e)

abbrev result_of : ScheduledTask → Result Text Text → ℕ → TaskResult
result_of t r timestamp = record {
  task_id = t.id;
  goal = t.goal;
  success = (outcome r).0;
  output = (outcome r).1;
  timestamp = timestamp;
}

abbrev pub nth_task : ℕ → List ScheduledTask → Option ScheduledTask
nth_task i [] = none
nth_task zero (t ∷ ts) = some t
nth_task (suc i) (t ∷ ts) = nth_task i ts

abbrev pub drop_nth : ℕ → List ScheduledTask → List ScheduledTask
drop_nth i [] = []
drop_nth zero (t ∷ ts) = ts
drop_nth (suc i) (t ∷ ts) = t ∷ drop_nth i ts

-- What happens to the registry, in any order.
pub data Action : Type 0 where
  schedules : ScheduledTask → Action
  cancels removes : ℕ → Action
  -- `run_pending` reads the clock and copies the due tasks
  begins : ℕ → Action
  -- the goal of a running copy has answered, at the time: the stored task is armed again
  finishes : ℕ → Result Text Text → ℕ → Action

-- `DateTime::from_timestamp`, and `timestamp` with negative times as 0
module _ (c : Chrono) (from_timestamp : ℕ → Option c.Time) (timestamp : c.Time → ℕ) where
  abbrev stamp : Option c.Time → Option ℕ
  stamp none = none
  stamp (some t) = some (timestamp t)

  abbrev next_from : CronExpression → Option c.Time → Option ℕ
  next_from e none = none
  next_from e (some t) = stamp (next_after c e t)

  unfoldable pub next_run_after : CronExpression → ℕ → Option ℕ
  next_run_after e now = next_from e (from_timestamp now)

  abbrev with_cron :
      ℕ
      → Text
      → Text
      → Text
      → DeliveryConfig
      → c.Time
      → ℕ
      → Result CronError CronExpression
      → Result CronError ScheduledTask
  with_cron id name schedule goal delivery utc_now now (err e) = err e
  with_cron id name schedule goal delivery utc_now now (ok cron) = ok (record {
    id = id;
    name = name;
    schedule = schedule;
    cron = cron;
    goal = goal;
    delivery = delivery;
    created_at = now;
    next_run = stamp (next_after c cron utc_now);
    last_run = none;
    enabled = true;
  })

  -- `ScheduledTask::new`, with the new id and the two readings of the clock
  unfoldable pub new_scheduled :
      ℕ → Text → Text → Text → DeliveryConfig → c.Time → ℕ → Result CronError ScheduledTask
  new_scheduled id name schedule goal delivery utc_now now =
      with_cron id name schedule goal delivery utc_now now (parse schedule)

  abbrev armed : ScheduledTask → ℕ → ScheduledTask → ScheduledTask
  armed run timestamp t = record t {
    last_run = some timestamp;
    next_run = next_run_after run.cron timestamp;
  }

  abbrev finish_run : ℕ → Result Text Text → ℕ → Registry → Option ScheduledTask → Registry
  finish_run i r timestamp s none = s
  finish_run i r timestamp s (some t) = record {
    tasks = modify_task t.id (armed t timestamp) s.tasks;
    running = drop_nth i s.running;
    results = s.results ++ result_of t r timestamp ∷ [];
  }

  unfoldable pub act : Action → Registry → Registry
  unfolding schedule_task cancel_task remove_task due
  act (schedules t) s = schedule_task t s
  act (cancels id) s = (cancel_task id s).0
  act (removes id) s = (remove_task id s).0
  act (begins now) s = record s { running = s.running ++ due now s }
  act (finishes i r timestamp) s = finish_run i r timestamp s (nth_task i s.running)

  unfoldable pub act_all : List Action → Registry → Registry
  unfolding act
  act_all [] s = s
  act_all (a ∷ rest) s = act_all rest (act a s)
