-- ===== src/Scheduler/Registry/Tests.antt =====
-- The registry with one task that fires each half hour.
use lucy.Prelude.{
  ◌≤◌, ℕ, ◌*◌, ◌/◌, ◌≡◌, refl, false, true, some, none, Option, List, [], ◌∷◌, any, ok,
}
use lucy.Text.{codes}
use lucy.Scheduler.Cron.{specific, any_value}
use lucy.Scheduler.Cron.Minutes.{toy}
use lucy.Scheduler.Registry.{
  ScheduledTask, Registry, Action, begins, finishes, tui_delivery, has_id, due, get_task,
  cancel_task, act, act_all, next_run_after,
}
use lucy.Scheduler.Registry.Cancelled.{copies, cancelled_never_due, cancel_during_run_rearms}

abbrev from_seconds : ℕ → Option ℕ
from_seconds n = some (n / 60)

abbrev to_seconds : ℕ → ℕ
to_seconds t = t * 60

abbrev report : ScheduledTask
report = record {
  id = 1;
  name = codes "report";
  schedule = codes "30 * * * *";
  cron = record {
    minute = specific 30;
    hour = any_value;
    day_of_month = any_value;
    month = any_value;
    day_of_week = any_value;
  };
  goal = codes "report";
  delivery = tui_delivery;
  created_at = 0;
  next_run = some 1800;
  last_run = none;
  enabled = true;
}

-- The task's goal is being run.
abbrev reporting : Registry
reporting = record { tasks = report ∷ []; running = report ∷ []; results = [] }

abbrev run_ends : List Action
run_ends = finishes 0 (ok (codes "done")) 1801 ∷ begins 3700 ∷ []

cancelled_never_due_example :
    (any
        (has_id 1)
        (due 9999 (act_all toy from_seconds to_seconds run_ends (cancel_task 1 reporting).0))
      ≡ false)
    × (copies 1 (act_all toy from_seconds to_seconds run_ends (cancel_task 1 reporting).0).running
        ≤ copies 1 reporting.running)
cancelled_never_due_example =
    cancelled_never_due toy from_seconds to_seconds 1 9999 reporting run_ends (tt, (tt, tt))

cancel_during_run_rearms_example :
    get_task 1 (
      act toy from_seconds to_seconds
        (finishes 0 (ok (codes "done")) 1801)
        (cancel_task 1 reporting).0)
    ≡ some (record report {
      enabled = false;
      last_run = some 1801;
      next_run = next_run_after toy from_seconds to_seconds report.cron 1801;
    })
unfolding get_task
cancel_during_run_rearms_example =
    cancel_during_run_rearms toy from_seconds to_seconds 0 report report (ok (codes "done")) 1801
      reporting refl refl
