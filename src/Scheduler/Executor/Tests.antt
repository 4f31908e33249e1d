-- ===== src/Scheduler/Executor/Tests.antt =====
-- The executor on short runs.
use lucy.Prelude.{◌+◌, ◌≤◌, ◌≡◌, refl, ok, some, none, List, [], ◌∷◌, true}
use lucy.Text.{codes}
use lucy.Scheduler.Executor.{
  step, Job, Executor, absent, ended, insert, Action, request, at_job, cleanup, acquire, insert,
  start, finish, cancel, Job, Entry, pending, cancelled, present, run, new, status, job_at,
  is_terminal, ready,
}
use lucy.Scheduler.Executor.Permits.{holders, permits_conserved}
use lucy.Scheduler.Executor.Final.{Shows, terminal_is_final}
use lucy.Scheduler.Executor.Lost.{early, ended_before_insert_stays_pending}

-- Two jobs contend for the one permit.
abbrev contended : List Action
contended =
    request ∷ request ∷ at_job 0 acquire ∷ at_job 1 acquire ∷ at_job 0 insert ∷ at_job 0 start ∷ []

permits_conserved_example :
    ((run contended (new 1)).permits + holders (run contended (new 1)).jobs ≡ 1)
    × (holders (run contended (new 1)).jobs ≤ 1)
permits_conserved_example = permits_conserved contended 1

-- A job is cancelled while it runs.
abbrev cancelled_at_9 : List Action
cancelled_at_9 = request ∷ at_job 0 acquire ∷ at_job 0 insert ∷ at_job 0 (cancel 9) ∷ []

abbrev cancelled_entry : Entry
cancelled_entry = record {
  status = cancelled;
  result = none;
  completed_at = some 9;
  was_cancelled = true;
}

abbrev answer_late : List Action
answer_late = at_job 0 start ∷ at_job 0 (finish (ok (codes "done")) 10) ∷ cleanup ∷ []

terminal_is_final_example :
    (k : Job) × (job_at (run answer_late (run cancelled_at_9 (new 1))).jobs 0 ≡ some k)
    × Shows cancelled none k.row
unfolding run is_terminal
terminal_is_final_example =
    terminal_is_final cancelled_at_9 answer_late 1 0
      (record { task = ready; row = present cancelled_entry }) cancelled_entry refl refl refl

abbrev done_early : Executor
done_early = run (early (ok (codes "done")) 5) (new 2)

abbrev late_job : Job
late_job = record { task = ended; row = absent }

ended_before_insert_stays_pending_example :
    status 0
      (run (at_job 0 start ∷ cleanup ∷ []) (step (at_job 0 insert) (run (cleanup ∷ []) done_early)))
    ≡ ok pending
unfolding run
ended_before_insert_stays_pending_example =
    ended_before_insert_stays_pending 0 done_early late_job (cleanup ∷ [])
      (at_job 0 start ∷ cleanup ∷ []) refl refl refl (tt, tt) (λ _. tt, (tt, tt))
