-- ===== src/Scheduler/Executor/Cancel.antt =====
-- `Executor::cancel` with its answer.
use lucy.Prelude.{
  ℕ, ◌≡◌, refl, Option, none, some, Result, ok, err, if◌then◌else◌, Option-cases, inl, inr, arith,
}
use lucy.Scheduler.Executor.{
  Executor, Job, present, ExecutorError, job_not_found, already_cancelled, JobStatus, cancelled,
  is_terminal, job_at, step, at_job, cancel, status, status_of, local, cancel_row, cancel_entry,
  at_found, settle,
}
use lucy.Scheduler.Executor.Track.{job_at-modify_self}

cancel_answer : ℕ → Option Job → Result ExecutorError JobStatus
cancel_answer i none = err (job_not_found i)
cancel_answer i (some j) = elim j.row [
  | present e ↦ if is_terminal e.status then err (already_cancelled i) else ok cancelled
  | _ ↦ err (job_not_found i)
]

unfoldable pub cancel_job : ℕ → ℕ → Executor → Executor × Result ExecutorError JobStatus
unfolding cancel_answer
cancel_job i now x = (step (at_job i (cancel now)) x, cancel_answer i (job_at x.jobs i))

-- the answer, or else what there was before
abbrev pub or_else :
    Result ExecutorError JobStatus → Result ExecutorError JobStatus → Result ExecutorError JobStatus
or_else (ok s) r = ok s
or_else (err e) r = r

-- What `cancel` promises to answer, by the status.
abbrev pub may_cancel : ℕ → Result ExecutorError JobStatus → Result ExecutorError JobStatus
may_cancel i (ok s) = if is_terminal s then err (already_cancelled i) else ok cancelled
may_cancel i (err e) = err e

-- the row after a cancel, and the answer, by the row before it
cancelled_row :
    (i now : ℕ) (j : Job)
    → (status_of i (some (local (cancel now) j.task j.row).0)
        ≡ or_else (cancel_answer i (some j)) (status_of i (some j)))
      × (cancel_answer i (some j) ≡ may_cancel i (status_of i (some j)))
unfolding status_of cancel_answer local cancel_row cancel_entry
cancelled_row i now j = ground arith

status-at :
    (i : ℕ) (x : Executor) (o : Option Job) → job_at x.jobs i ≡ o → status i x ≡ status_of i o
unfolding status
status-at i x o h = rw h refl

answer-at :
    (i now : ℕ) (x : Executor) (o : Option Job)
    → job_at x.jobs i ≡ o
    → (cancel_job i now x).1 ≡ cancel_answer i o
unfolding cancel_job
answer-at i now x o h = rw h refl

job_at-cancel_job :
    (i now : ℕ) (x : Executor) (j : Job)
    → job_at x.jobs i ≡ some j
    → job_at (cancel_job i now x).0.jobs i ≡ some (local (cancel now) j.task j.row).0
unfolding cancel_job step at_found settle local
job_at-cancel_job i now x j h =
    rw h (job_at-modify_self x.jobs i {j = j} (local (cancel now) j.task j.row).0 h)

job_at-cancel_job-none :
    (i now : ℕ) (x : Executor)
    → job_at x.jobs i ≡ none
    → job_at (cancel_job i now x).0.jobs i ≡ none
unfolding cancel_job step at_found
job_at-cancel_job-none i now x h = rw h h

no_job :
    (i : ℕ)
    → (status_of i none ≡ or_else (cancel_answer i none) (status_of i none))
      × (cancel_answer i none ≡ may_cancel i (status_of i none))
unfolding status_of cancel_answer
no_job i = (refl, refl)

-- `cancel` answers that the job is cancelled exactly if there is such a job and it is not at its end, and
-- the status is then that; if it answers with an error, the status is what it was.
pub cancel_job-status :
    (i now : ℕ) (x : Executor)
    → (status i (cancel_job i now x).0 ≡ or_else (cancel_job i now x).1 (status i x))
      × ((cancel_job i now x).1 ≡ may_cancel i (status i x))
cancel_job-status i now x = elim (Option-cases (job_at x.jobs i)) [
  | inl h ↦
      rw
        (
          status-at i x none h,
          answer-at i now x none h,
          status-at i (cancel_job i now x).0 none (job_at-cancel_job-none i now x h),
        )
        (no_job i)
  | inr (j, h) ↦
      rw
        (
          status-at i x (some j) h,
          answer-at i now x (some j) h,
          status-at i (cancel_job i now x).0 (some (local (cancel now) j.task j.row).0)
              (job_at-cancel_job i now x j h),
        )
        (cancelled_row i now j)
]
