-- ===== src/Scheduler/Executor/Final.antt =====
-- A job that has ended keeps its outcome.
use lucy.Prelude.{
  ℕ, zero, suc, ◌≡◌, refl, true, false, Option, some, List, [], ◌∷◌, arith, ok, All, Option-cases,
  inl, inr, map, Bool-cases, ◌==◌,
}
use mathlib.Core.Path.{subst}
use lucy.Text.{Text}
use lucy.Scheduler.Executor.{
  JobStatus, cancelled, is_terminal, Entry, TaskPc, unborn, ended, Row, absent, removed, present,
  Job, Executor, new, job_at, Local, acquire, finish, local, Action, request, at_job, cleanup,
  shutdown, clean_job, cleanup_row, step, run, modify, Permit, kept, taken, given, settle,
}
use lucy.Scheduler.Executor.Track.{Allows, run-At, some_eq}
use lucy.Text.Laws.{All-append}

-- `completed` and `failed` are written when the task ends; the mark is set with `cancelled`
record EntryOk (pc : TaskPc) (e : Entry) : Type 0 where
  done : is_terminal e.status ≡ true → e.was_cancelled ≡ false → pc ≡ ended
  marked : e.was_cancelled ≡ true → e.status ≡ cancelled
  cancelled_marked : e.status ≡ cancelled → e.was_cancelled ≡ true

abbrev RowOk : TaskPc → Row → Type 0
RowOk unborn (present e) = ⊥
RowOk pc (present e) = EntryOk pc e
RowOk pc row = Unit {0}

abbrev JobOk : Job → Type 0
JobOk j = RowOk j.task j.row

local-RowOk :
    (l : Local) (pc : TaskPc) (row : Row)
    → RowOk pc row
    → RowOk (local l pc row).0.task (local l pc row).0.row
unfolding local is_terminal
local-RowOk acquire pc row h = ground arith
local-RowOk (finish (ok out) now) pc row h = ground arith
local-RowOk _ pc row h = ground arith

clean-RowOk : (pc : TaskPc) (row : Row) → RowOk pc row → RowOk pc (cleanup_row row)
unfolding cleanup_row
clean-RowOk pc row h = ground arith

abbrev AllOk : List Job → Type 0
AllOk = All JobOk

AllOk-at : (js : List Job) (i : ℕ) {j : Job} → AllOk js → job_at js i ≡ some j → JobOk j
AllOk-at [] i h e = cc
AllOk-at (x ∷ js) zero h e = subst JobOk (some_eq e) h.0
AllOk-at (x ∷ js) (suc i) h e = AllOk-at js i h.1 e

AllOk-modify : (js : List Job) (i : ℕ) (k : Job) → JobOk k → AllOk js → AllOk (modify (λ _. k) i js)
AllOk-modify [] i k h a = tt
AllOk-modify (x ∷ js) zero k h a = (h, a.1)
AllOk-modify (x ∷ js) (suc i) k h a = (a.0, AllOk-modify js i k h a.1)

AllOk-clean : (js : List Job) → AllOk js → AllOk (map clean_job js)
AllOk-clean [] h = tt
AllOk-clean (x ∷ js) h = (clean-RowOk x.task x.row h.0, AllOk-clean js h.1)

settle-AllOk :
    (i : ℕ) (x : Executor) (p : Job × Permit) → JobOk p.0 → AllOk x.jobs → AllOk (settle i x p).jobs
unfolding settle
settle-AllOk i x (k, kept) h a = AllOk-modify x.jobs i k h a
settle-AllOk i x (k, given) h a = AllOk-modify x.jobs i k h a
settle-AllOk i x (k, taken) h a = elim (Bool-cases (x.permits == 0)) [
  | inl e ↦ rw e a
  | inr e ↦ rw e (AllOk-modify x.jobs i k h a)
]

step-AllOk : (a : Action) (x : Executor) → AllOk x.jobs → AllOk (step a x).jobs
unfolding step
step-AllOk request x h = elim (Bool-cases x.shut_down) [
  | inl e ↦ rw e h
  | inr e ↦ rw e (All-append JobOk x.jobs _ h (tt, tt))
]
step-AllOk (at_job i l) x h = elim (Option-cases (job_at x.jobs i)) [
  | inl e ↦ rw e h
  | inr (j, e) ↦ rw e (
      settle-AllOk i x (local l j.task j.row) (local-RowOk l j.task j.row (AllOk-at x.jobs i h e))
        h)
]
step-AllOk cleanup x h = AllOk-clean x.jobs h
step-AllOk shutdown x h = h

run-AllOk : (actions : List Action) (x : Executor) → AllOk x.jobs → AllOk (run actions x).jobs
unfolding run
run-AllOk [] x h = h
run-AllOk (a ∷ rest) x h = run-AllOk rest (step a x) (step-AllOk a x h)

all_allowed : (i : ℕ) (actions : List Action) → All (Allows (λ _. Unit {0}) i) actions
all_allowed i [] = tt
all_allowed i (request ∷ rest) = (tt, all_allowed i rest)
all_allowed i (at_job k l ∷ rest) = (λ _. tt, all_allowed i rest)
all_allowed i (cleanup ∷ rest) = (tt, all_allowed i rest)
all_allowed i (shutdown ∷ rest) = (tt, all_allowed i rest)

-- The row shows the outcome, or was cleaned away.
abbrev pub Shows : JobStatus → Option Text → Row → Type 0
Shows s r absent = ⊥
Shows s r removed = Unit {0}
Shows s r (present e) = (e.status ≡ s) × (e.result ≡ r)

module _ (s : JobStatus) (r : Option Text) (terminal : is_terminal s ≡ true) where
  abbrev Keeps : Job → Type 0
  Keeps j = JobOk j × Shows s r j.row

  local-Shows :
      (l : Local) (pc : TaskPc) (row : Row)
      → RowOk pc row
      → Shows s r row
      → Shows s r (local l pc row).0.row
  unfolding local is_terminal
  local-Shows acquire pc row h k = ground arith
  local-Shows (finish (ok out) now) pc row h k = ground arith
  local-Shows _ pc row h k = ground arith

  clean-Shows : (row : Row) → Shows s r row → Shows s r (cleanup_row row)
  unfolding cleanup_row
  clean-Shows row h = ground arith

-- Once a job of the executor is completed, failed or cancelled, it keeps that status and its result,
-- whatever spawns, tasks, cancels, aborts and cleanups follow, until a cleanup removes its entry.
pub terminal_is_final :
    (before after : List Action) (max_concurrent i : ℕ) (j : Job) (e : Entry)
    → job_at (run before (new max_concurrent)).jobs i ≡ some j
    → j.row ≡ present e
    → is_terminal e.status ≡ true
    → (k : Job) × (job_at (run after (run before (new max_concurrent))).jobs i ≡ some k)
      × Shows e.status e.result k.row
terminal_is_final before after max_concurrent i j e h q t =
    let (k, at_k, both) =
      run-At (Keeps e.status e.result t) (λ _. Unit {0})
        (λ l x _ c.
          (local-RowOk l x.task x.row c.0, local-Shows e.status e.result t l x.task x.row c.0 c.1))
        (λ x c. (clean-RowOk x.task x.row c.0, clean-Shows e.status e.result t x.row c.1)) after i
        (run before (new max_concurrent)) (all_allowed i after)
        (j, h, (AllOk-at _ i (run-AllOk before (new max_concurrent) tt) h, rw q (refl, refl))) in
    (k, at_k, both.1)
