-- ===== src/Scheduler/Executor.antt =====
-- crates/lucy-scheduler/src/executor.rs: background jobs. A job's number is its place in `jobs`. The
-- tasks run step by step, and a step is a critical section of the job table.
pub mod Track
pub mod Final
pub mod Permits
pub mod Lost
pub mod Cancel
mod Tests
use lucy.Prelude.{
  ℕ, zero, suc, ◌+◌, ◌-◌, Bool, true, false, Option, none, some, List, [], ◌∷◌, ◌++◌, ◌==◌,
  if◌then◌else◌, length, Result, ok, err, map,
}
use lucy.Text.{Text}

pub data JobStatus : Type 0 where
  pending running cancelled : JobStatus
  completed failed : Text → JobStatus

unfoldable pub is_terminal : JobStatus → Bool
is_terminal (completed out) = true
is_terminal (failed e) = true
is_terminal cancelled = true
is_terminal _ = false

unfoldable pub is_active : JobStatus → Bool
is_active pending = true
is_active running = true
is_active _ = false

-- `JobInner`, without the handle: whether the task was aborted is `cancelled`.
pub record Entry : Type 0 where
  pub status : JobStatus
  pub result : Option Text
  pub completed_at : Option ℕ
  pub was_cancelled : Bool

abbrev pub new_entry : Entry
new_entry = record { status = pending; result = none; completed_at = none; was_cancelled = false }

-- Where the spawned task stands; `unborn` is before the permit is there.
pub data TaskPc : Type 0 where
  unborn ready working ended : TaskPc

-- Where the table entry of the job stands: `spawn` inserts it after it started the task.
pub data Row : Type 0 where
  absent removed : Row
  present : Entry → Row

pub record Job : Type 0 where
  pub task : TaskPc
  pub row : Row

pub record Executor : Type 0 where
  pub jobs : List Job
  pub permits : ℕ
  pub shut_down : Bool

pub data ExecutorError : Type 0 where
  job_not_found already_cancelled : ℕ → ExecutorError
  is_shut_down : ExecutorError

-- `Executor::new`
abbrev pub new : ℕ → Executor
new max_concurrent = record { jobs = []; permits = max_concurrent; shut_down = false }

abbrev pub job_at : List Job → ℕ → Option Job
job_at [] i = none
job_at (j ∷ js) zero = some j
job_at (j ∷ js) (suc i) = job_at js i

abbrev pub modify : (Job → Job) → ℕ → List Job → List Job
modify f i [] = []
modify f zero (j ∷ js) = f j ∷ js
modify f (suc i) (j ∷ js) = j ∷ modify f i js

-- the first section of the task
start_row : Row → TaskPc × Row
start_row (present e) =
    if e.was_cancelled
    then (ended, present e)
    else (working, present (record e { status = running }))
start_row r = (working, r)

finished : Result Text Text → ℕ → Entry → Entry
finished (ok out) now e = record e {
  status = completed out;
  result = some out;
  completed_at = some now;
}
finished (err why) now e = record e { status = failed why; completed_at = some now }

-- the last section of the task
finish_row : Result Text Text → ℕ → Row → Row
unfolding finished
finish_row r now (present e) = if e.was_cancelled then present e else present (finished r now e)
finish_row r now row = row

cancel_entry : ℕ → Entry → Entry
cancel_entry now e = record e { was_cancelled = true; status = cancelled; completed_at = some now }

cancel_row : ℕ → Row → Row
unfolding cancel_entry is_terminal
cancel_row now (present e) =
    if is_terminal e.status then present e else present (cancel_entry now e)
cancel_row now row = row

unfoldable pub cleanup_row : Row → Row
unfolding is_active
cleanup_row (present e) = if is_active e.status then present e else removed
cleanup_row row = row

-- What may happen to one job.
pub data Local : Type 0 where
  -- the permit is there, and the task is started
  acquire : Local
  -- `spawn` inserts the entry
  insert : Local
  -- the task takes its first section
  start : Local
  -- the runner has answered, and the task takes its last section
  finish : Result Text Text → ℕ → Local
  -- the abort of a cancelled task takes effect
  reap : Local
  cancel : ℕ → Local

pub data Permit : Type 0 where
  kept taken given : Permit

after_start : TaskPc × Row → Job × Permit
after_start (ended, row) = (record { task = ended; row = row }, given)
after_start (pc, row) = (record { task = pc; row = row }, kept)

insert_row : TaskPc → Row → Row
insert_row unborn row = row
insert_row pc absent = present new_entry
insert_row pc row = row

abbrev aborted : Row → Bool
aborted (present e) = e.was_cancelled
aborted row = false

-- the task of a cancelled job ends where it stands
reap_job : TaskPc → Row → Job × Permit
reap_job ready row =
    if aborted row
    then (record { task = ended; row = row }, given)
    else (record { task = ready; row = row }, kept)
reap_job working row =
    if aborted row
    then (record { task = ended; row = row }, given)
    else (record { task = working; row = row }, kept)
reap_job pc row = (record { task = pc; row = row }, kept)

acquire_job : TaskPc → Row → Job × Permit
acquire_job unborn row = (record { task = ready; row = row }, taken)
acquire_job pc row = (record { task = pc; row = row }, kept)

start_job : TaskPc → Row → Job × Permit
unfolding start_row after_start
start_job ready row = after_start (start_row row)
start_job pc row = (record { task = pc; row = row }, kept)

finish_job : Result Text Text → ℕ → TaskPc → Row → Job × Permit
unfolding finish_row
finish_job r now working row = (record { task = ended; row = finish_row r now row }, given)
finish_job r now pc row = (record { task = pc; row = row }, kept)

unfoldable pub local : Local → TaskPc → Row → Job × Permit
unfolding acquire_job start_job finish_job reap_job insert_row cancel_row
local acquire pc row = acquire_job pc row
local insert pc row = (record { task = pc; row = insert_row pc row }, kept)
local start pc row = start_job pc row
local (finish r now) pc row = finish_job r now pc row
local reap pc row = reap_job pc row
local (cancel now) pc row = (record { task = pc; row = cancel_row now row }, kept)

pub data Action : Type 0 where
  -- `spawn` is called, and passes the test on shutdown
  request : Action
  at_job : ℕ → Local → Action
  cleanup : Action
  -- `shutdown` sets its mark; the cancels that follow are actions of their own
  shutdown : Action

-- a permit is taken only if there is one
settle : ℕ → Executor → Job × Permit → Executor
settle i x (j, kept) = record x { jobs = modify (λ _. j) i x.jobs }
settle i x (j, taken) =
    if x.permits == 0
    then x
    else record x { jobs = modify (λ _. j) i x.jobs; permits = x.permits - 1 }
settle i x (j, given) = record x { jobs = modify (λ _. j) i x.jobs; permits = x.permits + 1 }

at_found : ℕ → Local → Executor → Option Job → Executor
unfolding settle local
at_found i l x none = x
at_found i l x (some j) = settle i x (local l j.task j.row)

abbrev pub clean_job : Job → Job
clean_job j = record j { row = cleanup_row j.row }

unfoldable pub step : Action → Executor → Executor
unfolding at_found cleanup_row
step request x =
    if x.shut_down
    then x
    else record x { jobs = x.jobs ++ record { task = unborn; row = absent } ∷ [] }
step (at_job i l) x = at_found i l x (job_at x.jobs i)
step cleanup x = record x { jobs = map clean_job x.jobs }
step shutdown x = record x { shut_down = true }

unfoldable pub run : List Action → Executor → Executor
unfolding step
run [] x = x
run (a ∷ rest) x = run rest (step a x)

status_of : ℕ → Option Job → Result ExecutorError JobStatus
status_of i none = err (job_not_found i)
status_of i (some j) = elim j.row [ present e ↦ ok e.status | _ ↦ err (job_not_found i) ]

-- `Executor::status`
unfoldable pub status : ℕ → Executor → Result ExecutorError JobStatus
unfolding status_of
status i x = status_of i (job_at x.jobs i)

-- A permit is held from `acquire` to the end of the task.
abbrev pub holds_permit : TaskPc → ℕ
holds_permit unborn = 0
holds_permit ready = 1
holds_permit working = 1
holds_permit ended = 0
