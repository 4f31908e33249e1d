-- ===== src/Scheduler/Executor/Lost.antt =====
-- A task that ends before `spawn` has inserted its entry.
use lucy.Prelude.{ℕ, ◌⊎◌, inl, inr, ◌≡◌, refl, some, List, [], ◌∷◌, Result, ok, All}
use lucy.Text.{Text}
use lucy.Scheduler.Executor.{
  pending, new_entry, ended, absent, present, Job, Executor, step, job_at, Local, acquire, insert,
  start, finish, reap, cancel, local, Action, request, at_job, clean_job, cleanup_row, run, status,
  status_of,
}
use lucy.Scheduler.Executor.Track.{job_at-modify_self, Allows, run-At}

abbrev pub NotCancel : Local → Type 0
NotCancel (cancel now) = ⊥
NotCancel l = Unit {0}

-- the task has ended, and the entry is not inserted, or says `pending`
abbrev Late : Job → Type 0
Late j = (j.task ≡ ended) × ((j.row ≡ absent) ⊎ (j.row ≡ present new_entry))

-- the task has ended, and the entry says `pending`
abbrev Stuck : Job → Type 0
Stuck j = (j.task ≡ ended) × (j.row ≡ present new_entry)

local-Stuck : (l : Local) → NotCancel l → Stuck (local l ended (present new_entry)).0
unfolding local
local-Stuck acquire h = (refl, refl)
local-Stuck insert h = (refl, refl)
local-Stuck start h = (refl, refl)
local-Stuck (finish r now) h = (refl, refl)
local-Stuck reap h = (refl, refl)
local-Stuck (cancel now) h = absurd h

local-Late : (l : Local) → NotCancel l → Late (local l ended absent).0
unfolding local
local-Late acquire h = (refl, inl refl)
local-Late insert h = (refl, inr refl)
local-Late start h = (refl, inl refl)
local-Late (finish r now) h = (refl, inl refl)
local-Late reap h = (refl, inl refl)
local-Late (cancel now) h = absurd h

keeps_Stuck : (l : Local) (j : Job) → NotCancel l → Stuck j → Stuck (local l j.task j.row).0
keeps_Stuck l j f h = rw (h.0, h.1) (local-Stuck l f)

keeps_Late : (l : Local) (j : Job) → NotCancel l → Late j → Late (local l j.task j.row).0
keeps_Late l j f (e, inl a) = rw (e, a) (local-Late l f)
keeps_Late l j f (e, inr p) = let (t, r) = keeps_Stuck l j f (e, p) in (t, inr r)

clean-Stuck : (j : Job) → Stuck j → Stuck (clean_job j)
unfolding cleanup_row
clean-Stuck j h = (h.0, rw h.1 refl)

clean-Late : (j : Job) → Late j → Late (clean_job j)
unfolding cleanup_row
clean-Late j (e, inl a) = (e, inl (rw a refl))
clean-Late j (e, inr p) = (e, inr (rw p refl))

-- `spawn` inserts the entry of a job whose task has ended
inserted-Stuck :
    (i : ℕ) (x : Executor) (j : Job)
    → job_at x.jobs i ≡ some j
    → Late j
    → (k : Job) × (job_at (step (at_job i insert) x).jobs i ≡ some k) × Stuck k
unfolding step local
inserted-Stuck i x j at (e, inl a) =
    rw (at, e, a)
      (
        record { task = ended; row = present new_entry },
        job_at-modify_self x.jobs i {j = j} _ at,
        (refl, refl),
      )
inserted-Stuck i x j at (e, inr p) =
    rw (at, e, p)
      (
        record { task = ended; row = present new_entry },
        job_at-modify_self x.jobs i {j = j} _ at,
        (refl, refl),
      )

-- If the task of a job has ended while `spawn` has not inserted the job's entry, its answer is lost:
-- whatever happens before the insertion and afterwards, but for a cancel of that job, `status` says from the insertion on that
-- the job is pending.
pub ended_before_insert_stays_pending :
    (i : ℕ) (x : Executor) (j : Job) (before later : List Action)
    → job_at x.jobs i ≡ some j
    → j.task ≡ ended
    → j.row ≡ absent
    → All (Allows NotCancel i) before
    → All (Allows NotCancel i) later
    → status i (run later (step (at_job i insert) (run before x))) ≡ ok pending
unfolding status
ended_before_insert_stays_pending i x j before later at e a f g =
    let (k, at_k, late) =
      run-At Late NotCancel keeps_Late clean-Late before i x f (j, at, (e, inl a)) in
    let (l, at_l, stuck) =
      run-At Stuck NotCancel keeps_Stuck clean-Stuck later i (step (at_job i insert) (run before x))
        g (inserted-Stuck i (run before x) k at_k late) in
    rw at_l (rw (stuck.1, status_of) refl)

-- The task of the first job gets its permit, starts and ends before anything else happens.
abbrev pub early : Result Text Text → ℕ → List Action
early r now = request ∷ at_job 0 acquire ∷ at_job 0 start ∷ at_job 0 (finish r now) ∷ []
