-- ===== src/Scheduler/Executor/Permits.antt =====
-- The semaphore: permits are neither lost nor made.
use lucy.Prelude.{
  ℕ, zero, suc, ◌+◌, ◌≤◌, ◌≡◌, refl, some, List, [], ◌∷◌, ◌++◌, map, arith, Option-cases, inl, inr,
}
use lucy.Scheduler.Executor.{
  TaskPc, unborn, Row, absent, Job, Executor, new, job_at, modify, Local, acquire, insert, start,
  finish, reap, cancel, Permit, kept, taken, given, local, Action, request, at_job, cleanup,
  shutdown, settle, clean_job, step, run, holds_permit,
}

-- the jobs whose task holds a permit
abbrev pub holders : List Job → ℕ
holders [] = 0
holders (j ∷ js) = holds_permit j.task + holders js

holders-append : (xs ys : List Job) → holders (xs ++ ys) ≡ holders xs + holders ys
holders-append [] ys = omega arith
holders-append (j ∷ xs) ys = omega (arith, holders-append xs ys)

holders-clean : (js : List Job) → holders (map clean_job js) ≡ holders js
holders-clean [] = refl
holders-clean (j ∷ js) = omega (arith, holders-clean js)

holders-modify :
    (js : List Job) (i : ℕ) (j k : Job)
    → job_at js i ≡ some j
    → holders (modify (λ _. k) i js) + holds_permit j.task ≡ holders js + holds_permit k.task
holders-modify [] i j k h = cc
holders-modify (x ∷ js) zero j k h = ground arith
holders-modify (x ∷ js) (suc i) j k h = omega (arith, holders-modify js i j k h)

-- what a step of a job does to its permit
abbrev Accounts : TaskPc → Job × Permit → Type 0
Accounts pc (j, kept) = holds_permit j.task ≡ holds_permit pc
Accounts pc (j, taken) = holds_permit j.task ≡ holds_permit pc + 1
Accounts pc (j, given) = holds_permit j.task + 1 ≡ holds_permit pc

local-Accounts : (l : Local) (pc : TaskPc) (row : Row) → Accounts pc (local l pc row)
unfolding local
local-Accounts acquire pc row = ground arith
local-Accounts insert pc row = refl
local-Accounts start pc row = ground arith
local-Accounts (finish r now) pc row = ground arith
local-Accounts reap pc row = ground arith
local-Accounts (cancel now) pc row = refl

settle-conserved :
    (i : ℕ) (x : Executor) (j : Job) (p : Job × Permit)
    → job_at x.jobs i ≡ some j
    → Accounts j.task p
    → (settle i x p).permits + holders (settle i x p).jobs ≡ x.permits + holders x.jobs
unfolding settle
settle-conserved i x j (k, kept) h a = omega (arith, holders-modify x.jobs i j k h)
settle-conserved i x j (k, taken) h a = ground (arith, holders-modify x.jobs i j k h)
settle-conserved i x j (k, given) h a = omega (arith, holders-modify x.jobs i j k h)

step-conserved :
    (a : Action) (x : Executor)
    → (step a x).permits + holders (step a x).jobs ≡ x.permits + holders x.jobs
unfolding step
step-conserved request x =
    ground (arith, holders-append x.jobs (record { task = unborn; row = absent } ∷ []))
step-conserved (at_job i l) x = elim (Option-cases (job_at x.jobs i)) [
  | inl e ↦ rw e refl
  | inr (j, e) ↦
      rw e (settle-conserved i x j (local l j.task j.row) e (local-Accounts l j.task j.row))
]
step-conserved cleanup x = omega (arith, holders-clean x.jobs)
step-conserved shutdown x = refl

run-conserved :
    (actions : List Action) (x : Executor)
    → (run actions x).permits + holders (run actions x).jobs ≡ x.permits + holders x.jobs
unfolding run
run-conserved [] x = refl
run-conserved (a ∷ rest) x = omega (arith, run-conserved rest (step a x), step-conserved a x)

-- After any interleaving of spawns, tasks, cancels and cleanups, the free permits and the tasks that
-- hold one add up to the limit, so no more tasks hold a permit at once than the limit allows.
pub permits_conserved :
    (actions : List Action) (max_concurrent : ℕ)
    → ((run actions (new max_concurrent)).permits + holders (run actions (new max_concurrent)).jobs
        ≡ max_concurrent)
      × (holders (run actions (new max_concurrent)).jobs ≤ max_concurrent)
permits_conserved actions max_concurrent = omega (arith, run-conserved actions (new max_concurrent))
