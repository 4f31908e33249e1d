-- ===== src/Scheduler/Executor/Track.antt =====
-- One job through a run: a property that the steps of its own keep is kept by all.
use mathlib.Core.Path.{subst}
use lucy.Prelude.{
  ℕ, zero, suc, ◌≡◌, refl, false, Option, none, some, List, [], ◌∷◌, ◌++◌, map, arith, ◌==◌,
  Bool-cases, inl, inr, All, ==_iff, sym, ◌∙◌,
}
use lucy.Scheduler.Executor.{
  Job, Executor, job_at, modify, Local, Permit, kept, taken, given, local, Action, request, at_job,
  cleanup, shutdown, settle, at_found, clean_job, step, run,
}

pub job_at-modify_self :
    (js : List Job) (i : ℕ) {j : Job} (k : Job)
    → job_at js i ≡ some j
    → job_at (modify (λ _. k) i js) i ≡ some k
job_at-modify_self [] i k h = cc
job_at-modify_self (x ∷ js) zero k h = refl
job_at-modify_self (x ∷ js) (suc i) {j} k h = job_at-modify_self js i {j = j} k h

job_at-modify_ne :
    (js : List Job) (i m : ℕ) (k : Job)
    → (i == m) ≡ false
    → job_at (modify (λ _. k) i js) m ≡ job_at js m
job_at-modify_ne [] i m k h = refl
job_at-modify_ne (x ∷ js) zero zero k h = cc
job_at-modify_ne (x ∷ js) zero (suc m) k h = refl
job_at-modify_ne (x ∷ js) (suc i) zero k h = refl
job_at-modify_ne (x ∷ js) (suc i) (suc m) k h = job_at-modify_ne js i m k (ground arith)

job_at-append :
    (xs ys : List Job) (i : ℕ) {j : Job} → job_at xs i ≡ some j → job_at (xs ++ ys) i ≡ some j
job_at-append [] ys i h = cc
job_at-append (x ∷ xs) ys zero h = h
job_at-append (x ∷ xs) ys (suc i) h = job_at-append xs ys i h

job_at-clean :
    (js : List Job) (i : ℕ) {j : Job}
    → job_at js i ≡ some j
    → job_at (map clean_job js) i ≡ some (clean_job j)
job_at-clean [] i h = cc
job_at-clean (x ∷ js) zero h = ground arith
job_at-clean (x ∷ js) (suc i) h = job_at-clean js i h

pub some_eq : {j k : Job} → some j ≡ some k → j ≡ k
some_eq h = cc

-- the action does to the job `i` only what `allowed` lets pass
abbrev pub Allows : (Local → Type 0) → ℕ → Action → Type 0
Allows allowed i (at_job k l) = k ≡ i → allowed l
Allows allowed i _ = Unit {0}

module _ (P : Job → Type 0) (allowed : Local → Type 0)
    (keeps : (l : Local) (j : Job) → allowed l → P j → P (local l j.task j.row).0)
    (keeps_clean : (j : Job) → P j → P (clean_job j)) where
  -- the job `i` is there and satisfies `P`
  abbrev pub At : ℕ → Executor → Type 0
  At i x = (j : Job) × (job_at x.jobs i ≡ some j) × P j

  settle-At_self :
      (i : ℕ) (x : Executor) (j : Job) (p : Job × Permit)
      → job_at x.jobs i ≡ some j
      → P j
      → P p.0
      → At i (settle i x p)
  unfolding settle
  settle-At_self i x j (k, kept) h a b = (k, job_at-modify_self x.jobs i {j = j} k h, b)
  settle-At_self i x j (k, given) h a b = (k, job_at-modify_self x.jobs i {j = j} k h, b)
  settle-At_self i x j (k, taken) h a b = elim (Bool-cases (x.permits == 0)) [
    | inl e ↦ rw e (j, h, a)
    | inr e ↦ rw e (k, job_at-modify_self x.jobs i {j = j} k h, b)
  ]

  settle-At_ne :
      (i m : ℕ) (x : Executor) (p : Job × Permit) → (m == i) ≡ false → At i x → At i (settle m x p)
  unfolding settle
  settle-At_ne i m x (k, kept) ne (j, h, a) = (j, rw (job_at-modify_ne x.jobs m i k ne) h, a)
  settle-At_ne i m x (k, given) ne (j, h, a) = (j, rw (job_at-modify_ne x.jobs m i k ne) h, a)
  settle-At_ne i m x (k, taken) ne (j, h, a) = elim (Bool-cases (x.permits == 0)) [
    | inl e ↦ rw e (j, h, a)
    | inr e ↦ rw e (j, rw (job_at-modify_ne x.jobs m i k ne) h, a)
  ]

  same_job :
      (i m : ℕ) (l : Local) (x : Executor) (k : Job)
      → job_at x.jobs m ≡ some k
      → (m ≡ i → allowed l)
      → m ≡ i
      → At i x
      → At i (settle m x (local l k.task k.row))
  same_job i m l x k q f e (j, h, a) =
      subst (λ n. At i (settle n x (local l k.task k.row))) (sym e)
        (settle-At_self i x k (local l k.task k.row) here holds (keeps l k (f e) holds))
    where
      here : job_at x.jobs i ≡ some k
      here = rw e at q

      holds : P k
      holds = subst P (some_eq (sym h ∙ here)) a

  at_found-At :
      (i m : ℕ) (l : Local) (x : Executor) (o : Option Job)
      → job_at x.jobs m ≡ o
      → (m ≡ i → allowed l)
      → At i x
      → At i (at_found m l x o)
  unfolding at_found
  at_found-At i m l x none q f h = h
  at_found-At i m l x (some k) q f h = elim (Bool-cases (m == i)) [
    | inr e ↦ settle-At_ne i m x (local l k.task k.row) e h
    | inl e ↦ same_job i m l x k q f ((==_iff m i).0 e) h
  ]

  step-At : (a : Action) (i : ℕ) (x : Executor) → Allows allowed i a → At i x → At i (step a x)
  unfolding step
  step-At request i x f (j, h, a) = elim (Bool-cases x.shut_down) [
    | inl e ↦ rw e (j, h, a)
    | inr e ↦ rw e (j, job_at-append x.jobs _ i h, a)
  ]
  step-At (at_job m l) i x f h = at_found-At i m l x (job_at x.jobs m) refl f h
  step-At cleanup i x f (j, h, a) = (clean_job j, job_at-clean x.jobs i h, keeps_clean j a)
  step-At shutdown i x f h = h

  pub run-At :
      (actions : List Action) (i : ℕ) (x : Executor)
      → All (Allows allowed i) actions
      → At i x
      → At i (run actions x)
  unfolding run
  run-At [] i x f h = h
  run-At (a ∷ rest) i x f h = run-At rest i (step a x) f.1 (step-At a i x f.0 h)
