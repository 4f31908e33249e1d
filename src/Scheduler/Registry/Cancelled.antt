-- ===== src/Scheduler/Registry/Cancelled.antt =====
-- Cancelled and removed tasks.
use lucy.Prelude.{
  ℕ, zero, suc, ◌+◌, ◌≤◌, ◌++◌, ◌≡◌, ◌≢◌, refl, Bool, false, ◌&&◌, not, Option, none, some, List,
  [], ◌∷◌, ◌==◌, any, keep, if◌then◌else◌, find, arith, All, Result, Option-cases, inl, inr,
}
use lucy.Text.{Text}
use lucy.Scheduler.Cron.Next.{Chrono}
use lucy.Scheduler.Registry.{
  ScheduledTask, Registry, Action, schedules, cancels, removes, begins, finishes, has_id, get_task,
  schedule_task, cancel_task, remove_task, disabled, modify_task, is_due, due, nth_task, drop_nth,
  next_run_after, act, act_all, armed,
}

-- the test for an enabled task of the id
abbrev active : ℕ → ScheduledTask → Bool
active id t = t.id == id && t.enabled

-- no task of the id is scheduled
abbrev pub SparesTask : ℕ → Action → Type 0
SparesTask id (schedules t) = t.id ≢ id
SparesTask id _ = Unit {0}

any-keep_ne :
    (p : ScheduledTask → Bool) (j : ℕ) (ts : List ScheduledTask)
    → any p ts ≡ false
    → any p (keep (λ u. not (u.id == j)) ts) ≡ false
any-keep_ne p j [] h = refl
any-keep_ne p j (t ∷ ts) h = ground (arith, any-keep_ne p j ts)

any-modify :
    (p : ScheduledTask → Bool) (j : ℕ) (f : ScheduledTask → ScheduledTask) (ts : List ScheduledTask)
    → ((t : ScheduledTask) → p t ≡ false → p (f t) ≡ false)
    → any p ts ≡ false
    → any p (modify_task j f ts) ≡ false
any-modify p j f [] k h = refl
any-modify p j f (t ∷ ts) k h = ground (arith, any-modify p j f ts k, k t)

active-disabled :
    (id : ℕ) (ts : List ScheduledTask) → any (active id) (modify_task id disabled ts) ≡ false
active-disabled id [] = refl
active-disabled id (t ∷ ts) = ground (arith, active-disabled id ts)

not_due :
    (id now : ℕ) (ts : List ScheduledTask)
    → any (active id) ts ≡ false
    → any (has_id id) (keep (is_due now) ts) ≡ false
not_due id now [] h = refl
not_due id now (t ∷ ts) h = ground (arith, not_due id now ts)

none-removed :
    (id : ℕ) (ts : List ScheduledTask) → any (has_id id) (keep (λ u. not (u.id == id)) ts) ≡ false
none-removed id [] = refl
none-removed id (t ∷ ts) = ground (arith, none-removed id ts)

find-none :
    (p : ScheduledTask → Bool) (ts : List ScheduledTask) → any p ts ≡ false → find p ts ≡ none
find-none p [] h = refl
find-none p (t ∷ ts) h = ground (arith, find-none p ts)

-- the copies of the task that `run_pending` has taken and not finished
abbrev pub copies : ℕ → List ScheduledTask → ℕ
copies id [] = 0
copies id (t ∷ ts) = let rest = copies id ts in if t.id == id then suc rest else rest

copies-append :
    (id : ℕ) (ts us : List ScheduledTask) → copies id (ts ++ us) ≡ copies id ts + copies id us
copies-append id [] us = omega arith
copies-append id (t ∷ ts) us = ground (arith, copies-append id ts us)

copies-none : (id : ℕ) (ts : List ScheduledTask) → any (has_id id) ts ≡ false → copies id ts ≡ 0
copies-none id [] h = refl
copies-none id (t ∷ ts) h = ground (arith, copies-none id ts)

copies-drop : (id i : ℕ) (ts : List ScheduledTask) → copies id (drop_nth i ts) ≤ copies id ts
copies-drop id i [] = omega arith
copies-drop id zero (t ∷ ts) = ground arith
copies-drop id (suc i) (t ∷ ts) = ground (arith, copies-drop id i ts)

module _ (c : Chrono) (from_timestamp : ℕ → Option c.Time) (timestamp : c.Time → ℕ) where
  module _ (id : ℕ) (p : ScheduledTask → Bool)
      (other : (t : ScheduledTask) → t.id ≢ id → p t ≡ false)
      (arms : (r : ScheduledTask) (n : ℕ) (t : ScheduledTask)
        → p t ≡ false
        → p (armed c from_timestamp timestamp r n t) ≡ false)
      (disables : (t : ScheduledTask) → p t ≡ false → p (disabled t) ≡ false) where
    act-none :
        (a : Action) (s : Registry)
        → SparesTask id a
        → any p s.tasks ≡ false
        → any p (act c from_timestamp timestamp a s).tasks ≡ false
    unfolding act schedule_task cancel_task remove_task due
    act-none (schedules t) s q h = rw (other t q) (any-keep_ne p t.id s.tasks h)
    act-none (cancels i) s q h = any-modify p i disabled s.tasks disables h
    act-none (removes i) s q h = any-keep_ne p i s.tasks h
    act-none (begins now) s q h = h
    act-none (finishes i r n) s q h = elim (Option-cases (nth_task i s.running)) [
      | inl e ↦ rw e h
      | inr (t, e) ↦
          rw e (any-modify p t.id (armed c from_timestamp timestamp t n) s.tasks (arms t n) h)
    ]

    -- A test that arming and disabling cannot make true, and that holds of no task, goes on to hold of none
    -- as long as none is scheduled that passes it.
    act_all-none :
        (actions : List Action) (s : Registry)
        → All (SparesTask id) actions
        → any p s.tasks ≡ false
        → any p (act_all c from_timestamp timestamp actions s).tasks ≡ false
    unfolding act_all
    act_all-none [] s q h = h
    act_all-none (a ∷ rest) s q h =
        act_all-none rest (act c from_timestamp timestamp a s) q.1 (act-none a s q.0 h)

  act-copies :
      (id : ℕ) (a : Action) (s : Registry)
      → any (active id) s.tasks ≡ false
      → copies id (act c from_timestamp timestamp a s).running ≤ copies id s.running
  unfolding act schedule_task cancel_task remove_task due
  act-copies id (schedules t) s h = omega arith
  act-copies id (cancels i) s h = omega arith
  act-copies id (removes i) s h = omega arith
  act-copies id (begins now) s h = omega (
    arith,
    copies-append id s.running (keep (is_due now) s.tasks),
    copies-none id (keep (is_due now) s.tasks) (not_due id now s.tasks h),
  )
  act-copies id (finishes i r n) s h = elim (Option-cases (nth_task i s.running)) [
    | inl e ↦ rw e (omega arith)
    | inr (t, e) ↦ rw e (copies-drop id i s.running)
  ]

  act_all-copies :
      (id : ℕ) (actions : List Action) (s : Registry)
      → All (SparesTask id) actions
      → any (active id) s.tasks ≡ false
      → copies id (act_all c from_timestamp timestamp actions s).running ≤ copies id s.running
  unfolding act_all
  act_all-copies id [] s q h = omega arith
  act_all-copies id (a ∷ rest) s q h = omega (
    arith,
    act-copies id a s h,
    act_all-copies id rest (act c from_timestamp timestamp a s) q.1 (
        act-none id (active id) (λ t ne. ground arith) (λ r n t k. k) (λ t k. ground arith) a s q.0
          h),
  )

  -- After `cancel`, whatever other calls follow, as long as the task is not scheduled anew: no later call
  -- of `run_pending` takes the task, and of the copies that earlier calls took no more are left to run than
  -- when it was cancelled.
  pub cancelled_never_due :
      (id now : ℕ) (s : Registry) (actions : List Action)
      → All (SparesTask id) actions
      → (any (has_id id) (due now (act_all c from_timestamp timestamp actions (cancel_task id s).0))
          ≡ false)
        × (copies id (act_all c from_timestamp timestamp actions (cancel_task id s).0).running
            ≤ copies id s.running)
  unfolding due cancel_task
  cancelled_never_due id now s actions q = (
    not_due id now (act_all c from_timestamp timestamp actions (cancel_task id s).0).tasks (
        act_all-none id (active id) (λ t ne. ground arith) (λ r n t h. h) (λ t h. ground arith)
          actions (cancel_task id s).0 q (active-disabled id s.tasks)),
    act_all-copies id actions (cancel_task id s).0 q (active-disabled id s.tasks),
  )

  -- A removed task does not come back, even where its goal was being run when it was removed, as long as
  -- it is not scheduled anew.
  pub removed_stays_removed :
      (id : ℕ) (s : Registry) (actions : List Action)
      → All (SparesTask id) actions
      → get_task id (act_all c from_timestamp timestamp actions (remove_task id s).0) ≡ none
  unfolding get_task remove_task
  removed_stays_removed id s actions q =
      find-none (has_id id) (act_all c from_timestamp timestamp actions (remove_task id s).0).tasks
        (act_all-none id (has_id id) (λ t ne. ground arith) (λ r n t h. h) (λ t h. h) actions
          (remove_task id s).0 q (none-removed id s.tasks))

find-modify :
    (id : ℕ) (f : ScheduledTask → ScheduledTask) (t : ScheduledTask) (ts : List ScheduledTask)
    → ((u : ScheduledTask) → (f u).id ≡ u.id)
    → find (has_id id) ts ≡ some t
    → find (has_id id) (modify_task id f ts) ≡ some (f t)
find-modify id f t [] k h = cc
find-modify id f t (u ∷ us) k h = ground (arith, find-modify id f t us k, k u)

-- When a task is cancelled while its goal is run, the end of the run arms it again: it stays disabled,
-- but it has the next date of its schedule as the time of its next run.
pub cancel_during_run_rearms :
    (c : Chrono) (from_timestamp : ℕ → Option c.Time) (timestamp : c.Time → ℕ) (i : ℕ)
    (t stored : ScheduledTask) (r : Result Text Text) (now : ℕ) (s : Registry)
    → nth_task i s.running ≡ some t
    → get_task t.id s ≡ some stored
    → get_task t.id (act c from_timestamp timestamp (finishes i r now) (cancel_task t.id s).0)
      ≡ some (record stored {
        enabled = false;
        last_run = some now;
        next_run = next_run_after c from_timestamp timestamp t.cron now;
      })
unfolding act get_task cancel_task
cancel_during_run_rearms c from_timestamp timestamp i t stored r now s h k = rw h (
    find-modify t.id (armed c from_timestamp timestamp t now) (disabled stored)
      (modify_task t.id disabled s.tasks) (λ u. refl)
      (find-modify t.id disabled stored s.tasks (λ u. refl) k))
