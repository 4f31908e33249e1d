-- ===== src/Runtime/Agent/Drive.antt =====
-- The rounds of crates/lucy-runtime/src/agent_loop.rs, its final check and its report. `drive`'s cursor
-- cuts the objectives in two: those that were passed, and those from the cursor on.
pub mod Rounds
pub mod Complete
pub mod Ends
pub mod Cached
pub mod Early
use lucy.Prelude.{
  ℕ, zero, suc, ◌+◌, ◌*◌, Bool, true, false, not, ◌&&◌, ◌||◌, Option, none, some, List, [], ◌∷◌,
  ◌++◌, map, length, min, max, leb, ltb, ◌==◌, if◌then◌else◌, Result, ok, err,
}
use lucy.Text.{Text, trim}
use lucy.Runtime.Lane.{VerifyOutcome, satisfied, not_satisfied, uncertain}
use lucy.Runtime.Lane.Anchor.{is_in}
use lucy.Runtime.Agent.{Objective, AgentBudget}
use lucy.Runtime.Json.{Json}
use lucy.Runtime.Agent.Objectives.{parse_objectives}
use lucy.Runtime.Agent.State.{
  Env, AgentRunStats, ObjectiveExit, exit_satisfied, needs_replan, unproven, attempts_exhausted,
  act_budget_exhausted, AgentRun, Pursued, exits, cancelled, ask, count_vacuous, no_stats,
}
use lucy.Runtime.Agent.Pursue.{own_verdict, pursue_with_origin}
use lucy.Runtime.Agent.Plan.{
  Planner, Reply, replied, no_reply, Plan, from_cache, from_model, Cache, plan, replan,
  go_to_named_site, fallback_objective, plan_cache_get, plan_cache_put, plan_cache_evict,
}

-- how the rounds end
pub data Driven : Type 0 where
  ended : List Objective → List Objective → AgentRun → Driven
  stopped : AgentRun → Driven
  no_fuel : Driven

abbrev pub count_done : AgentRun → AgentRun
count_done s = record s { stats = record s.stats { objectives_done = suc s.stats.objectives_done } }

abbrev pub count_failed : Objective → AgentRun → AgentRun
count_failed o s = record s {
  stats = record s.stats {
    objectives_failed = s.stats.objectives_failed ++ (trim o.description ∷ []);
  };
}

abbrev pub with_total : ℕ → AgentRun → AgentRun
with_total n s = record s { stats = record s.stats { objectives_total = n } }

abbrev pub Rounds : Type 0
Rounds = List Objective → List Objective → AgentRun → Driven

abbrev pub after_replan :
    Rounds
    → List Objective
    → Objective
    → List Objective
    → Option (List Objective) × AgentRun
    → Driven
after_replan k passed o rest (none, s) = k (passed ++ (o ∷ [])) rest s
after_replan k passed o rest (some revised, s) =
    k passed revised (with_total (length (passed ++ revised)) s)

-- what an objective's exit does to the rounds
abbrev pub after_pursue :
    Env
    → AgentBudget
    → Planner
    → Rounds
    → List Objective
    → Objective
    → List Objective
    → Pursued
    → Driven
after_pursue env b p k passed o rest (cancelled s) = stopped s
after_pursue env b p k passed o rest (exits exit_satisfied s) =
    k (passed ++ (o ∷ [])) rest (count_done s)
after_pursue env b p k passed o rest (exits unproven s) =
    k (passed ++ (o ∷ [])) rest (count_vacuous (count_failed o s))
after_pursue env b p k passed o rest (exits e s) =
    after_replan k passed o rest (replan env b p (count_failed o s))

-- the loop of `drive`; each round takes fuel
unfoldable pub rounds : ℕ → Env → AgentBudget → Planner → Bool → Rounds
unfolding pursue_with_origin replan trim
rounds zero env b p navigated passed rest s = no_fuel
rounds (suc fuel) env b p navigated passed [] s = ended passed [] s
rounds (suc fuel) env b p navigated passed (o ∷ rest) s =
    if env.is_set s.tick
    then stopped s
    else if leb b.max_act_steps s.stats.act_steps
    then ended passed (o ∷ rest) s
    else after_pursue env b p (rounds fuel env b p navigated) passed o rest
        (pursue_with_origin env b o navigated (ask s))

-- the last objective of a plan
abbrev pub last_of : List Objective → Option Objective
last_of [] = none
last_of (o ∷ []) = some o
last_of (o ∷ q ∷ os) = last_of (q ∷ os)

abbrev pub own_probe : Env → Option Objective → ℕ → Option Bool
own_probe env none t = none
own_probe env (some o) t = own_verdict env o t

-- the verdict on the whole goal: of the last objective's probe, and else of the screen
abbrev pub overall_of : Env → Text → Option Bool → Option Objective → ℕ → VerifyOutcome
overall_of env goal v none t = uncertain
overall_of env goal (some true) (some o) t = satisfied
overall_of env goal (some false) (some o) t = not_satisfied
overall_of env goal none (some o) t = env.verify_step t goal none

abbrev pub is_satisfied : VerifyOutcome → Bool
is_satisfied satisfied = true
is_satisfied v = false

abbrev pub is_refuted : Option Bool → Bool
is_refuted (some false) = true
is_refuted v = false

abbrev pub is_nil {ℓ} : {A : Type ℓ} → List A → Bool
is_nil [] = true
is_nil (x ∷ xs) = false

-- whether the run may be reported as a completion
abbrev pub completes : AgentRunStats → ℕ → Option Bool → VerifyOutcome → Bool
completes stats total verdict overall =
    (ltb 0 total
      && (stats.objectives_done == total)
      && is_nil stats.objectives_failed
      && not (is_refuted verdict && not stats.satisfied_by_navigation))
    || (is_satisfied overall && (stats.vacuous_probes == 0))

-- the descriptions that are not listed yet
abbrev add_missing : List Text → List Objective → List Text
add_missing named [] = named
add_missing named (o ∷ os) =
    let d = trim o.description in
    let rest = add_missing named os in
    let more = add_missing (named ++ (d ∷ [])) os in if is_in d named then rest else more

-- "Not done": what failed, and what the cursor did not come to
unfoldable pub outstanding : List Text → List Objective → List Text
unfolding trim
outstanding failed rest = add_missing failed rest

-- The report, without its wording.
pub record Report : Type 0 where
  pub complete : Bool
  pub done : ℕ
  pub total : ℕ
  pub overall : VerifyOutcome
  pub not_done : List Text

pub data Outcome : Type 0 where
  reported : Report → AgentRun → Outcome
  was_cancelled : AgentRun → Outcome
  out_of_fuel : Outcome

abbrev with_report : Bool → ℕ → AgentRun → AgentRun
with_report complete total s = record s {
  stats = record s.stats {
    objectives_done = min s.stats.objectives_done total;
    complete = complete;
  };
}

abbrev pub report_of :
    Env → Text → List Objective → List Objective → AgentRun → Option Bool → VerifyOutcome → Outcome
report_of env goal passed rest s verdict overall =
    let total = max (length (passed ++ rest)) s.stats.objectives_total in
    let complete = completes s.stats total verdict overall in
    reported
      (record {
        complete = complete;
        done = s.stats.objectives_done;
        total = total;
        overall = overall;
        not_done = if complete then [] else outstanding s.stats.objectives_failed rest;
      })
      (with_report complete total s)

-- `final_summary`
unfoldable pub final_summary : Env → Text → List Objective → List Objective → AgentRun → Outcome
unfolding outstanding
final_summary env goal passed rest s =
    if env.is_set s.tick
    then was_cancelled s
    else let last = last_of (passed ++ rest) in
      let verdict = own_probe env last s.tick in
      report_of env goal passed rest (ask s) verdict (overall_of env goal verdict last s.tick)

abbrev pub finish : Env → Text → Driven → Outcome
finish env goal (ended passed rest s) = final_summary env goal passed rest s
finish env goal (stopped s) = was_cancelled s
finish env goal no_fuel = out_of_fuel

abbrev pub rounds_fuel : AgentBudget → List Objective → ℕ
rounds_fuel b os = suc (length os + 7 * b.max_recoveries)

abbrev pub objectives_of : Plan → List Objective
objectives_of (from_cache os) = os
objectives_of (from_model os) = os

-- landing on the goal's own site is the whole task only where the plan has one objective
abbrev pub lands : List Objective → AgentRun → Bool
lands os s = ltb 0 s.stats.site_navigations && (length os == 1)

abbrev pub drive_plan : Env → AgentBudget → Planner → Text → List Objective → AgentRun → Outcome
drive_plan env b p goal os s =
    finish env goal
      (rounds (rounds_fuel b os) env b p (lands os s) [] os (with_total (length os) s))

abbrev pub first_run : AgentRun
first_run = record { stats = no_stats; observations = []; tick = 0 }

-- what `run_agent_loop_with` does to the cache of plans
abbrev pub cached_after : Text → Plan → Outcome → Cache → Cache
cached_after goal (from_model os) (reported r s) m =
    if r.complete && not (is_nil os) then plan_cache_put goal os m else m
cached_after goal (from_cache os) (reported r s) m =
    if r.complete then m else plan_cache_evict goal m
cached_after goal p o m = m

abbrev pub planned : Env → AgentBudget → Planner → Text → Cache → Plan × AgentRun → Outcome × Cache
planned env b p goal m (pl, s) =
    let out = drive_plan env b p goal (objectives_of pl) s in (out, cached_after goal pl out m)

-- the plan, after the run may have gone to the goal's site
unfoldable pub chosen :
    Env → AgentBudget → Planner → List Text → (Text → Text) → Text → Cache → Plan × AgentRun
unfolding go_to_named_site plan fallback_objective plan_cache_get
chosen env b p keywords quote goal m =
    plan b p (fallback_objective quote env.alnum goal) (plan_cache_get goal m)
      (go_to_named_site env goal keywords (ask first_run))

-- `run_agent_loop_with`, over `drive`
unfoldable pub run_agent_loop :
    Env → AgentBudget → Planner → List Text → (Text → Text) → Text → Cache → Outcome × Cache
unfolding rounds final_summary chosen plan_cache_put plan_cache_evict
run_agent_loop env b p keywords quote goal m =
    if env.is_set 0
    then (was_cancelled first_run, m)
    else planned env b p goal m (chosen env b p keywords quote goal m)

-- The planner of a run: each reply of the model is read by `parse_objectives`.
abbrev pub read_reply : {V : Type 0} → Json V → (ℕ → Bool) → Result Bool V → Reply
read_reply j alnum (ok v) = replied (parse_objectives j alnum v)
read_reply j alnum (err retryable) = no_reply retryable

unfoldable pub planner_of : {V : Type 0} → Json V → (ℕ → Bool) → (ℕ → Result Bool V) → Planner
unfolding parse_objectives
planner_of j alnum replies t = read_reply j alnum (replies t)
