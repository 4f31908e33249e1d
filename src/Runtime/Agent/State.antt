-- ===== src/Runtime/Agent/State.antt =====
-- What a run of the agent loop keeps, and what it asks.
use lucy.Prelude.{ℕ, suc, Bool, true, false, Option, List, []}
use lucy.Text.{Text}
use lucy.Runtime.Lane.{VerifyOutcome}
use lucy.Runtime.Agent.{Objective}

-- `ScreenState`, with its `fingerprint()` and `summary()`
pub record ScreenState : Type 0 where
  pub described : List Text
  pub count : ℕ
  pub fingerprint : ℕ
  pub summary : Text

-- The answers of the page, the fast lane and the stop signal, by the tick.
pub record Env : Type 0 where
  pub is_set : ℕ → Bool
  pub perceive_screen : ℕ → ScreenState
  -- `none` where the probe could not run
  pub probe_verdict : ℕ → Text → Option Bool
  pub verify_step : ℕ → Text → Option Text → VerifyOutcome
  pub wait_for : ℕ → Text → Bool
  -- whether the act and the press succeeded
  pub act : ℕ → Text → Objective → Bool
  pub press_key : ℕ → Text → Bool
  -- whether a target was found with confidence
  pub decide_target : ℕ → Text → Bool
  pub page_url : ℕ → Option Text
  pub page_host : ℕ → Option Text
  -- `char::is_alphanumeric`
  pub alnum : ℕ → Bool

-- Left out: the counters of the fast lane, and `blind_steps`, which another path sets.
pub record AgentRunStats : Type 0 where
  pub act_steps : ℕ
  pub llm_calls : ℕ
  pub recoveries : ℕ
  pub objectives_total : ℕ
  pub objectives_done : ℕ
  pub objectives_failed : List Text
  pub vacuous_probes : ℕ
  pub site_navigations : ℕ
  pub satisfied_by_navigation : Bool
  pub complete : Bool

pub data ReplanReason : Type 0 where
  unchanged_screen blank_screen not_grounded : ReplanReason

pub data ObjectiveExit : Type 0 where
  exit_satisfied : ObjectiveExit
  needs_replan : ReplanReason → ObjectiveExit
  unproven attempts_exhausted act_budget_exhausted : ObjectiveExit

-- `observations` are the facts about pages; the tick counts what the run asked.
pub record AgentRun : Type 0 where
  pub stats : AgentRunStats
  pub observations : List Text
  pub tick : ℕ

-- An objective is left, or the run is cancelled.
pub data Pursued : Type 0 where
  exits : ObjectiveExit → AgentRun → Pursued
  cancelled : AgentRun → Pursued

abbrev pub ask : AgentRun → AgentRun
ask s = record s { tick = suc s.tick }

abbrev pub count_act : AgentRun → AgentRun
count_act s = record s { stats = record s.stats { act_steps = suc s.stats.act_steps } }

abbrev pub count_vacuous : AgentRun → AgentRun
count_vacuous s = record s {
  stats = record s.stats { vacuous_probes = suc s.stats.vacuous_probes };
}

abbrev pub by_navigation : AgentRun → AgentRun
by_navigation s = record s { stats = record s.stats { satisfied_by_navigation = true } }

abbrev pub no_stats : AgentRunStats
no_stats = record {
  act_steps = 0;
  llm_calls = 0;
  recoveries = 0;
  objectives_total = 0;
  objectives_done = 0;
  objectives_failed = [];
  vacuous_probes = 0;
  site_navigations = 0;
  satisfied_by_navigation = false;
  complete = false;
}
