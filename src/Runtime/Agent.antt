-- ===== src/Runtime/Agent.antt =====
-- The agent loop of crates/lucy-runtime/src/agent_loop.rs: its plan, its budget and its counters. A run
-- asks the fast lane, the page, the planner and the stop signal, which are the record Env and answer at
-- the tick when they are asked.
pub mod Probe
pub mod Objectives
pub mod State
pub mod Pursue
pub mod Plan
pub mod Drive
use lucy.Prelude.{ℕ, suc, ◌+◌, ◌*◌, ◌^◌, ◌-◌, Bool, Option, List, max, min}
use lucy.Text.{Text, trim, is_empty}
use lucy.Runtime.Lane.{ActKind}
use lucy.Prelude.{if◌then◌else◌}

pub record Objective : Type 0 where
  pub description : Text
  pub success_check : Text
  pub suggested_action : Text
  pub action : ActKind
  pub text : Option Text
  pub success_probe : Option Text

-- `Objective::instruction`
unfoldable pub instruction : Objective → Text
unfolding trim
instruction o =
    let action = trim o.suggested_action in if is_empty action then trim o.description else action

pub record AgentBudget : Type 0 where
  pub max_llm_calls : ℕ
  pub max_recoveries : ℕ
  pub max_step_retries : ℕ
  pub replan_on_failure : Bool
  pub max_act_steps : ℕ
  pub max_repeats : ℕ
  pub wait_timeout_ms : ℕ

abbrev default_max_repeats : ℕ
default_max_repeats = 2

abbrev default_wait_timeout_ms : ℕ
default_wait_timeout_ms = 4000

-- what `from_config` reads of the configuration
pub record BudgetConfig : Type 0 where
  pub max_llm_calls_single_task : ℕ
  pub max_recoveries : ℕ
  pub max_step_retries : ℕ
  pub replan_on_failure : Bool
  pub max_depth : ℕ

abbrev clamp : ℕ → ℕ → ℕ → ℕ
clamp x lo hi = min (max x lo) hi

-- `AgentBudget::from_config`
unfoldable pub budget_from_config : BudgetConfig → AgentBudget
budget_from_config c = record {
  max_llm_calls = max c.max_llm_calls_single_task 1;
  max_recoveries = c.max_recoveries;
  max_step_retries = c.max_step_retries;
  replan_on_failure = c.replan_on_failure;
  max_act_steps = clamp c.max_depth 1 64 * 3;
  max_repeats = default_max_repeats;
  wait_timeout_ms = default_wait_timeout_ms;
}

abbrev usize_max : ℕ
usize_max = 2 ^ 64 - 1

-- `saturating_add(1)`
abbrev saturating_suc : ℕ → ℕ
saturating_suc n = min (n + 1) usize_max

unfoldable pub attempts_per_objective : AgentBudget → ℕ
attempts_per_objective b =
    max (max (saturating_suc b.max_step_retries) (saturating_suc b.max_repeats)) 1
