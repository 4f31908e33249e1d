-- ===== src/Runtime/React/Loop.antt =====
-- The rounds of the ReAct loop and what a run returns.
use lucy.Prelude.{ℕ, zero, suc, Option, none, some, List, [], ◌∷◌, if◌then◌else◌, Result, ok, err}
use lucy.Text.{trim, is_empty}
use lucy.Runtime.React.{
  ReactBudget, ReactStop, ReactStats, DecisionCall, Decision, Env, Message, ReactRun, Flow,
  next_tick, note, stopped, budget_exhausted, interrupted, goal_stated, perceived, empty_reply_note,
  decided, go_on, cancelled,
}
use lucy.Runtime.React.Calls.{stop_if_spent, execute, observe_probe, grade_completion, failed}

-- What goes on with the run where it is not stopped; `none` is no more fuel.
abbrev pub Continue : Type 0
Continue = ReactRun → Option ReactRun

abbrev pub or_go_on : Continue → ReactRun → Option ReactStop → Option ReactRun
or_go_on k s none = k (next_tick s)
or_go_on k s (some why) = some (stopped why s)

abbrev pub unless_spent : Env → ReactBudget → Continue → ReactRun → Option ReactRun
unless_spent env b k s = or_go_on k s (stop_if_spent env b s)

-- the calls are made; the test of the budget follows
abbrev pub acted : Env → ReactBudget → Continue → Decision → Flow → Option ReactRun
acted env b k d (cancelled s) = some (failed env s)
acted env b k d (go_on s) = unless_spent env b k (observe_probe env d.probe s)

abbrev pub claimed : Env → ReactBudget → Continue → Flow → Option ReactRun
claimed env b k (cancelled s) = some s
claimed env b k (go_on s) = unless_spent env b k s

abbrev pub act_on :
    Env → ReactBudget → Continue → Decision → List DecisionCall → ReactRun → Option ReactRun
act_on env b k d (call ∷ calls) s = acted env b k d (execute env (call ∷ calls) s)
act_on env b k d [] s =
    if is_empty (trim d.thought)
    then k (note empty_reply_note s)
    else claimed env b k (grade_completion env d s)

abbrev pub decided_turn :
    Env → ReactBudget → Continue → ReactRun → Option Decision → Option ReactRun
decided_turn env b k s none =
    some (failed env (if env.is_set s.tick then stopped interrupted s else s))
decided_turn env b k s (some d) = act_on env b k d d.tool_calls (next_tick (note (decided d) s))

abbrev pub count_decision : ReactRun → ReactRun
count_decision s = record s { stats = record s.stats { llm_calls = suc s.stats.llm_calls } }

-- `decide`, and what follows from it in the round
unfoldable pub decide : Env → ReactBudget → Continue → ReactRun → Option ReactRun
decide env b k s = decided_turn env b k (count_decision s) (env.complete_turn s.tick)

-- `drive`: each round of the loop takes fuel
unfoldable pub drive : ℕ → Env → ReactBudget → ReactRun → Option ReactRun
unfolding decide
drive zero env b s = none
drive (suc fuel) env b s = unless_spent env b (decide env b (drive fuel env b)) s

abbrev no_stats : ReactStats
no_stats = record {
  llm_calls = 0;
  tool_calls = 0;
  tool_errors = 0;
  unknown_tools = 0;
  denials = 0;
  fast_checks = 0;
  completion_claims = 0;
  claims_refuted = 0;
  weak_confirmations = 0;
  vacuous_completions = 0;
}

-- after `perceive`
abbrev pub start : ReactRun
start = record {
  stats = record no_stats { fast_checks = 1 };
  stop = none;
  messages = perceived ∷ goal_stated ∷ [];
  executed = [];
  tick = 0;
}

pub record ReactOutcome : Type 0 where
  pub stats : ReactStats
  pub why : ReactStop
  pub messages : List Message

pub data ReactError : Type 0 where
  was_cancelled no_fuel : ReactError

abbrev pub outcome_by : ReactRun → Option ReactStop → Result ReactError ReactOutcome
outcome_by s none = ok (record { stats = s.stats; why = budget_exhausted; messages = s.messages })
outcome_by s (some interrupted) = err was_cancelled
outcome_by s (some w) = ok (record { stats = s.stats; why = w; messages = s.messages })

abbrev pub outcome_of : Option ReactRun → Result ReactError ReactOutcome
outcome_of none = err no_fuel
outcome_of (some s) = outcome_by s s.stop

-- `run_react`, with fuel for each decision that the budget allows
unfoldable pub run_react : Env → ReactBudget → Result ReactError ReactOutcome
run_react env b = outcome_of (drive (suc b.max_llm_calls) env b start)
