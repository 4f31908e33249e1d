-- ===== src/Runtime/Tests.antt =====
-- The ReAct loop on a small environment.
use lucy.Prelude.{
  ℕ, ◌≡◌, refl, true, false, Option, none, some, [], ◌∷◌, All, Result, ok, err, ltb, if◌then◌else◌,
}
use lucy.Text.{codes, trim}
use lucy.Core.Approval.{
  ApprovalGate, allow_once, write_mode, needs_approval, current_mode, is_always_allowed,
}
use lucy.Runtime.React.{
  from_config, complete, budget_exhausted, decided, observed, perceived, goal_stated, ReactStop,
  Decision, DecisionCall, Env, worked, ReactRun,
}
use lucy.Runtime.React.Calls.{stop_if_spent, execute, execute_one, observe_probe, failed}
use lucy.Runtime.React.Loop.{ReactError, ReactOutcome, drive, start, run_react}
use lucy.Runtime.React.Flows.{Allowed}
use lucy.Runtime.React.Ends.{Finishes, run_react-Finishes, drive-Allowed}

abbrev click : DecisionCall
click = record { id = codes "c1"; name = codes "click"; description = codes "press the button" }

abbrev clicks : Decision
clicks = record { thought = codes "press it"; probe = none; tool_calls = click ∷ [] }

abbrev claims : Decision
claims = record {
  thought = codes "pressed";
  probe = some (codes "!!button.pressed");
  tool_calls = [];
}

abbrev gate : ApprovalGate
gate = record {
  mode = write_mode;
  always_allow = [];
  pending = [];
  sent = [];
  next_channel = 0;
  published = [];
}

-- The first decision clicks, the others claim that the goal is done; the user allows the click.
abbrev page : Env
page = record {
  is_set = λ _. false;
  complete_turn = λ t. if ltb t 2 then some clicks else some claims;
  resolve = λ name. some name;
  approval_required = λ _. true;
  gate = λ _. some gate;
  ask = λ _ _. some allow_once;
  execute_tool = λ _ _. worked;
  probe_check = λ _ _. some true;
  screen_check = λ _ _. none;
}

run_react-Finishes_example : Finishes (from_config 3) (run_react page (from_config 3))
run_react-Finishes_example = run_react-Finishes page (from_config 3)

drive-Allowed_example :
    (s : ReactRun) × (drive 4 page (from_config 3) start ≡ some s) × All (Allowed page) s.executed
unfolding from_config
drive-Allowed_example = drive-Allowed page (from_config 3)

abbrev report : ReactOutcome
report = record {
  stats = record {
    llm_calls = 2;
    tool_calls = 1;
    tool_errors = 0;
    unknown_tools = 0;
    denials = 0;
    fast_checks = 2;
    completion_claims = 1;
    claims_refuted = 0;
    weak_confirmations = 0;
    vacuous_completions = 0;
  };
  why = complete;
  messages =
      decided claims
      ∷ observed (codes "c1") (codes "click") false
      ∷ decided clicks
      ∷ perceived
      ∷ goal_stated
      ∷ [];
}

abbrev silent : Env
silent = record page { complete_turn = λ _. none }

abbrev read : Result ReactError ReactOutcome → Option (ReactStop × ℕ × ℕ)
read (ok o) = some (o.why, o.stats.llm_calls, o.stats.tool_calls)
read (err e) = none

-- Where the model does not answer, the run is reported as out of budget after one of three decisions.
unavailable_model : read (run_react silent (from_config 3)) ≡ some (budget_exhausted, 1, 0)
unfolding run_react drive stop_if_spent from_config failed
unavailable_model = refl

abbrev script : Env
script = record page {
  complete_turn = λ _. some (record clicks { tool_calls = click ∷ click ∷ click ∷ [] });
}

-- One decision with three calls passes a ceiling of two tool calls.
over_the_ceiling : read (run_react script (from_config 2)) ≡ some (budget_exhausted, 1, 3)
unfolding run_react drive stop_if_spent from_config execute execute_one needs_approval current_mode
    trim is_always_allowed observe_probe
over_the_ceiling = refl
