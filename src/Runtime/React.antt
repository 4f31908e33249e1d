-- ===== src/Runtime/React.antt =====
-- The ReAct loop of crates/lucy-runtime/src/react.rs. The model, the tools, the page, the user and the
-- stop signal are the environment, which answers at the tick when it is asked. What the model replies
-- is taken as the decision that is read from it.
pub mod Calls
pub mod Loop
pub mod Flows
pub mod Invariant
pub mod Ends
use lucy.Prelude.{
  ℕ, suc, ◌*◌, Bool, not, Option, none, some, List, ◌∷◌, max, min, if◌then◌else◌, ◌^◌, ◌-◌,
}
use lucy.Text.{Text}
use lucy.Core.Approval.{ApprovalGate, ApprovalDecision}

-- Left out of the records: the bounds on an observation, the input of a call, `unparsed`, and the words
-- of a summary.
pub record ReactBudget : Type 0 where
  pub max_llm_calls : ℕ
  pub max_tool_calls : ℕ

abbrev default_tools_per_decision : ℕ
default_tools_per_decision = 1

abbrev usize_max : ℕ
usize_max = 2 ^ 64 - 1

-- `ReactBudget::from_config`
unfoldable pub from_config : ℕ → ReactBudget
from_config max_llm_calls_single_task =
    let calls = max max_llm_calls_single_task 1 in
    record {
      max_llm_calls = calls;
      max_tool_calls = min (calls * default_tools_per_decision) usize_max;
    }

pub data ReactStop : Type 0 where
  complete budget_exhausted interrupted : ReactStop

pub record ReactStats : Type 0 where
  pub llm_calls : ℕ
  pub tool_calls : ℕ
  pub tool_errors : ℕ
  pub unknown_tools : ℕ
  pub denials : ℕ
  pub fast_checks : ℕ
  pub completion_claims : ℕ
  pub claims_refuted : ℕ
  pub weak_confirmations : ℕ
  pub vacuous_completions : ℕ

pub record DecisionCall : Type 0 where
  pub id : Text
  pub name : Text
  pub description : Text

pub record Decision : Type 0 where
  pub thought : Text
  pub probe : Option Text
  pub tool_calls : List DecisionCall

-- What a tool call comes back with: a value, a value that reports a failure, or an error.
pub data ToolOutcome : Type 0 where
  worked reported_failure errored : ToolOutcome

-- The answers of the environment, by the tick.
pub record Env : Type 0 where
  pub is_set : ℕ → Bool
  -- `none` where the model was not available
  pub complete_turn : ℕ → Option Decision
  -- `resolve_plan_tool` on the registry, and whether the registry asks for approval of the tool
  pub resolve : Text → Option Text
  pub approval_required : Text → Bool
  -- the gate as it stands, if there is one, and what `ask_cancellable` answers
  pub gate : ℕ → Option ApprovalGate
  pub ask : ℕ → Text → Option ApprovalDecision
  pub execute_tool : ℕ → Text → ToolOutcome
  pub probe_check : ℕ → Text → Option Bool
  pub screen_check : ℕ → Text → Option Bool

-- What the transcript gets; the wording is left out.
pub data Message : Type 0 where
  goal_stated perceived empty_reply_note claim_refuted : Message
  decided : Decision → Message
  -- the id of the call, the tool, and whether it is an error
  observed : Text → Text → Bool → Message
  page_check : Text → Bool → Message

-- A tool call that the loop made: when the gate was asked, and the tool.
pub record Executed : Type 0 where
  pub at_tick : ℕ
  pub tool : Text

-- `executed` is no part of the program; the newest is first, in `messages` too.
pub record ReactRun : Type 0 where
  pub stats : ReactStats
  pub stop : Option ReactStop
  pub messages : List Message
  pub executed : List Executed
  pub tick : ℕ

-- Whether the loop goes on after a part of it.
pub data Flow : Type 0 where
  go_on cancelled : ReactRun → Flow

abbrev pub next_tick : ReactRun → ReactRun
next_tick s = record s { tick = suc s.tick }

abbrev pub note : Message → ReactRun → ReactRun
note m s = record s { messages = m ∷ s.messages }

abbrev pub stopped : ReactStop → ReactRun → ReactRun
stopped why s = record s { stop = some why }
