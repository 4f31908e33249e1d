-- ===== src/Runtime/Lane/Call.antt =====
-- The calls of the fast lane, of crates/lucy-runtime/src/fast_perception.rs: each goes through the gate,
-- and is counted. The registry, the user and the tools are the record Tools, which answers by the tick;
-- latencies, events and the log are left out.
pub mod Allowed
use lucy.Prelude.{
  ℕ, suc, Bool, true, false, not, ◌&&◌, ◌||◌, Option, none, some, List, [], ◌∷◌, any, if◌then◌else◌,
}
use lucy.Text.{Text, codes, text_eq, strip_prefix}
use lucy.Core.Approval.{
  ApprovalGate, ApprovalDecision, deny, allow_once, allow_always, needs_approval,
}
use lucy.Runtime.Json.{Json, or_else}
use lucy.Runtime.Lane.{ActKind, click, type_text, press}
use lucy.Runtime.Lane.Reply.{tool_reports_failure, action_success, press_success}

pub record Tools (V : Type 0) : Type 0 where
  -- `resolve_fast_tool` and `requires_approval` of the registry
  pub resolve : Text → Option Text
  pub requires_approval : Text → Bool
  pub destructive_tools : List Text
  -- the gate as it stands at the tick
  pub gate : ℕ → Option ApprovalGate
  pub ask : ℕ → Text → Option ApprovalDecision
  -- `none` is an error
  pub execute : ℕ → Text → Option V

pub record Executed : Type 0 where
  pub at_tick : ℕ
  pub tool : Text

-- `executed` is no part of the program; the newest is first.
pub record Lane : Type 0 where
  pub calls : ℕ
  pub failures : ℕ
  pub executed : List Executed
  pub tick : ℕ

abbrev or_same : Text → Option Text → Text
or_same s none = s
or_same s (some r) = r

-- the name without the prefix of its server
abbrev pub bare_name : Text → Text
bare_name tool = or_same tool (
    or_else (strip_prefix (codes "mcp_hyprfast_") tool)
      (or_else (strip_prefix (codes "mcp_computer_use_") tool) (strip_prefix (codes "mcp_") tool)))

abbrev pub is_in : Text → List Text → Bool
is_in t ts = any (text_eq t) ts

unfoldable pub is_destructive : List Text → Text → Bool
unfolding strip_prefix
is_destructive destructive tool = is_in tool destructive || is_in (bare_name tool) destructive

-- `FastCallStats::record`
abbrev pub count : Bool → Lane → Lane
count true s = record s { calls = suc s.calls; tick = suc s.tick }
count false s = record s { calls = suc s.calls; failures = suc s.failures; tick = suc s.tick }

module _ {V : Type 0} (j : Json V) (tools : Tools V) where
  -- `FastContext::approval_required`
  unfoldable pub approval_required : Text → Bool
  unfolding is_destructive
  approval_required tool =
      tools.requires_approval tool || is_destructive tools.destructive_tools tool

  abbrev pub asks_of : Text → Option ApprovalGate → Bool
  asks_of tool none = false
  asks_of tool (some g) = needs_approval g tool (approval_required tool)

  abbrev pub gate_asks : ℕ → Text → Bool
  gate_asks t tool = asks_of tool (tools.gate t)

  abbrev pub executes : Text → Lane → Option V × Lane
  executes tool s =
      let out = tools.execute s.tick tool in
      (
        out,
        count (not (tool_reports_failure j out))
            (record s { executed = record { at_tick = s.tick; tool = tool } ∷ s.executed }),
      )

  abbrev pub after_answer : Text → Lane → Option ApprovalDecision → Option V × Lane
  after_answer tool s none = (none, count false s)
  after_answer tool s (some deny) = (none, count false s)
  after_answer tool s (some d) = executes tool s

  abbrev pub with_tool : Lane → Option Text → Option V × Lane
  with_tool s none = (none, count false s)
  with_tool s (some tool) =
      if gate_asks s.tick tool then after_answer tool s (tools.ask s.tick tool) else executes tool s

  unfoldable pub call_fast : Text → Lane → Option V × Lane
  unfolding approval_required tool_reports_failure
  call_fast tool s = with_tool s (tools.resolve tool)

  abbrev succeeded : (V → Bool) → Option V → Bool
  succeeded test none = false
  succeeded test (some v) = test v

  unfoldable pub press_key : Lane → Bool × Lane
  unfolding call_fast press_success
  press_key s =
      let (out, s') = call_fast (codes "browser_press_key") s in
      (succeeded (press_success j) out, s')

  abbrev fallback_tool : ActKind → Text
  fallback_tool click = codes "find_and_click"
  fallback_tool type_text = codes "find_and_type"
  fallback_tool press = codes "hint_act"

  -- the ladder, after `hint_act`: an error ends it
  abbrev pub fall_back : ActKind → Option V → Lane → Bool × Lane
  fall_back k none s = (false, s)
  fall_back k (some v) s =
      if action_success j v
      then (true, s)
      else let (out, s') = call_fast (fallback_tool k) s in (succeeded (action_success j) out, s')

  -- whether `act` succeeds
  unfoldable pub act : ActKind → Lane → Bool × Lane
  unfolding call_fast press_key action_success
  act press s = press_key s
  act k s = let (out, s') = call_fast (codes "hint_act") s in fall_back k out s'
