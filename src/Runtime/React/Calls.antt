-- ===== src/Runtime/React/Calls.antt =====
-- The parts of a round of the ReAct loop: the budget, the tool calls, the checks and the grade of a claim.
use lucy.Prelude.{
  ℕ, suc, Bool, true, false, ◌&&◌, Option, none, some, List, [], ◌∷◌, ◌==◌, leb, if◌then◌else◌,
}
use lucy.Text.{Text, trim, is_empty}
use lucy.Core.Approval.{ApprovalDecision, deny, needs_approval}
use lucy.Runtime.Observation.{from_option, completion_check}
use lucy.Runtime.React.{
  ReactBudget, ReactStop, ReactStats, DecisionCall, Decision, ToolOutcome, Env, ReactRun, Flow,
  next_tick, note, stopped, complete, budget_exhausted, interrupted, worked, claim_refuted,
  observed, page_check, go_on, cancelled,
}

-- `stop_if_spent`
unfoldable pub stop_if_spent : Env → ReactBudget → ReactRun → Option ReactStop
stop_if_spent env b s =
    if env.is_set s.tick
    then some interrupted
    else if leb b.max_llm_calls s.stats.llm_calls
    then some budget_exhausted
    else if leb b.max_tool_calls s.stats.tool_calls
    then some budget_exhausted
    else none

abbrev count_unknown : ReactStats → ReactStats
count_unknown t = record t { tool_calls = suc t.tool_calls; unknown_tools = suc t.unknown_tools }

abbrev count_denial : ReactStats → ReactStats
count_denial t = record t { tool_calls = suc t.tool_calls; denials = suc t.denials }

abbrev count_outcome : ToolOutcome → ReactStats → ReactStats
count_outcome worked t = t
count_outcome o t = record t { tool_errors = suc t.tool_errors }

abbrev is_failure : ToolOutcome → Bool
is_failure worked = false
is_failure o = true

-- the call is made, and its outcome is read
abbrev pub run_tool : Env → DecisionCall → Text → ReactRun → Flow
run_tool env call tool s =
    let s' = record s {
      stats = record s.stats { tool_calls = suc s.stats.tool_calls };
      executed = record { at_tick = s.tick; tool = tool } ∷ s.executed;
    } in
    let outcome = env.execute_tool s.tick tool in
    if env.is_set s.tick
    then cancelled (stopped interrupted s')
    else go_on (
        note (observed call.id tool (is_failure outcome))
          (record s' { stats = count_outcome outcome s'.stats }))

abbrev denied : DecisionCall → Text → ReactRun → Flow
denied call tool s =
    go_on (note (observed call.id tool true) (record s { stats = count_denial s.stats }))

-- after `ask_cancellable`
abbrev pub after_ask : Env → DecisionCall → Text → ReactRun → Option ApprovalDecision → Flow
after_ask env call tool s none =
    if env.is_set s.tick then cancelled (stopped interrupted s) else denied call tool s
after_ask env call tool s (some deny) = denied call tool s
after_ask env call tool s (some d) = run_tool env call tool s

abbrev pub must_ask : Env → ℕ → Text → Bool
must_ask env t tool = elim (env.gate t) [
  | none ↦ false
  | some g ↦ needs_approval g tool (env.approval_required tool)
]

abbrev pub resolved : Env → DecisionCall → ReactRun → Option Text → Flow
resolved env call s none =
    go_on (note (observed call.id call.name true) (record s { stats = count_unknown s.stats }))
resolved env call s (some tool) =
    if must_ask env s.tick tool
    then after_ask env call tool s (env.ask s.tick tool)
    else run_tool env call tool s

-- `execute_one`, at a tick of its own
unfoldable pub execute_one : Env → DecisionCall → ReactRun → Flow
execute_one env call s = resolved env call s (env.resolve call.name)

abbrev pub and_then : (ReactRun → Flow) → Flow → Flow
and_then k (go_on s) = k s
and_then k (cancelled s) = cancelled s

unfoldable pub execute : Env → List DecisionCall → ReactRun → Flow
execute env [] s = go_on s
execute env (call ∷ calls) s =
    if env.is_set s.tick
    then cancelled (stopped interrupted s)
    else and_then (execute env calls) (execute_one env call (next_tick s))

abbrev count_check : ReactRun → ReactRun
count_check s = record s { stats = record s.stats { fast_checks = suc s.stats.fast_checks } }

abbrev noted_check : Text → Option Bool → ReactRun → ReactRun
noted_check p none s = s
noted_check p (some v) s = note (page_check p v) s

-- `observe_probe`
unfoldable pub observe_probe : Env → Option Text → ReactRun → ReactRun
observe_probe env none s = s
observe_probe env (some p) s = noted_check p (env.probe_check s.tick p) (count_check s)

-- `screen_verdict`
abbrev screen_verdict : Env → Text → ℕ → Option Bool
screen_verdict env claim t = if is_empty (trim claim) then none else env.screen_check t claim

-- the probe if there is one, and else the screen
abbrev pub verdict_of : Env → Decision → ℕ → Option Bool
verdict_of env d t = elim d.probe [
  | none ↦ screen_verdict env (trim d.thought) t
  | some p ↦ env.probe_check t p
]

abbrev is_none {ℓ} : {A : Type ℓ} → Option A → Bool
is_none none = true
is_none (some a) = false

abbrev counted_if : Bool → ℕ → ℕ
counted_if true n = suc n
counted_if false n = n

-- the counters after a claim that is confirmed or not
abbrev pub graded : Bool → Decision → ReactStats → ReactStats
graded confirmed d t = record t {
  fast_checks = suc t.fast_checks;
  completion_claims = suc t.completion_claims;
  weak_confirmations = counted_if (confirmed && is_none d.probe) t.weak_confirmations;
}

abbrev refuted : Bool → ReactStats → ReactStats
refuted vacuous t = record t {
  claims_refuted = suc t.claims_refuted;
  vacuous_completions = counted_if vacuous t.vacuous_completions;
}

abbrev pub count_claim : Bool → Decision → ReactRun → ReactRun
count_claim confirmed d s = record s { stats = graded confirmed d s.stats }

abbrev pub after_grade : Bool → Bool → ReactRun → Flow
after_grade true false s = cancelled (stopped complete s)
after_grade confirmed vacuous s =
    go_on (note claim_refuted (record s { stats = refuted (confirmed && vacuous) s.stats }))

-- `grade_completion`, up to the test of the budget
unfoldable pub grade_completion : Env → Decision → ReactRun → Flow
grade_completion env d s =
    let confirmed =
      (completion_check (trim d.thought) (from_option (verdict_of env d s.tick) ∷ [])).is_done in
    after_grade confirmed (s.stats.tool_calls == 0) (count_claim confirmed d s)

abbrev pub keep_or : ReactStop → Option ReactStop → Option ReactStop
keep_or why none = some why
keep_or why (some w) = some w

-- `failed`: a stop that is set stays
unfoldable pub failed : Env → ReactRun → ReactRun
failed env s = record s {
  stop = keep_or (if env.is_set s.tick then interrupted else budget_exhausted) s.stop;
}
