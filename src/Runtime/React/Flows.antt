-- ===== src/Runtime/React/Flows.antt =====
-- What the tool calls of a decision keep of a run of the ReAct loop.
use lucy.Prelude.{
  ℕ, ◌≤◌, ◌<◌, ◌≡◌, ◌≢◌, refl, true, Option, none, some, List, [], ◌∷◌, All, arith, Bool-cases, inl,
  inr,
}
use lucy.Text.{Text}
use lucy.Core.Approval.{ApprovalDecision, allow_once, allow_always, deny}
use lucy.Runtime.React.{
  complete, interrupted, DecisionCall, Decision, Env, Message, decided, Executed, ReactRun, Flow,
  go_on, cancelled, next_tick,
}
use lucy.Runtime.React.Calls.{
  run_tool, after_ask, must_ask, resolved, execute_one, and_then, execute, observe_probe,
  verdict_of,
}

-- the gate did not ask for approval of the tool, or the answer was not a refusal
abbrev pub Allowed : Env → Executed → Type 0
Allowed env e =
    must_ask env e.at_tick e.tool ≡ true
    → (d : ApprovalDecision) × (env.ask e.at_tick e.tool ≡ some d) × (d ≢ deny)

-- the claim that ends the transcript was held up by the page, after some tool call
abbrev pub Earned : Env → ReactRun → Type 0
Earned env s =
    (d : Decision) × (rest : List Message) × (t : ℕ) × (s.messages ≡ decided d ∷ rest)
    × (verdict_of env d t ≡ some true)
    × (0 < s.stats.tool_calls)

abbrev pub Going : Env → ℕ → ReactRun → Type 0
Going env n s = (s.stop ≡ none) × (s.stats.llm_calls ≡ n) × All (Allowed env) s.executed

abbrev pub Over : Env → ℕ → ReactRun → Type 0
Over env most s =
    (s.stats.llm_calls ≤ most)
    × All (Allowed env) s.executed
    × (s.stop ≡ some complete → Earned env s)

-- `Going` where the loop goes on, and what a cancel leaves
abbrev pub Flows : Env → ℕ → Flow → Type 0
Flows env n (go_on s) = Going env n s
Flows env n (cancelled s) =
    (s.stop ≡ some interrupted) × (s.stats.llm_calls ≡ n) × All (Allowed env) s.executed

run_tool-Flows :
    (env : Env) (n : ℕ) (call : DecisionCall) (tool : Text) (s : ReactRun)
    → Going env n s
    → Allowed env (record { at_tick = s.tick; tool = tool })
    → Flows env n (run_tool env call tool s)
run_tool-Flows env n call tool s g a = ground arith

after_ask-Flows :
    (env : Env) (n : ℕ) (call : DecisionCall) (tool : Text) (s : ReactRun)
    (o : Option ApprovalDecision)
    → Going env n s
    → env.ask s.tick tool ≡ o
    → Flows env n (after_ask env call tool s o)
after_ask-Flows env n call tool s none g h = ground arith
after_ask-Flows env n call tool s (some deny) g h = ground arith
after_ask-Flows env n call tool s (some allow_once) g h =
    run_tool-Flows env n call tool s g (λ m. (allow_once, h, λ e. ground (arith, e)))
after_ask-Flows env n call tool s (some allow_always) g h =
    run_tool-Flows env n call tool s g (λ m. (allow_always, h, λ e. ground (arith, e)))

resolved-Flows :
    (env : Env) (n : ℕ) (call : DecisionCall) (s : ReactRun) (o : Option Text)
    → Going env n s
    → Flows env n (resolved env call s o)
resolved-Flows env n call s none g = ground arith
resolved-Flows env n call s (some tool) g = elim (Bool-cases (must_ask env s.tick tool)) [
  | inl e ↦ rw e (after_ask-Flows env n call tool s (env.ask s.tick tool) g refl)
  | inr e ↦ rw e (run_tool-Flows env n call tool s g (λ m. ground (arith, m, e)))
]

and_then-Flows :
    (env : Env) (n : ℕ) (k : ReactRun → Flow) (f : Flow)
    → ((s : ReactRun) → Going env n s → Flows env n (k s))
    → Flows env n f
    → Flows env n (and_then k f)
and_then-Flows env n k (go_on s) h g = h s g
and_then-Flows env n k (cancelled s) h g = g

pub execute-Flows :
    (env : Env) (n : ℕ) (calls : List DecisionCall) (s : ReactRun)
    → Going env n s
    → Flows env n (execute env calls s)
unfolding execute execute_one
execute-Flows env n [] s g = g
execute-Flows env n (call ∷ calls) s g = elim (Bool-cases (env.is_set s.tick)) [
  | inl e ↦ rw e ground arith
  | inr e ↦ rw e (
      and_then-Flows env n (execute env calls) (execute_one env call (next_tick s))
        (execute-Flows env n calls)
        (resolved-Flows env n call (next_tick s) (env.resolve call.name) g))
]

pub observe_probe-Going :
    (env : Env) (n : ℕ) (o : Option Text) (s : ReactRun)
    → Going env n s
    → Going env n (observe_probe env o s)
unfolding observe_probe
observe_probe-Going env n none s g = g
observe_probe-Going env n (some p) s g = ground arith
