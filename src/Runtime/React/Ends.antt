-- ===== src/Runtime/React/Ends.antt =====
-- What a run of the ReAct loop comes to, from its start.
use lucy.Prelude.{
  ℕ, suc, ◌≤◌, ◌<◌, ◌≡◌, refl, Option, none, some, List, ◌∷◌, true, All, arith, Result, ok, err,
}
use lucy.Runtime.React.{
  ReactBudget, ReactStop, complete, budget_exhausted, interrupted, Decision, Env, Message, decided,
  ReactRun,
}
use lucy.Runtime.React.Calls.{verdict_of}
use lucy.Runtime.React.Loop.{
  drive, start, ReactOutcome, ReactError, was_cancelled, no_fuel, outcome_by, outcome_of, run_react,
}
use lucy.Runtime.React.Flows.{Allowed}
use lucy.Runtime.React.Invariant.{Ended, drive-Ended}

start-Ended :
    (env : Env) (b : ReactBudget)
    → Ended env b.max_llm_calls (drive (suc b.max_llm_calls) env b start)
start-Ended env b =
    drive-Ended (suc b.max_llm_calls) 0 env b start (refl, refl, tt) (omega arith) (omega arith)

-- an outcome within the budget, or the user's cancel
abbrev pub Finishes : ReactBudget → Result ReactError ReactOutcome → Type 0
Finishes b (ok o) = o.stats.llm_calls ≤ b.max_llm_calls
Finishes b (err was_cancelled) = Unit
Finishes b (err no_fuel) = ⊥

outcome_by-Finishes :
    (b : ReactBudget) (s : ReactRun) (o : Option ReactStop)
    → s.stats.llm_calls ≤ b.max_llm_calls
    → Finishes b (outcome_by s o)
outcome_by-Finishes b s none h = h
outcome_by-Finishes b s (some interrupted) h = tt
outcome_by-Finishes b s (some complete) h = h
outcome_by-Finishes b s (some budget_exhausted) h = h

outcome_of-Finishes :
    (env : Env) (b : ReactBudget) (o : Option ReactRun)
    → Ended env b.max_llm_calls o
    → Finishes b (outcome_of o)
outcome_of-Finishes env b none h = h
outcome_of-Finishes env b (some s) h = outcome_by-Finishes b s s.stop h.0

-- Whatever the model, the tools, the page and the user answer, a run of the loop comes to an end: it
-- never needs more rounds than the budget allows decisions and one more, and it returns the user's
-- cancel or an outcome after at most `max_llm_calls` calls of the model.
pub run_react-Finishes : (env : Env) (b : ReactBudget) → Finishes b (run_react env b)
unfolding run_react
run_react-Finishes env b =
    outcome_of-Finishes env b (drive (suc b.max_llm_calls) env b start) (start-Ended env b)

-- the last message of the transcript is a claim that a check held up, and a tool call was counted
abbrev pub Supported : Env → ReactOutcome → Type 0
Supported env o =
    (d : Decision) × (rest : List Message) × (t : ℕ) × (o.messages ≡ decided d ∷ rest)
    × (verdict_of env d t ≡ some true)
    × (0 < o.stats.tool_calls)

Ended-executed :
    (env : Env) (most : ℕ) (r : Option ReactRun)
    → Ended env most r
    → (s : ReactRun) × (r ≡ some s) × All (Allowed env) s.executed
Ended-executed env most none h = absurd h
Ended-executed env most (some s) h = (s, refl, h.1)

-- A run of the loop ends with a state in which every tool that was executed was allowed: where the gate
-- asked for approval of the tool, the user was asked at that tick and gave an answer that is no refusal.
pub drive-Allowed :
    (env : Env) (b : ReactBudget)
    → (s : ReactRun) × (drive (suc b.max_llm_calls) env b start ≡ some s)
      × All (Allowed env) s.executed
drive-Allowed env b =
    Ended-executed env b.max_llm_calls (drive (suc b.max_llm_calls) env b start) (start-Ended env b)
