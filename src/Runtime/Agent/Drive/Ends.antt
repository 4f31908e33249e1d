-- ===== src/Runtime/Agent/Drive/Ends.antt =====
-- What a run of the agent loop comes to.
use lucy.Prelude.{
  ℕ, ◌≤◌, ◌≡◌, refl, Bool, true, not, ◌&&◌, Option, none, some, List, [], arith, length, Bool-cases,
  inl, inr, Result, ok, err,
}
use mathlib.Core.Path.{subst}
use lucy.Text.{Text, text_eq, is_empty}
use lucy.Runtime.Json.{Json}
use lucy.Runtime.Lane.Sites.{site_url_for_goal, goal_needs_browser, host_of_url}
use lucy.Runtime.Agent.{Objective, AgentBudget}
use lucy.Runtime.Agent.Objectives.{max_objectives}
use lucy.Runtime.Agent.Objectives.Usable.{parse_objectives-Usable}
use lucy.Runtime.Agent.State.{Env, AgentRun, ask}
use lucy.Runtime.Agent.Plan.{
  Reply, replied, no_reply, Planner, Plan, Cache, or_no_host, go_to, go_to_named_site, plan,
  fallback_objective, plan_cache_get,
}
use lucy.Runtime.Agent.Plan.Spent.{IsShort, Planned, plan-Planned}
use lucy.Runtime.Agent.Drive.{
  Report, Outcome, reported, was_cancelled, out_of_fuel, objectives_of, lands, first_run, chosen,
  run_agent_loop, read_reply, planner_of,
}
use lucy.Runtime.Agent.Drive.Rounds.{WithinBudget}
use lucy.Runtime.Agent.Drive.Complete.{Proven, Reports, Fresh, drive_plan-Reports}

-- nothing is spent yet
abbrev pub Unspent : AgentRun → Type 0
Unspent s =
    (s.stats.act_steps ≡ 0)
    × (s.stats.objectives_done ≡ 0)
    × (s.stats.objectives_failed ≡ [])
    × (s.stats.recoveries ≡ 0)
    × (s.stats.llm_calls ≡ 0)

pub go_to-Unspent :
    (env : Env) (goal : Text) (keywords : List Text) (o : Option Text) (s : AgentRun)
    → Unspent s
    → Unspent (go_to env goal keywords o s)
go_to-Unspent env goal keywords none s h = h
go_to-Unspent env goal keywords (some url) s h =
    let wanted = host_of_url url in
    elim (Bool-cases (not (goal_needs_browser goal keywords))) [
      | inl e ↦ rw e h
      | inr e ↦
          rw e
            elim (Bool-cases
              (not (is_empty wanted) && text_eq (or_no_host (env.page_host s.tick)) wanted)) [
                | inl f ↦ rw f h
                | inr f ↦ rw f h
              ]
    ]

abbrev ShortReply : Reply → Type 0
ShortReply (replied os) = length os ≤ max_objectives
ShortReply (no_reply w) = Unit

ShortReply-length :
    (r : Reply) (os : List Objective) → r ≡ replied os → ShortReply r → length os ≤ max_objectives
ShortReply-length r os e h = subst ShortReply e h

read_reply-Short :
    {V : Type 0} (j : Json V) (alnum : ℕ → Bool) (r : Result Bool V)
    → ShortReply (read_reply j alnum r)
read_reply-Short j alnum (ok v) = (parse_objectives-Usable j alnum v).0
read_reply-Short j alnum (err w) = tt

planner_of-IsShort :
    {V : Type 0} (j : Json V) (alnum : ℕ → Bool) (replies : ℕ → Result Bool V)
    → IsShort (planner_of j alnum replies)
unfolding planner_of
planner_of-IsShort j alnum replies t os h =
    ShortReply-length (read_reply j alnum (replies t)) os h (read_reply-Short j alnum (replies t))

Planned-Fresh :
    (b : AgentBudget) (s0 : AgentRun) (r : Plan × AgentRun)
    → Unspent s0
    → Planned b s0 r
    → Fresh b r.1
Planned-Fresh b s0 (pl, s) u h = ground (arith, u, h)

-- the run comes to an end, and within its budgets
abbrev pub Finishes : AgentBudget → Outcome → Type 0
Finishes b (reported r s) = WithinBudget b s
Finishes b (was_cancelled s) = WithinBudget b s
Finishes b out_of_fuel = ⊥

module _ (env : Env) (b : AgentBudget) (goal : Text) where
  Reports-Finishes :
      (o : Outcome) (plan : List Objective) (navigated : Bool)
      → Reports env b goal plan navigated o
      → Finishes b o
  Reports-Finishes (reported r s) plan navigated h = h.0
  Reports-Finishes (was_cancelled s) plan navigated h = h
  Reports-Finishes out_of_fuel plan navigated h = h

module _ {V : Type 0} (j : Json V) (replies : ℕ → Result Bool V) (env : Env) (b : AgentBudget)
    (keywords : List Text) (quote : Text → Text) (goal : Text) (m : Cache) where
  abbrev model : Planner
  model = planner_of j env.alnum replies

  abbrev begun : Plan × AgentRun
  begun = chosen env b model keywords quote goal m

  begun-Fresh : Fresh b begun.1
  unfolding chosen go_to_named_site
  begun-Fresh =
      let s = go_to env goal keywords (site_url_for_goal goal) (ask first_run) in
      let u =
        go_to-Unspent env goal keywords (site_url_for_goal goal) (ask first_run)
          (refl, refl, refl, refl, refl) in
      Planned-Fresh b s begun u (
        plan-Planned b model (fallback_objective quote env.alnum goal) (plan_cache_get goal m) s
          (planner_of-IsShort j env.alnum replies) u.4)

  run-Reports :
      1 ≤ b.max_repeats
      → Reports env b goal
          (objectives_of begun.0)
          (lands (objectives_of begun.0) begun.1)
          (run_agent_loop env b model keywords quote goal m).0
  unfolding run_agent_loop
  run-Reports one = elim (Bool-cases (env.is_set 0)) [
    | inl e ↦ rw e (omega arith, omega arith, omega arith)
    | inr e ↦ rw e (
        drive_plan-Reports env b model goal (objectives_of begun.0) begun.1
          (planner_of-IsShort j env.alnum replies) one begun-Fresh)
  ]

  -- Whatever the page, the model and the stop signal answer, a run comes to an end within its budgets: the
  -- fuel of its rounds is enough, and it has made at most `max_act_steps` acts, `max_recoveries` replans and
  -- one call of the model more than `max_llm_calls`, as long as `max_repeats` is not zero.
  pub run_agent_loop-Finishes :
      1 ≤ b.max_repeats → Finishes b (run_agent_loop env b model keywords quote goal m).0
  run_agent_loop-Finishes one =
      Reports-Finishes env b goal (run_agent_loop env b model keywords quote goal m).0
        (objectives_of begun.0) (lands (objectives_of begun.0) begun.1) (run-Reports one)

  -- Where a run reports the goal as completed, either each objective of its plan has evidence (its own probe
  -- was true on the page, or the screen was found to satisfy its check), the plan is not empty and the run
  -- acted on the page or landed on the site that the goal names; or the goal as a whole was found to hold,
  -- by the probe of an objective or on the screen, and `vacuous_probes` is zero. `max_repeats` is not zero.
  run_agent_loop-Proven :
      (r : Report) (s : AgentRun)
      → 1 ≤ b.max_repeats
      → (run_agent_loop env b model keywords quote goal m).0 ≡ reported r s
      → r.complete ≡ true
      → Proven env goal (objectives_of begun.0) (lands (objectives_of begun.0) begun.1) s
  run_agent_loop-Proven r s one e h =
      (subst (Reports env b goal (objectives_of begun.0) (lands (objectives_of begun.0) begun.1)) e
          (run-Reports one)).1
        h
