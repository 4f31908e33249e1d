-- ===== src/Runtime/Agent/Plan/Spent.antt =====
-- What the slow calls leave of a run, and how many there can be.
use lucy.Prelude.{
  ℕ, ◌+◌, ◌≤◌, ◌<◌, ◌≡◌, refl, true, false, not, Option, none, some, List, arith, length, leb,
  Bool-cases, inl, inr,
}
use lucy.Runtime.Agent.{Objective, AgentBudget}
use lucy.Runtime.Agent.Objectives.{max_objectives}
use lucy.Runtime.Agent.State.{Env, AgentRun}
use lucy.Runtime.Agent.Plan.{
  Reply, replied, no_reply, Planner, count_call, second_try, first_try, llm_json, count_recovery,
  observed_screen, replan, Plan, cached_or, asked_plan, plan,
}

-- no reply has more objectives than `parse_objectives` keeps
abbrev pub IsShort : Planner → Type 0
IsShort p = (t : ℕ) (os : List Objective) → p t ≡ replied os → length os ≤ max_objectives

-- the counters that a slow call leaves as they are
abbrev pub Kept : AgentRun → AgentRun → Type 0
Kept s0 s =
    (s.stats.act_steps ≡ s0.stats.act_steps)
    × (s.stats.objectives_done ≡ s0.stats.objectives_done)
    × (s.stats.objectives_failed ≡ s0.stats.objectives_failed)
    × (s.stats.recoveries ≡ s0.stats.recoveries)

-- one or two calls were made
abbrev pub Called : AgentRun → Option (List Objective) × AgentRun → Type 0
Called s0 (none, s) = Kept s0 s × (s.stats.llm_calls ≤ s0.stats.llm_calls + 2)
Called s0 (some os, s) =
    Kept s0 s × (s.stats.llm_calls ≤ s0.stats.llm_calls + 2) × (length os ≤ max_objectives)

second_try-Called :
    (s0 s : AgentRun) (r : Reply)
    → Kept s0 s
    → s.stats.llm_calls ≤ s0.stats.llm_calls + 2
    → ((os : List Objective) → r ≡ replied os → length os ≤ max_objectives)
    → Called s0 (second_try r s)
second_try-Called s0 s (replied os) k l h = (k, l, h os refl)
second_try-Called s0 s (no_reply b) k l h = (k, l)

first_try-Called :
    (p : Planner) (s0 s : AgentRun) (r : Reply)
    → IsShort p
    → Kept s0 s
    → s.stats.llm_calls ≤ s0.stats.llm_calls + 1
    → ((os : List Objective) → r ≡ replied os → length os ≤ max_objectives)
    → Called s0 (first_try p r s)
first_try-Called p s0 s (replied os) q k l h = (k, omega (arith, l), h os refl)
first_try-Called p s0 s (no_reply false) q k l h = (k, omega (arith, l))
first_try-Called p s0 s (no_reply true) q k l h =
    second_try-Called s0 (count_call s) (p s.tick) k (omega (arith, l)) (q s.tick)

pub llm_json-Called : (p : Planner) (s : AgentRun) → IsShort p → Called s (llm_json p s)
unfolding llm_json
llm_json-Called p s q =
    first_try-Called p s (count_call s) (p s.tick) q (refl, refl, refl, refl) (omega arith)
      (q s.tick)

-- what a replan leaves, within the budgets
abbrev pub Replanned : AgentBudget → AgentRun → Option (List Objective) × AgentRun → Type 0
Replanned b s0 (r, s) =
    (s.stats.act_steps ≡ s0.stats.act_steps)
    × (s.stats.objectives_done ≡ s0.stats.objectives_done)
    × (s.stats.objectives_failed ≡ s0.stats.objectives_failed)
    × (s.stats.llm_calls ≤ b.max_llm_calls + 1)
    × (s.stats.recoveries ≤ b.max_recoveries)
    × (s0.stats.recoveries ≤ s.stats.recoveries)
    × ((os : List Objective)
        → r ≡ some os
        → (length os ≤ max_objectives) × (s0.stats.recoveries < s.stats.recoveries))

Called-Replanned :
    (b : AgentBudget) (s0 s1 : AgentRun) (r : Option (List Objective) × AgentRun)
    → s1.stats.act_steps ≡ s0.stats.act_steps
    → s1.stats.objectives_done ≡ s0.stats.objectives_done
    → s1.stats.objectives_failed ≡ s0.stats.objectives_failed
    → s1.stats.recoveries ≡ s0.stats.recoveries + 1
    → s1.stats.llm_calls < b.max_llm_calls
    → s0.stats.recoveries < b.max_recoveries
    → Called s1 r
    → Replanned b s0 r
Called-Replanned b s0 s1 (none, s) a d f r l m c = ground (arith)
Called-Replanned b s0 s1 (some os, s) a d f r l m c = ground (arith)

pub replan-Replanned :
    (env : Env) (b : AgentBudget) (p : Planner) (s : AgentRun)
    → IsShort p
    → s.stats.llm_calls ≤ b.max_llm_calls + 1
    → s.stats.recoveries ≤ b.max_recoveries
    → Replanned b s (replan env b p s)
unfolding replan
replan-Replanned env b p s q l m = elim (Bool-cases (not b.replan_on_failure)) [
  | inl e ↦ rw e (refl, refl, refl, l, m, omega arith, λ os h. ground (arith, h))
  | inr e ↦ rw e elim (Bool-cases (leb b.max_recoveries s.stats.recoveries)) [
    | inl f ↦ rw f (refl, refl, refl, l, m, omega arith, λ os h. ground (arith, h))
    | inr f ↦ rw f elim (Bool-cases (leb b.max_llm_calls s.stats.llm_calls)) [
      | inl g ↦ rw g (refl, refl, refl, l, m, omega arith, λ os h. ground (arith, h))
      | inr g ↦ rw g (
          let s1 = observed_screen env (count_recovery s) in
          Called-Replanned b s s1 (llm_json p s1) refl refl refl (omega arith) (ground (arith, g))
            (ground (arith, f)) (llm_json-Called p s1 q))
    ]
  ]
]

-- what the plan leaves of a run that has made no call
abbrev pub Planned : AgentBudget → AgentRun → Plan × AgentRun → Type 0
Planned b s0 (pl, s) = Kept s0 s × (s.stats.llm_calls ≤ b.max_llm_calls + 1)

asked_plan-Planned :
    (b : AgentBudget) (o : Objective) (s0 : AgentRun) (r : Option (List Objective) × AgentRun)
    → s0.stats.llm_calls < b.max_llm_calls
    → Called s0 r
    → Planned b s0 (asked_plan o r)
asked_plan-Planned b o s0 (none, s) l c = (c.0, omega (arith, c.1, l))
asked_plan-Planned b o s0 (some os, s) l c = (c.0, omega (arith, c.1, l))

cached_or-Planned :
    (b : AgentBudget) (o : Objective) (p : Planner) (s : AgentRun) (m : Option (List Objective))
    → IsShort p
    → s.stats.llm_calls < b.max_llm_calls
    → Planned b s (cached_or o p s m)
cached_or-Planned b o p s none q l =
    asked_plan-Planned b o s (llm_json p s) l (llm_json-Called p s q)
cached_or-Planned b o p s (some os) q l = ((refl, refl, refl, refl), omega (arith, l))

pub plan-Planned :
    (b : AgentBudget) (p : Planner) (o : Objective) (m : Option (List Objective)) (s : AgentRun)
    → IsShort p
    → s.stats.llm_calls ≡ 0
    → Planned b s (plan b p o m s)
unfolding plan
plan-Planned b p o m s q z = elim (Bool-cases (leb b.max_llm_calls s.stats.llm_calls)) [
  | inl e ↦ rw e ((refl, refl, refl, refl), omega (arith, z))
  | inr e ↦ rw e (cached_or-Planned b o p s m q (ground (arith, e)))
]
