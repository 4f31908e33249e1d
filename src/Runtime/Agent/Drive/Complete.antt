-- ===== src/Runtime/Agent/Drive/Complete.antt =====
-- What a report of the agent loop rests on.
use lucy.Prelude.{
  ℕ, ◌+◌, ◌≤◌, ◌<◌, ◌≡◌, ◌⊎◌, refl, sym, ap, ◌∙◌, Bool, true, false, Option, none, some, List, [],
  ◌∷◌, ◌++◌, arith, length, length-append, All, Bool-cases, inl, inr, max,
}
use mathlib.Core.List.{append-nil}
use mathlib.Core.Path.{subst}
use lucy.Text.{Text}
use lucy.Runtime.Lane.{VerifyOutcome, satisfied, not_satisfied, uncertain}
use lucy.Runtime.Agent.{Objective, AgentBudget}
use lucy.Runtime.Agent.State.{Env, AgentRun}
use lucy.Runtime.Agent.Pursue.{own_verdict}
use lucy.Runtime.Agent.Pursue.Evidence.{Evidence}
use lucy.Runtime.Agent.Plan.{Planner}
use lucy.Runtime.Agent.Plan.Spent.{IsShort}
use lucy.Runtime.Agent.Drive.{
  Driven, ended, stopped, no_fuel, with_total, rounds, last_of, own_probe, overall_of, is_satisfied,
  is_nil, completes, Outcome, reported, was_cancelled, out_of_fuel, final_summary, finish,
  rounds_fuel, lands, drive_plan,
}
use lucy.Runtime.Agent.Drive.Rounds.{WithinBudget, Round, EndsWell, rounds-EndsWell}

-- The goal as a whole was found to hold: by the probe of some objective, or on the screen.
pub data WholeGoal (env : Env) (goal : Text) : Type 0 where
  goal_probe : (o : Objective) (t : ℕ) → own_verdict env o t ≡ some true → WholeGoal env goal
  goal_on_screen : (t : ℕ) → env.verify_step t goal none ≡ satisfied → WholeGoal env goal

-- Each objective of the plan has evidence, and the run acted or landed on the goal's site; or the whole
-- goal was found to hold and no probe was counted as true too early.
abbrev pub Proven : Env → Text → List Objective → Bool → AgentRun → Type 0
Proven env goal plan navigated s =
    (All (Evidence env) plan × (0 < length plan) × ((0 < s.stats.act_steps) ⊎ (navigated ≡ true)))
    ⊎ (WholeGoal env goal × (s.stats.vacuous_probes ≡ 0))

overall_of-WholeGoal :
    (env : Env) (goal : Text) (v : Option Bool) (o : Option Objective) (t : ℕ)
    → own_probe env o t ≡ v
    → overall_of env goal v o t ≡ satisfied
    → WholeGoal env goal
overall_of-WholeGoal env goal v none t e h = absurd (ground (arith, h))
overall_of-WholeGoal env goal (some true) (some o) t e h = goal_probe o t e
overall_of-WholeGoal env goal (some false) (some o) t e h = absurd (ground (arith, h))
overall_of-WholeGoal env goal none (some o) t e h = goal_on_screen t h

no_rest : (rest passed : List Objective) → length (passed ++ rest) ≤ length passed → rest ≡ []
no_rest [] passed h = refl
no_rest (o ∷ rest) passed h = absurd (omega (arith, h, length-append passed (o ∷ rest)))

pub nil_of {ℓ} : {A : Type ℓ} (xs : List A) → is_nil xs ≡ true → xs ≡ []
nil_of [] h = refl
nil_of (x ∷ xs) h = absurd (ground (arith, h))

is_satisfied-eq : (v : VerifyOutcome) → is_satisfied v ≡ true → v ≡ satisfied
is_satisfied-eq satisfied h = refl
is_satisfied-eq not_satisfied h = absurd (ground (arith, h))
is_satisfied-eq uncertain h = absurd (ground (arith, h))

-- the tally, or the check of the whole goal
pub completes-cases :
    (s : AgentRun) (total : ℕ) (verdict : Option Bool) (overall : VerifyOutcome)
    → completes s.stats total verdict overall ≡ true
    → ((0 < total) × (s.stats.objectives_done ≡ total) × (is_nil s.stats.objectives_failed ≡ true))
      ⊎ ((is_satisfied overall ≡ true) × (s.stats.vacuous_probes ≡ 0))
completes-cases s total verdict overall h = ground (arith, h)

tallied :
    (env : Env) (b : AgentBudget) (plan passed rest : List Objective) (navigated : Bool)
    (s : AgentRun) (total : ℕ)
    → Round env b plan navigated passed rest s
    → length (passed ++ rest) ≤ total
    → 0 < total
    → s.stats.objectives_done ≡ total
    → s.stats.objectives_failed ≡ []
    → All (Evidence env) plan × (0 < length plan) × ((0 < s.stats.act_steps) ⊎ (navigated ≡ true))
tallied env b plan passed rest navigated s total r l z d f =
    let (same, evident) = r.unfailed f in
    let none_left = no_rest rest passed (omega (arith, l, d, r.counted)) in
    let whole : passed ≡ plan =
      sym (append-nil passed) ∙ ap (λ x. passed ++ x) (sym none_left) ∙ same in
    (
      subst (All (Evidence env)) whole evident,
      subst (λ x. 0 < length x) whole (omega (arith, z, d, r.counted)),
      r.earned (omega (arith, z, d)),
    )

-- what the two ways to complete come to, for a run that is at its end
completed :
    (env : Env) (b : AgentBudget) (goal : Text) (plan passed rest : List Objective)
    (navigated : Bool) (s : AgentRun) (verdict : Option Bool) (o : Option Objective) (t : ℕ)
    → Round env b plan navigated passed rest s
    → own_probe env o t ≡ verdict
    → completes s.stats
        (max (length (passed ++ rest)) s.stats.objectives_total)
        verdict
        (overall_of env goal verdict o t)
      ≡ true
    → Proven env goal plan navigated s
completed env b goal plan passed rest navigated s verdict o t r e h =
    let total = max (length (passed ++ rest)) s.stats.objectives_total in
    let overall = overall_of env goal verdict o t in
    elim (completes-cases s total verdict overall h) [
      | inl (z, d, f) ↦ inl (
          tallied env b plan passed rest navigated s total r (omega arith) z d
            (nil_of s.stats.objectives_failed f))
      | inr (g, v) ↦
          inr (overall_of-WholeGoal env goal verdict o t e (is_satisfied-eq overall g), v)
    ]

-- what a report of a completed run says of the state that the run is left in
abbrev pub Reports : Env → AgentBudget → Text → List Objective → Bool → Outcome → Type 0
Reports env b goal plan navigated (reported r s) =
    WithinBudget b s × (r.complete ≡ true → Proven env goal plan navigated s)
Reports env b goal plan navigated (was_cancelled s) = WithinBudget b s
Reports env b goal plan navigated out_of_fuel = ⊥

final_summary-Reports :
    (env : Env) (b : AgentBudget) (goal : Text) (plan passed rest : List Objective)
    (navigated : Bool) (s : AgentRun)
    → Round env b plan navigated passed rest s
    → Reports env b goal plan navigated (final_summary env goal passed rest s)
unfolding final_summary
final_summary-Reports env b goal plan passed rest navigated s r =
    elim (Bool-cases (env.is_set s.tick)) [
      | inl e ↦ rw e r.within
      | inr e ↦ rw e (
          let last = last_of (passed ++ rest) in
          (
            r.within,
            λ h.
                completed env b goal plan passed rest navigated s (own_probe env last s.tick) last
                  s.tick r refl h,
          ))
    ]

finish-Reports :
    (env : Env) (b : AgentBudget) (p : Planner) (goal : Text) (plan : List Objective)
    (navigated : Bool) (d : Driven)
    → EndsWell env b p plan navigated d
    → Reports env b goal plan navigated (finish env goal d)
finish-Reports env b p goal plan navigated (ended passed rest s) r =
    final_summary-Reports env b goal plan passed rest navigated s r
finish-Reports env b p goal plan navigated (stopped s) r = r
finish-Reports env b p goal plan navigated no_fuel r = r

-- a run in which no objective was pursued yet
abbrev pub Fresh : AgentBudget → AgentRun → Type 0
Fresh b s =
    (s.stats.act_steps ≡ 0)
    × (s.stats.objectives_done ≡ 0)
    × (s.stats.objectives_failed ≡ [])
    × (s.stats.recoveries ≡ 0)
    × (s.stats.llm_calls ≤ b.max_llm_calls + 1)

pub drive_plan-Reports :
    (env : Env) (b : AgentBudget) (p : Planner) (goal : Text) (plan : List Objective) (s : AgentRun)
    → IsShort p
    → 1 ≤ b.max_repeats
    → Fresh b s
    → Reports env b goal plan (lands plan s) (drive_plan env b p goal plan s)
drive_plan-Reports env b p goal plan s q one f =
    let s' = with_total (length plan) s in
    let n = lands plan s in
    finish-Reports env b p goal plan n (rounds (rounds_fuel b plan) env b p n [] plan s') (
      rounds-EndsWell env b p plan n (rounds_fuel b plan) [] plan s' q one
        (record {
          within = (omega (arith, f.0), f.4, omega (arith, f.3));
          counted = omega (arith, f.1);
          earned = λ h. absurd (omega (arith, h, f.1));
          unfailed = λ _. (refl, tt);
        })
        (omega (arith, f.3)))
