-- ===== src/Runtime/Agent/Pursue.antt =====
-- One objective: `pursue_with_origin` of crates/lucy-runtime/src/agent_loop.rs, by its parts.
pub mod Evidence
pub mod Left
pub mod Ends
use lucy.Prelude.{
  ℕ, zero, suc, Bool, true, false, not, ◌&&◌, ◌||◌, Option, none, some, List, [], ◌∷◌, ◌++◌, leb,
  ltb, ◌==◌, if◌then◌else◌,
}
use lucy.Text.{Text, codes, is_empty, trim}
use lucy.Runtime.Lane.{
  ActKind, click, type_text, press, VerifyOutcome, satisfied, not_satisfied, uncertain,
}
use lucy.Runtime.Lane.Anchor.{anchor_to_visible_name}
use lucy.Runtime.Agent.{Objective, instruction, AgentBudget, attempts_per_objective}
use lucy.Runtime.Agent.Objectives.{default_press_key}
use lucy.Runtime.Agent.State.{
  ScreenState, Env, ObjectiveExit, exit_satisfied, needs_replan, unproven, attempts_exhausted,
  act_budget_exhausted, unchanged_screen, blank_screen, not_grounded, AgentRun, Pursued, exits,
  cancelled, ask, count_act, count_vacuous, by_navigation,
}

abbrev pub holds : Option Bool → Bool
holds none = false
holds (some b) = b

-- the verdict of the objective's own probe, `none` where there is none or it could not run
abbrev pub own_verdict : Env → Objective → ℕ → Option Bool
own_verdict env o t = elim o.success_probe [ none ↦ none | some p ↦ env.probe_verdict t p ]

-- `probe_confirms`
abbrev pub probe_confirms : Env → Objective → ℕ → Bool
probe_confirms env o t = holds (own_verdict env o t)

abbrev pub is_click : ActKind → Bool
is_click click = true
is_click k = false

abbrev pub is_type : ActKind → Bool
is_type type_text = true
is_type k = false

-- a verifier that cannot answer is asked once more, at the last verify
abbrev pub asked_again : Env → Objective → Bool → ℕ → VerifyOutcome → VerifyOutcome
asked_again env o true t uncertain = env.verify_step t o.success_check (some o.description)
asked_again env o last t v = v

abbrev pub unless_confirmed : Bool → VerifyOutcome → VerifyOutcome
unless_confirmed true v = satisfied
unless_confirmed false v = v

-- `verify`, at a tick of its own
unfoldable pub verify_objective : Env → Objective → Bool → ℕ → VerifyOutcome
verify_objective env o last t =
    unless_confirmed (probe_confirms env o t)
      (asked_again env o last t (env.verify_step t o.success_check none))

-- the local variables of the loop
pub record Attempt : Type 0 where
  pub attempt : ℕ
  pub repeats : ℕ
  pub submitted : Bool
  pub reanchored : Bool
  pub previous : Option ℕ

abbrev pub Continue : Type 0
Continue = Attempt → AgentRun → Pursued

abbrev pub is_previous : Option ℕ → ℕ → Bool
is_previous none f = false
is_previous (some p) f = p == f

-- a screen that did not change counts
abbrev pub seen : ScreenState → Attempt → Attempt
seen screen a = record a {
  repeats = if is_previous a.previous screen.fingerprint then suc a.repeats else 0;
  previous = some screen.fingerprint;
}

abbrev pub ends_satisfied : Continue → VerifyOutcome → Attempt → AgentRun → Pursued
ends_satisfied k satisfied a s = exits exit_satisfied s
ends_satisfied k v a s = k a s

-- after the key that submits was pressed, or not
abbrev pub after_press : Env → Objective → Continue → Bool → Attempt → AgentRun → Pursued
after_press env o k false a s = k a s
after_press env o k true a s = ends_satisfied k (verify_objective env o false s.tick) a (ask s)

-- (e): one submit recovery
abbrev pub submit_recovery : Env → Objective → Bool → Continue → Attempt → AgentRun → Pursued
submit_recovery env o acted k a s =
    if not a.submitted && acted && is_type o.action
    then after_press env o k (env.press_key s.tick default_press_key)
        (record a { submitted = true }) (ask s)
    else k a s

-- the wait for an undecided page, and one more verify
abbrev pub settle_wait : Env → Objective → Continue → Attempt → AgentRun → Pursued
settle_wait env o k a s =
    if env.wait_for s.tick o.success_check
    then ends_satisfied k (verify_objective env o false (suc s.tick)) a (ask (ask s))
    else k a (ask s)

-- (d): what the verdict after the act comes to; `more` is whether an attempt is left
abbrev pub after_verify :
    Env → Objective → Bool → Continue → VerifyOutcome → Attempt → AgentRun → Pursued
after_verify env o more k satisfied a s = exits exit_satisfied s
after_verify env o more k not_satisfied a s = k a s
after_verify env o true k uncertain a s = settle_wait env o k a s
after_verify env o false k uncertain a s = k a s

-- (c): the act, counted
abbrev pub acts : Env → Objective → Bool → Continue → Text → Attempt → AgentRun → Pursued
acts env o more k aim a s =
    let acted = env.act s.tick aim o in
    let s' = ask (count_act s) in
    after_verify env o more (submit_recovery env o acted k) (verify_objective env o false s'.tick) a
      (ask s')

-- (b): without a suggested action the target is resolved first
abbrev pub grounds : Env → Objective → Bool → Continue → Text → Attempt → AgentRun → Pursued
grounds env o more k aim a s =
    if not (is_empty (trim o.suggested_action)) || env.decide_target s.tick aim
    then acts env o more k aim a (ask s)
    else exits (needs_replan not_grounded) (ask s)

abbrev pub aim_at : Text → Text
aim_at name = codes "click the element named '" ++ (name ++ codes "'")

-- (b'): a later attempt of a click aims at a name on the screen, once
abbrev pub reanchors :
    Option Text → Env → Objective → Bool → Continue → Attempt → AgentRun → Pursued
reanchors none env o more k a s = grounds env o more k (instruction o) a s
reanchors (some name) env o more k a s =
    grounds env o more k (aim_at name) (record a { reanchored = true }) s

abbrev pub anchor_for : Env → Objective → ScreenState → Attempt → Option Text
anchor_for env o screen a =
    if ltb 1 a.attempt && not a.reanchored && is_click o.action
    then anchor_to_visible_name env.alnum (instruction o) screen.described
    else none

-- the probe has the last word on a screen that stays as it is
abbrev pub thrashing : Env → Objective → AgentRun → Pursued
thrashing env o s =
    if probe_confirms env o s.tick
    then exits exit_satisfied (ask s)
    else exits (needs_replan unchanged_screen) (ask s)

abbrev pub looked :
    Env → AgentBudget → Objective → Bool → Continue → ScreenState → Attempt → AgentRun → Pursued
looked env b o more k screen a s =
    if leb b.max_repeats a.repeats
    then thrashing env o s
    else if screen.count == 0
    then exits (needs_replan blank_screen) s
    else reanchors (anchor_for env o screen a) env o more k a s

-- one attempt
unfoldable pub attempts_once : Env → AgentBudget → Objective → Bool → Continue → Continue
unfolding verify_objective anchor_to_visible_name instruction trim
attempts_once env b o more k a s =
    if env.is_set s.tick
    then cancelled s
    else if leb b.max_act_steps s.stats.act_steps
    then exits act_budget_exhausted s
    else let screen = env.perceive_screen s.tick in
      looked env b o more k screen (seen screen a) (ask s)

abbrev pub last_verdict : VerifyOutcome → AgentRun → Pursued
last_verdict satisfied s = exits exit_satisfied s
last_verdict v s = exits attempts_exhausted s

abbrev pub next_attempt : Attempt → Attempt
next_attempt a = record a { attempt = suc a.attempt }

abbrev pub is_more : ℕ → Bool
is_more zero = false
is_more (suc n) = true

-- `for attempt in 1..=attempts`, from the number of attempts that are left
unfoldable pub attempt_loop : Env → AgentBudget → Objective → ℕ → Continue
unfolding attempts_once
attempt_loop env b o zero a s = last_verdict (verify_objective env o true s.tick) (ask s)
attempt_loop env b o (suc left) a s =
    attempts_once env b o (is_more left) (λ a' s'. attempt_loop env b o left (next_attempt a') s') a
      s

abbrev pub first_attempt : Attempt
first_attempt = record {
  attempt = 1;
  repeats = 0;
  submitted = false;
  reanchored = false;
  previous = none;
}

-- a probe that is true before the first attempt
abbrev pub already_true : Bool → AgentRun → Pursued
already_true navigated s =
    if navigated && (s.stats.objectives_done == 0)
    then exits exit_satisfied (by_navigation s)
    else if ltb 0 s.stats.objectives_done
    then exits exit_satisfied (count_vacuous s)
    else exits unproven s

unfoldable pub pursue_with_origin : Env → AgentBudget → Objective → Bool → AgentRun → Pursued
unfolding attempt_loop attempts_per_objective
pursue_with_origin env b o navigated s =
    if holds (own_verdict env o s.tick)
    then already_true navigated (ask s)
    else attempt_loop env b o (attempts_per_objective b) first_attempt (ask s)
