-- ===== src/Runtime/Agent/Plan.antt =====
-- The slow calls of crates/lucy-runtime/src/agent_loop.rs: the plan, its cache and the replans.
pub mod Spent
use lucy.Prelude.{
  ℕ, suc, Bool, true, false, not, ◌&&◌, Option, none, some, List, [], ◌∷◌, ◌++◌, take, length, leb,
  if◌then◌else◌,
}
use lucy.Prelude.Maps.{Map, lookup, insert, remove}
use lucy.Text.{Text, codes, text_eq, is_empty, trim, to_lowercase, split_whitespace, join}
use lucy.Text.Equality.{text_key}
use lucy.Runtime.Lane.{click}
use lucy.Runtime.Lane.Sites.{site_url_for_goal, goal_needs_browser, host_of_url}
use lucy.Runtime.Lane.Anchor.{is_in}
use lucy.Runtime.Agent.{Objective, AgentBudget}
use lucy.Runtime.Agent.Probe.{sanitize_probe}
use lucy.Runtime.Agent.State.{Env, AgentRun, ask}

-- One call of the planner's model: the objectives that are read from its reply, or an error and whether
-- that error is worth one more call.
pub data Reply : Type 0 where
  replied : List Objective → Reply
  no_reply : Bool → Reply

abbrev pub Planner : Type 0
Planner = ℕ → Reply

abbrev pub count_call : AgentRun → AgentRun
count_call s = record s {
  stats = record s.stats { llm_calls = suc s.stats.llm_calls };
  tick = suc s.tick;
}

abbrev pub second_try : Reply → AgentRun → Option (List Objective) × AgentRun
second_try (replied os) s = (some os, s)
second_try (no_reply retryable) s = (none, s)

abbrev pub first_try : Planner → Reply → AgentRun → Option (List Objective) × AgentRun
first_try p (replied os) s = (some os, s)
first_try p (no_reply true) s = second_try (p s.tick) (count_call s)
first_try p (no_reply false) s = (none, s)

-- `llm_json`: at most two calls, each counted
unfoldable pub llm_json : Planner → AgentRun → Option (List Objective) × AgentRun
llm_json p s = first_try p (p s.tick) (count_call s)

-- `one_line`
unfoldable pub one_line : Text → ℕ → Text
unfolding join split_whitespace
one_line text most =
    let flat = join (codes " ") (split_whitespace text) in
    if leb (length flat) most then flat else take most flat ++ (0x2026 ∷ [])

abbrev pub max_page_observations : ℕ
max_page_observations = 4

abbrev pub max_observation_chars : ℕ
max_observation_chars = 600

-- what is kept of a note that is not empty
abbrev pub with_note : Text → List Text → List Text
with_note note notes =
    if leb max_page_observations (length notes)
    then notes
    else if is_in note notes
    then notes
    else notes ++ (note ∷ [])

unfoldable pub note_observation : Text → List Text → List Text
unfolding one_line
note_observation text notes =
    let note = one_line text max_observation_chars in
    if is_empty note then notes else with_note note notes

abbrev pub noted : Text → AgentRun → AgentRun
noted text s = record s { observations = note_observation text s.observations }

abbrev or_unknown : Option Text → Text
or_unknown none = codes "an unknown page"
or_unknown (some u) = u

abbrev pub count_recovery : AgentRun → AgentRun
count_recovery s = record s { stats = record s.stats { recoveries = suc s.stats.recoveries } }

abbrev pub observed_screen : Env → AgentRun → AgentRun
observed_screen env s =
    noted
      (codes "at "
        ++ (or_unknown (env.page_url s.tick)
            ++ (codes " the page showed: "
                ++ one_line (env.perceive_screen s.tick).summary max_observation_chars)))
      (ask s)

-- `replan`: nothing where it is not wanted, or where the budget of replans or of slow calls is spent
unfoldable pub replan : Env → AgentBudget → Planner → AgentRun → Option (List Objective) × AgentRun
unfolding llm_json note_observation
replan env b p s =
    if not b.replan_on_failure
    then (none, s)
    else if leb b.max_recoveries s.stats.recoveries
    then (none, s)
    else if leb b.max_llm_calls s.stats.llm_calls
    then (none, s)
    else llm_json p (observed_screen env (count_recovery s))

abbrev pub Cache : Type 0
Cache = Map Text (List Objective)

unfoldable pub plan_cache_key : Text → Text
unfolding join split_whitespace trim to_lowercase
plan_cache_key goal = join (codes " ") (split_whitespace (to_lowercase (trim goal)))

unfoldable pub plan_cache_get : Text → Cache → Option (List Objective)
unfolding lookup plan_cache_key
plan_cache_get goal m = lookup (plan_cache_key goal) m

unfoldable pub plan_cache_put : Text → List Objective → Cache → Cache
unfolding insert plan_cache_key
plan_cache_put goal os m = insert (plan_cache_key goal) os m

unfoldable pub plan_cache_evict : Text → Cache → Cache
unfolding remove plan_cache_key
plan_cache_evict goal m = remove (plan_cache_key goal) m

-- `quote` is `serde_json::to_string` of a text
unfoldable pub fallback_objective : (Text → Text) → (ℕ → Bool) → Text → Objective
unfolding trim to_lowercase sanitize_probe
fallback_objective quote alnum goal = record {
  description = trim goal;
  success_check = trim goal;
  suggested_action = trim goal;
  action = click;
  text = none;
  success_probe = sanitize_probe alnum (
      codes "document.body.innerText.toLowerCase().includes("
      ++ (quote (to_lowercase (trim goal)) ++ codes ")"));
}

-- where the plan comes from
pub data Plan : Type 0 where
  from_cache from_model : List Objective → Plan

abbrev or_fallback : Objective → Option (List Objective) → List Objective
or_fallback o none = o ∷ []
or_fallback o (some []) = o ∷ []
or_fallback o (some (q ∷ qs)) = q ∷ qs

abbrev pub asked_plan : Objective → Option (List Objective) × AgentRun → Plan × AgentRun
asked_plan o (os, s) = (from_model (or_fallback o os), s)

abbrev pub cached_or : Objective → Planner → AgentRun → Option (List Objective) → Plan × AgentRun
cached_or o p s none = asked_plan o (llm_json p s)
cached_or o p s (some os) = (from_cache os, s)

-- `plan`
unfoldable pub plan :
    AgentBudget → Planner → Objective → Option (List Objective) → AgentRun → Plan × AgentRun
unfolding llm_json
plan b p fallback cached s =
    if leb b.max_llm_calls s.stats.llm_calls
    then (from_model (fallback ∷ []), s)
    else cached_or fallback p s cached

abbrev pub or_no_host : Option Text → Text
or_no_host none = []
or_no_host (some h) = h

abbrev pub arrive : Text → AgentRun → AgentRun
arrive url s =
    noted (codes "arrived at " ++ url)
      (record s { stats = record s.stats { site_navigations = suc s.stats.site_navigations } })

abbrev pub go_to : Env → Text → List Text → Option Text → AgentRun → AgentRun
go_to env goal keywords none s = s
go_to env goal keywords (some url) s =
    let wanted = host_of_url url in
    if not (goal_needs_browser goal keywords)
    then s
    else if not (is_empty wanted) && text_eq (or_no_host (env.page_host s.tick)) wanted
    then ask s
    else arrive url (ask s)

-- `go_to_named_site`
unfoldable pub go_to_named_site : Env → Text → List Text → AgentRun → AgentRun
unfolding site_url_for_goal goal_needs_browser host_of_url note_observation
go_to_named_site env goal keywords s = go_to env goal keywords (site_url_for_goal goal) s
