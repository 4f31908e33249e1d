-- ===== src/Runtime/AgentTests.antt =====
-- The agent loop on a small page and a small planner.
use lucy.Prelude.{
  ◌≡◌, ◌≢◌, refl, true, false, Option, none, some, List, [], ◌∷◌, arith, ok, ltb, leb,
  if◌then◌else◌, Bool, inl,
}
use lucy.Text.{Text, codes, text_eq}
use lucy.Runtime.Json.{Json}
use lucy.Runtime.Lane.Sites.{site_url_for_goal}
use lucy.Runtime.Agent.Probe.{sanitize_probe}
use lucy.Runtime.Lane.{click, verdict_from_str, satisfied, uncertain}
use lucy.Runtime.Agent.{Objective, budget_from_config, AgentBudget}
use lucy.Runtime.Agent.State.{ScreenState, Env, AgentRun, no_stats}
use lucy.Runtime.Agent.Drive.Cached.{words, run_agent_loop-reuses_plan}
use lucy.Runtime.Agent.Plan.{Planner, Cache, from_cache, from_model, plan_cache_get}
use lucy.Runtime.Agent.Drive.{
  chosen, objectives_of, Report, Outcome, reported, run_agent_loop, planner_of, rounds, finish,
  final_summary,
}
use lucy.Runtime.Agent.Drive.Early.{NotByProbe, rounds-NotByProbe}
use lucy.Runtime.Agent.Drive.Ends.{Finishes, run_agent_loop-Finishes}

-- A text, an object of texts, or a list of objects under the key "objectives".
pub data Doc : Type 0 where
  word : Text → Doc
  entry : List (Text × Text) → Doc
  plan_of : List (List (Text × Text)) → Doc

abbrev field : Text → List (Text × Text) → Option Doc
field k [] = none
field k ((n, v) ∷ fs) = if text_eq n k then some (word v) else field k fs

abbrev entries : List (List (Text × Text)) → List Doc
entries [] = []
entries (e ∷ es) = entry e ∷ entries es

abbrev doc_get : Doc → Text → Option Doc
doc_get (word t) k = none
doc_get (entry fs) k = field k fs
doc_get (plan_of es) k = if text_eq k (codes "objectives") then some (plan_of es) else none

abbrev doc_array : Doc → Option (List Doc)
doc_array (plan_of es) = some (entries es)
doc_array d = none

abbrev doc_text : Doc → Option Text
doc_text (word t) = some t
doc_text d = none

abbrev pub docs : Json Doc
docs = record {
  get = doc_get;
  as_array = doc_array;
  as_str = doc_text;
  as_bool = λ _. none;
  is_null = λ _. false;
  to_text = λ _. [];
  from_text = λ _. none;
  text_object = word;
}

abbrev pub reply : Doc
reply = plan_of (
    ((codes "description", codes "press it")
      ∷ (codes "success_probe", codes "page.pressed")
      ∷ (codes "suggested_action", codes "click Go")
      ∷ [])
    ∷ [])

abbrev screen : ScreenState
screen = record { described = codes "Go" ∷ []; count = 1; fingerprint = 7; summary = codes "Go" }

-- The probe is false up to tick 5, and true from then on.
abbrev page : Env
page = record {
  is_set = λ _. false;
  perceive_screen = λ _. screen;
  probe_verdict = λ t _. some (ltb 5 t);
  verify_step = λ _ _ _. uncertain;
  wait_for = λ _ _. false;
  act = λ _ _ _. true;
  press_key = λ _ _. true;
  decide_target = λ _ _. true;
  page_url = λ _. none;
  page_host = λ _. none;
  alnum = λ c. leb 97 c;
}

abbrev budget : AgentBudget
budget = budget_from_config (record {
  max_llm_calls_single_task = 4;
  max_recoveries = 2;
  max_step_retries = 1;
  replan_on_failure = true;
  max_depth = 8;
})

abbrev goal : Text
goal = codes "press go"

abbrev quoted : Text → Text
quoted s = s

run_agent_loop-Finishes_example :
    Finishes budget
      (run_agent_loop page budget (planner_of docs page.alnum (λ _. ok reply)) [] quoted goal []).0
unfolding budget_from_config
run_agent_loop-Finishes_example =
    run_agent_loop-Finishes docs (λ _. ok reply) page budget [] quoted goal [] (omega arith)

abbrev pub report : Report
report = record { complete = true; done = 1; total = 1; overall = satisfied; not_done = [] }

abbrev pub final : AgentRun
final = record {
  stats = record no_stats {
    act_steps = 1;
    llm_calls = 1;
    objectives_total = 1;
    objectives_done = 1;
    complete = true;
  };
  observations = [];
  tick = 9;
}

abbrev ran : Outcome
ran = (run_agent_loop page budget (planner_of docs page.alnum (λ _. ok reply)) [] quoted goal []).0

runs : ran ≡ reported report final
unfolding run_agent_loop budget_from_config planner_of
runs = refl

-- The probe is true from the start.
abbrev early_page : Env
early_page = record page { probe_verdict = λ _ _. some true }

abbrev only : Objective
only = record {
  description = codes "press it";
  success_check = codes "pressed";
  success_probe = some (codes "page.pressed");
  suggested_action = codes "click Go";
  action = click;
  text = none;
}

abbrev at_first : AgentRun
at_first = record { stats = record no_stats { objectives_total = 1 }; observations = []; tick = 3 }

abbrev early_planner : Planner
early_planner = planner_of docs page.alnum (λ _. ok reply)

rounds-NotByProbe_example : NotByProbe early_page budget early_planner false 0 (
    finish early_page goal (rounds 2 early_page budget early_planner false [] (only ∷ []) at_first))
unfolding budget_from_config
rounds-NotByProbe_example =
    rounds-NotByProbe early_page budget early_planner false goal 1 [] [] only at_first (omega arith)
      (omega arith) refl (inl refl)

is_completed : Outcome → Option Bool
is_completed (reported r s) = some r.complete
is_completed o = none

early_is_reported :
    is_completed (
      finish early_page goal
        (rounds 2 early_page budget early_planner false [] (only ∷ []) at_first))
    ≡ some false
unfolding rounds budget_from_config is_completed final_summary
early_is_reported = refl

abbrev run_model : Planner
run_model = planner_of docs page.alnum (λ _. ok reply)

abbrev left_cache : Cache
left_cache = (run_agent_loop page budget run_model [] quoted goal []).1

leaves :
    run_agent_loop page budget run_model [] quoted goal [] ≡ (reported report final, left_cache)
unfolding run_agent_loop budget_from_config planner_of
leaves = refl

abbrev again : Text
again = codes " Press  GO"

-- The plan that the complete run began with is the one that the next run for the goal begins with.
run_agent_loop-reuses_plan_example :
    (words again ≡ words goal
      → true ≡ true
      → objectives_of (chosen page budget run_model [] quoted goal []).0 ≢ []
      → (chosen page budget run_model [] quoted again left_cache).0
        ≡ from_cache (objectives_of (chosen page budget run_model [] quoted goal []).0))
    × (words again ≡ words goal
        → true ≡ false
        → (os : List Objective)
        → ((chosen page budget run_model [] quoted goal []).0 ≡ from_cache os
            → plan_cache_get again left_cache ≡ none)
          × ((chosen page budget run_model [] quoted goal []).0 ≡ from_model os
              → plan_cache_get again left_cache ≡ plan_cache_get again []))
    × (words again ≢ words goal → plan_cache_get again left_cache ≡ plan_cache_get again [])
unfolding budget_from_config
run_agent_loop-reuses_plan_example =
    run_agent_loop-reuses_plan page page budget budget run_model run_model [] [] quoted quoted goal
      again [] left_cache report final leaves (omega arith)

-- A verifier's "not_satisfied" is read as satisfied.
not_satisfied_is_satisfied : verdict_from_str (codes "not_satisfied") ≡ satisfied
unfolding verdict_from_str
not_satisfied_is_satisfied = refl

-- Where a blank stands before the `=` or the `(`, a probe that leaves the page or clicks on it is kept.
navigating_probe :
    sanitize_probe page.alnum (codes "location.href = 'logout'")
    ≡ some (codes "location.href = 'logout'")
unfolding sanitize_probe
navigating_probe = refl

clicking_probe :
    sanitize_probe page.alnum (codes "document.links[0].click ()")
    ≡ some (codes "document.links[0].click ()")
unfolding sanitize_probe
clicking_probe = refl

-- The address that the user wrote is lower-cased.
lowered_url :
    site_url_for_goal (codes "open https://x.test/Wiki") ≡ some (codes "https://x.test/wiki")
unfolding site_url_for_goal
lowered_url = refl
